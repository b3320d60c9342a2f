-- ===== src/Store.antt =====
-- The durable state of the package `state`: the tables of its SQLite schema (state/store.go,
-- execution_store.go, team_store.go, learning_store.go, knowledge_store.go, continuous.go) and the
-- queries on them. A table is the list of its rows in the order of insertion; a column that holds JSON is the value
-- that was encoded. Table and column names are those of the schema.
mod States
mod Rows
mod Messages
mod Tables
mod Query
unfoldable pub use States.*
pub use Rows.*
pub use Tables.*
unfoldable pub use Query.*
pub use Messages.*
