-- ===== src/Broker/Once.antt =====
-- That `settle` (state/broker.go) counts the report of a provider once.
use microoperator.Access.Env.{Env}
use microoperator.Broker.Settle.{Settled}
use microoperator.Broker.Follows.{Follows}
