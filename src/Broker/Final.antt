-- ===== src/Broker/Final.antt =====
-- That `CancelModelCall` (state/workflows.go) is final for the admission of its call.
use microoperator.Base.{Bool, false, same, ◌&&◌, ok, ◌≡◌}
use microoperator.Store.{Db}
use microoperator.Access.Env.{Env}
use microoperator.Access.Read.{Execution}
use microoperator.Broker.Queue.{Session, queue, cancel_model_call}
use microoperator.Broker.Admit.{admit}
use microoperator.Broker.Follows.{Key, Follows}

-- Queue, admit and another cancel commit the database that they find, and nothing is admitted.
pub record Final (env : Env) (db : Db) (session : Session) : Type 0 where
  pub result : Execution
  pub queues : queue db session ≡ ok db
  pub admits : admit env db session ≡ ok (record { db = db; result = result; admitted = false })
  pub cancels : cancel_model_call db session ≡ ok db

abbrev scoped : Execution → Key → Bool
scoped e k = same k.0 e.system_id && same k.1 e.call_id
