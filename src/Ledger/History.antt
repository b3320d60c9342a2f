-- ===== src/Ledger/History.antt =====
-- Histories of a database under the operations of admission.
use microoperator.Base.{◌≡◌, ok}
use microoperator.Store.{Db}
use microoperator.Access.Env.{Env}
use microoperator.Broker.Queue.{Session, queue, cancel_model_call}
use microoperator.Broker.Admit.{Admission, admit}
use microoperator.Broker.Settle.{ProviderResult, settle}
use microoperator.Ledger.Books.{Balanced}
use microoperator.Ledger.Admitted.{admit-Books}
use microoperator.Ledger.Settled.{settle-Books, queue-Books, cancel_model_call-Books}

-- One committed operation, of any caller and at any time. One that fails commits nothing.
pub data Step : Db → Db → Type 0 where
  queues : (db after : Db) (session : Session) → queue db session ≡ ok after → Step db after
  admits :
      (db : Db) (env : Env) (session : Session) (a : Admission)
      → admit env db session ≡ ok a
      → Step db a.db
  settles :
      (db after : Db) (env : Env) (session : Session) (p : ProviderResult)
      → settle env db session p ≡ ok after
      → Step db after
  cancels :
      (db after : Db) (session : Session) → cancel_model_call db session ≡ ok after → Step db after

pub data Reach (start : Db) : Db → Type 0 where
  here : Reach start start
  then : (db after : Db) → Reach start db → Step db after → Reach start after

-- From a database whose books are balanced, any sequence of committed calls of QueueModelCall,
-- AdmitModelCall, SettleModelCall and CancelModelCall, of any callers and in any order, reaches a
-- database whose books are balanced: every system, goal and agent has reserved exactly the sum of
-- the reservations of the attempts of its calls that are in flight or of unknown outcome, and a
-- call holds its reservation in flight while it is running and nothing otherwise.
pub Reach-Balanced : (start db : Db) → Balanced start → Reach start db → Balanced db
unfolding Balanced
Reach-Balanced start _ b here = b
Reach-Balanced start _ b (then before db reached step) =
    kept before db (Reach-Balanced start before b reached) step
  where
    kept : (before after : Db) → Balanced before → Step before after → Balanced after
    kept _ _ b (queues before after session done) = (b.0, queue-Books b.0 before session b.1 done)
    kept _ _ b (admits before env session a done) =
        (b.0, admit-Books b.0 env session before b.1 done)
    kept _ _ b (settles before after env session p done) =
        (b.0, settle-Books b.0 before session env p b.1 done)
    kept _ _ b (cancels before after session done) =
        (b.0, cancel_model_call-Books b.0 before session b.1 done)
