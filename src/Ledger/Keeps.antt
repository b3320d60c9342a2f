-- ===== src/Ledger/Keeps.antt =====
-- The books through the writes of the broker: the state of a call, and the dispatch of one.
use microoperator.Base.{
  ℤ, pos, ◌+ℤ◌, false, List, [], ◌∷◌, ◌++◌, Text, same, if◌then◌else◌, ok, ◌≡◌, refl,
}
use microoperator.Store.{CallState, call_running, CallRow, Db}
use microoperator.Base.{
  int_laws, All-both, >>=-eq-ok, fail_if-then, &&_split, same_iff, same-sym, ◌∙◌, ap, sym,
}
use microoperator.Store.{All-update_where, All-update_where_to}
use microoperator.Access.Read.{Execution, read_execution, audit_execution}
use microoperator.Broker.Budget.{charge_agents}
use microoperator.Broker.Queue.{
  Session, outside, outside_activation, authorize_call, terminal_call, update_call, is_call,
  is_scoped_call,
}
use microoperator.Broker.Admit.{dispatch, start_call, new_attempt}
use microoperator.Ledger.Sums.{CallInfo, running_tokens, running_tokens-append}
use microoperator.Ledger.Books.{Known, Held, Named, Books}
use microoperator.Ledger.Steps.{dispatch-Accounts}
use microoperator.Ledger.Frames.{read_execution-All}

-- The call of a session, as the database has it.
pub authorize_call-reads :
    (db : Db) (session : Session) {e : Execution}
    → authorize_call db session ≡ ok e
    → read_execution db session.system_id session.call_id ≡ ok e
unfolding authorize_call
authorize_call-reads db session {e} done =
    let read = >>=-eq-ok (read_execution db session.system_id session.call_id) _ done in
    let checked = fail_if-then (outside read.0 session) outside_activation (ok read.0) read.2 in
    read.1 ∙ checked.1

module _ (info : Text → CallInfo) (db : Db) where
  -- A call that is read has nothing in flight unless it runs.
  pub read_execution-Held :
      (system call : Text) {e : Execution}
      → Books info db
      → read_execution db system call ≡ ok e
      → Held db.model_attempts e.call × Known info db e.call
  read_execution-Held system call {e} b read = (
    (read_execution-All (Held db.model_attempts) db system call b.held read).0,
    (read_execution-All (Known info db) db system call b.accounts.calls read).0,
  )

  pub terminal_call-Books :
      (e : Execution) (state : CallState) (reason : Text)
      → call_running state ≡ false
      → running_tokens e.call_id db.model_attempts ≡ pos 0
      → Books info db
      → Books info (terminal_call db e state reason)
  unfolding terminal_call
  terminal_call-Books e state reason ends idle b = record {
    accounts = record {
      calls =
          All-update_where (Known info db) (is_scoped_call e) ended db.model_calls (λ c h _. h)
            b.accounts.calls;
      systems = b.accounts.systems;
      goals = b.accounts.goals;
      usage = b.accounts.usage;
    };
    named = All-update_where Named (is_scoped_call e) ended db.model_calls (λ c h _. h) b.named;
    held =
        All-update_where (Held db.model_attempts) (is_scoped_call e) ended db.model_calls
          (λ c _ hit.
            let same_call =
              (same_iff c.call_id e.call_id).0
                (&&_split (same c.system_id e.system_id) (same c.call_id e.call_id) hit).1 in
            let nothing = ap (λ x. running_tokens x db.model_attempts) same_call ∙ idle in
            rw ends nothing)
          b.held;
  }
    where
      ended : CallRow → CallRow
      ended c = record c { state = state; reason = reason }

  pub update_call-Books :
      (id : Text) (f : CallRow → CallRow)
      → ((c : CallRow) → Known info db c → Known info db (f c))
      → ((c : CallRow) → Named c → Named (f c))
      → ((c : CallRow) → Held db.model_attempts c → c.call_id ≡ id → Held db.model_attempts (f c))
      → Books info db
      → Books info (update_call id f db)
  update_call-Books id f known named held b = record {
    accounts = record {
      calls =
          All-update_where (Known info db) (is_call id) f db.model_calls (λ c h _. known c h)
            b.accounts.calls;
      systems = b.accounts.systems;
      goals = b.accounts.goals;
      usage = b.accounts.usage;
    };
    named = All-update_where Named (is_call id) f db.model_calls (λ c h _. named c h) b.named;
    held =
        All-update_where (Held db.model_attempts) (is_call id) f db.model_calls
          (λ c h hit. held c h ((same_iff c.call_id id).0 hit)) b.held;
  }

pub dispatch-Books :
    (info : Text → CallInfo) (db : Db) (e : Execution) (groups : List Text) (dispatch_at now : ℤ)
    → Known info db e.call
    → running_tokens e.call_id db.model_attempts ≡ pos 0
    → Books info db
    → Books info (dispatch db e groups dispatch_at now)
unfolding dispatch charge_agents audit_execution
dispatch-Books info db e groups dispatch_at now known idle b = record {
  accounts = dispatch-Accounts info db e groups dispatch_at now known b.accounts;
  named =
      All-update_where Named (is_call e.call_id) (start_call e dispatch_at now) db.model_calls
        (λ c h _. h) b.named;
  held =
      All-update_where_to (λ c. Held db.model_attempts c × Known info db c)
        (Held (db.model_attempts ++ new_attempt db e dispatch_at ∷ [])) (is_call e.call_id)
        (start_call e dispatch_at now) db.model_calls
        (λ c h hit.
          let same_call = (same_iff c.call_id e.call_id).0 hit in
          let same_reservation : c.reservation ≡ e.reservation =
            ap CallInfo.reservation (sym h.1 ∙ ap info same_call ∙ known) in
          let idle' = ap (λ x. running_tokens x db.model_attempts) same_call ∙ idle in
          rw (flying c.call_id) rw (same-sym e.call_id c.call_id) rw hit grind
            (int_laws, idle', same_reservation))
        (λ c h miss.
          rw (flying c.call_id) rw (same-sym e.call_id c.call_id) rw miss rw (h.0) grind int_laws)
        (All-both _ _ db.model_calls b.held b.accounts.calls);
}
  where
    flying :
        (call : Text)
        → running_tokens call (db.model_attempts ++ new_attempt db e dispatch_at ∷ [])
          ≡ running_tokens call db.model_attempts
            +ℤ (if same e.call_id call then e.reservation else pos 0)
    flying call = running_tokens-append call db.model_attempts (new_attempt db e dispatch_at) refl
