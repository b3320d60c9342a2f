-- ===== src/Access/Learning.antt =====
-- Protected evaluations and task uses of approved tools: ProtectedCases, readLearningDraft,
-- admitLearningUses (state/learning.go), readEvaluation and learningEligible
-- (state/learning_execution.go).
use microoperator.Base.{
  ℤ, pos, ◌-ℤ◌, lt_int, le_int, eq_int, Bool, true, false, not, ◌&&◌, ◌||◌, List, [], ◌∷◌, Text,
  text, same, length, ltb, if◌then◌else◌, Result, ok, err, fail_if, ◌>>=◌, ◌>>◌, Error, field, none,
  some, blank, any, find,
}
use microoperator.Config.{lookup_or, zero_sandbox}
use microoperator.Store.{
  system_running, system_paused, is_stopped, task_terminal, is_draft, ToolPin, SystemRow, GoalRow,
  TaskRow, DraftRow, ApprovalRow, UseRow, ProtectedCase, CheckRow, EvaluationRow, Db, update_where,
  row,
}
use microoperator.Access.Env.{Env, local_administrator}
use microoperator.Access.Read.{read_task, read_agent, Execution}
use microoperator.Access.Pins.{is_local, authorize_pins, authorize_local_pin}
use microoperator.Access.Inspect.{read_system, inspect}

-- ProtectedCases on the decoded cases.
unfoldable pub protected_cases : List ProtectedCase → Result (List ProtectedCase)
protected_cases cases = do
  fail_if (ltb (length cases) 1 || ltb 2 (length cases))
      (field (text "checks") (text "requires one or two protected cases"))
  fail_if
      (any
        (λ (c : ProtectedCase).
          blank c.input || (ltb 1024 (length c.input) || ltb 4096 (length c.expected)))
        cases)
      (field (text "checks") (text "input or expected output exceeds limit"))
  ok cases

unfoldable pub read_learning_draft : Db → Text → Text → ℤ → Result DraftRow
read_learning_draft db system id version =
    elim (find
      (λ (d : DraftRow). same d.system_id system && same d.tool_id id && eq_int d.version version)
      db.tool_drafts) [
        | none ↦ err Error.system_not_found
        | some d ↦
            fail_if (not (is_draft d.state))
              (field (text "draft") (text "candidate is rejected or disabled"))
            >>= λ _. ok d
      ]

-- LearningEvaluation (state/learning_execution.go)
pub record Evaluation : Type 0 where
  pub evaluation : EvaluationRow
  pub cases : List ProtectedCase
  pub draft : DraftRow

unfoldable pub read_evaluation : Db → Text → Text → Result Evaluation
read_evaluation db system id = do
  e ← row (
      find (λ (e : EvaluationRow). same e.system_id system && same e.evaluation_id id)
        db.learning_evaluations)
  c ← row (
      find (λ (c : CheckRow). same c.system_id e.system_id && same c.check_id e.check_id)
        db.learning_checks)
  cases ← protected_cases c.cases
  d ← read_learning_draft db system e.tool_id e.version
  ok (record { evaluation = e; cases = cases; draft = d })

abbrev bad_evaluation : Text → Error
bad_evaluation problem = field (text "evaluation") problem

unfoldable pub learning_eligible : Env → Db → Text → Evaluation → ℤ → Result (Unit {0})
learning_eligible env db system ev now = do
  found ← read_system env.digests db local_administrator system
  let r = inspect env found
  fail_if
      (not (eq_int r.system_row.revision ev.evaluation.system_revision)
        || (not (same r.grants.definitions_digest ev.evaluation.configuration_digest)
            || not (same r.blocked_reason [])))
      (bad_evaluation (text "evaluated configuration changed"))
  t ← read_task db system ev.evaluation.origin_task
  fail_if (task_terminal t.state || is_stopped t.control)
      (bad_evaluation (text "originating work stopped"))
  a ← read_agent db system t.agent_id t.agent_revision
  fail_if (is_stopped a.state) (bad_evaluation (text "originating agent stopped"))
  s ← row (find (λ (s : SystemRow). same s.system_id system) db.systems)
  g ← row (find (λ (g : GoalRow). same g.system_id system && same g.goal_id t.goal_id) db.goals)
  fail_if
      (not (system_running s.state || system_paused s.state)
        || (is_stopped g.control
            || ((lt_int (pos 0) g.deadline && le_int g.deadline now) || le_int t.deadline now)))
      (bad_evaluation (text "owning goal stopped or expired"))
  authorize_pins env db system t.tools
  let profile = lookup_or zero_sandbox a.definition.sandbox_profile env.cfg.sandbox_profiles
  fail_if
      (not (same (env.digests.of_profile profile) ev.evaluation.profile_digest)
        || not (same env.cfg.runtime_digest ev.evaluation.runtime_digest))
      (bad_evaluation (text "runtime or capability profile changed"))

unfoldable pub use_of : Text → ToolPin → Text → UseRow → Bool
use_of system pin task u =
    same u.system_id system
    && same u.tool_id pin.name
    && eq_int u.version pin.version
    && same u.task_id task

unfoldable pub names_pin : Text → ToolPin → ApprovalRow → Bool
names_pin system pin a =
    same a.system_id system && same a.tool_id pin.name && eq_int a.version pin.version

-- The body of the first loop of `admitLearningUses`, which keeps the pins whose use is new.
unfoldable pub pending_pin : Db → TaskRow → ℤ → ToolPin → Result Bool
unfolding use_of names_pin
pending_pin db t now pin = elim (is_local pin) [
  | false ↦ ok false
  | true ↦ do
    authorize_local_pin db t.system_id pin now
    elim (any (use_of t.system_id pin t.task_id) db.learning_uses) [
      | true ↦ ok false
      | false ↦ do
        a ← row (find (names_pin t.system_id pin) db.learning_approvals)
        fail_if (eq_int a.remaining_tasks (pos 0))
            (field (text "approval") (text "task-use limit exhausted"))
        ok true
    ]
]

unfoldable pub pending_pins : Db → TaskRow → ℤ → List ToolPin → Result (List ToolPin)
pending_pins db t now [] = ok []
pending_pins db t now (pin ∷ pins) =
    let rest = pending_pins db t now pins in
    pending_pin db t now pin >>= λ new. rest >>= λ more. ok (if new then pin ∷ more else more)

unfoldable pub open_approval : TaskRow → ToolPin → ApprovalRow → Bool
open_approval t pin a = names_pin t.system_id pin a && lt_int (pos 0) a.remaining_tasks

abbrev pub consumed : TaskRow → ToolPin → Db → Db
consumed t pin db = record db {
  learning_approvals =
      update_where (open_approval t pin)
        (λ (a : ApprovalRow). record a { remaining_tasks = a.remaining_tasks -ℤ pos 1 })
        db.learning_approvals;
  learning_uses =
      record {
        system_id = t.system_id;
        tool_id = pin.name;
        version = pin.version;
        task_id = t.task_id;
      }
      ∷ db.learning_uses;
}

-- The body of the second loop; a second use by one task violates the key of learning_uses.
unfoldable pub consume : TaskRow → ToolPin → Db → Result Db
consume t pin db =
    if not (any (open_approval t pin) db.learning_approvals)
    then err (Error.fault (text "approval reservation changed inside transaction"))
    else if any (use_of t.system_id pin t.task_id) db.learning_uses
    then err (Error.fault (text "UNIQUE constraint failed: learning_uses"))
    else ok (consumed t pin db)

unfoldable pub consume_all : TaskRow → List ToolPin → Db → Result Db
unfolding consume
consume_all t [] db = ok db
consume_all t (pin ∷ pins) db = consume t pin db >>= λ next. consume_all t pins next

unfoldable pub admit_learning_uses : Db → Execution → ℤ → Result Db
unfolding pending_pins pending_pin consume_all
admit_learning_uses db e now =
    elim (find (λ (t : TaskRow). same t.system_id e.system_id && same t.task_id e.task_id)
      db.tasks) [
        | none ↦ ok db
        | some t ↦ pending_pins db t now t.tools >>= λ pending. consume_all t pending db
      ]
