-- ===== src/Access/Pins.antt =====
-- Tool pins: which definitions they bind, and whether they are still authorised (state/learning.go,
-- state/registry.go, state/agent_management.go).
use microoperator.Base.{
  ℤ, le_int, eq_int, Bool, true, false, not, ◌&&◌, ◌||◌, List, [], ◌∷◌, ◌++◌, Text, text, same,
  contains, if◌then◌else◌, Result, ok, err, fail_if, ◌>>=◌, ◌>>◌, Error, field, Option, none, some,
  has_prefix, each, all, any, keep, find,
}
use microoperator.Config.{ToolConfig, SystemConfig, Configuration, lookup}
use microoperator.Store.{
  is_draft, evaluation_active, ToolPin, DraftRow, RevocationRow, ApprovalRow, EvaluationRow, Db,
}
use microoperator.Config.Names.{unique_names}
use microoperator.Config.Tools.{tool, tool_or_zero, with_local_tools, allowed_models}
use microoperator.Access.Env.{Env, Digests}

abbrev pub is_local : ToolPin → Bool
is_local pin = has_prefix pin.name (text "local.")

abbrev pub same_pin : ToolPin → ToolPin → Bool
same_pin a b = same a.name b.name && eq_int a.version b.version && same a.digest b.digest

abbrev pub approval_of : Db → Text → ToolPin → Option ApprovalRow
approval_of db system pin =
    find
      (λ (a : ApprovalRow).
        same a.system_id system && same a.tool_id pin.name && eq_int a.version pin.version)
      db.learning_approvals

-- The body of the loop of `loadLocalTools` for a local pin.
load_local_tool : Digests → Db → Text → ToolPin → Result ToolConfig
load_local_tool digests db system pin = elim (approval_of db system pin) [
  | none ↦ err (field (text "tool") (text "local revision is not approved in this system"))
  | some a ↦ do
    fail_if (not (same a.digest pin.digest))
        (field (text "tool") (text "local definition digest does not match its exact pin"))
    fail_if
        (not (same (digests.of_tool a.definition) a.digest)
          || not (eq_int a.definition.version pin.version))
        (Error.fault (text "stored approved definition is inconsistent"))
    ok a.definition
]

-- A later pin of the same name takes the place of an earlier one.
load_from :
    Digests
    → Db
    → Text
    → List (Text × ToolConfig)
    → List ToolPin
    → Result (List (Text × ToolConfig))
load_from digests db system tools [] = ok tools
load_from digests db system tools (pin ∷ pins) = elim (is_local pin) [
  | false ↦ load_from digests db system tools pins
  | true ↦ load_local_tool digests db system pin >>= λ t.
      load_from digests db system ((pin.name, t) ∷ tools) pins
]

unfoldable pub load_local_tools :
    Digests → Db → Text → List ToolPin → Result (List (Text × ToolConfig))
unfolding load_from load_local_tool
load_local_tools digests db system pins = load_from digests db system [] pins

-- The row that `authorizeLocalPin` joins: the approval of exactly this pin, its evaluation and draft.
unfoldable pub authorize_local_pin : Db → Text → ToolPin → ℤ → Result (Unit {0})
authorize_local_pin db system pin now =
    elim (find
      (λ (a : ApprovalRow).
        same a.system_id system
        && same a.tool_id pin.name
        && eq_int a.version pin.version
        && same a.digest pin.digest)
      db.learning_approvals) [
        | none ↦ err missing
        | some a ↦
            elim (find
              (λ (e : EvaluationRow).
                same e.system_id a.system_id && same e.evaluation_id a.evaluation_id)
              db.learning_evaluations) [
                | none ↦ err missing
                | some e ↦
                    elim (find
                      (λ (d : DraftRow).
                        same d.system_id a.system_id
                        && same d.tool_id a.tool_id
                        && eq_int d.version a.version)
                      db.tool_drafts) [
                        | none ↦ err missing
                        | some d ↦
                            fail_if
                              (not (evaluation_active e.state)
                                || (not (is_draft d.state) || le_int a.expires_at now))
                              (field (text "tool")
                                (text "local approval expired, was rejected, or was disabled"))
                      ]
              ]
      ]
  where
    missing : Error
    missing = field (text "tool") (text "no exact local approval")

unfoldable pub revoked : Db → Text → ToolPin → Bool
revoked db system pin =
    any
      (λ (r : RevocationRow).
        same r.system_id system && same r.name pin.name && eq_int r.version pin.version)
      db.tool_revocations

-- The body of the first loop of `authorizePins`; `cfg` has the local tools.
unfoldable pub authorize_pin : Env → Configuration → Db → Text → ToolPin → Result (Unit {0})
authorize_pin env cfg db system pin = do
  (if is_local pin then authorize_local_pin db system pin env.wall else ok tt)
  elim (tool cfg pin.name) [
    | none ↦ err (field (text "tools") (text "pinned definition is unavailable"))
    | some t ↦ do
      fail_if
          (is_local pin
            && not (same t.binary_digest [])
            && not (same t.runtime_digest cfg.runtime_digest))
          (field (text "runtime") (text "approved confinement implementation changed"))
      fail_if (not (eq_int pin.version t.version) || not (same pin.digest (env.digests.of_tool t)))
          (field (text "tools") (text "stale pinned definition"))
      fail_if (revoked db system pin) (field (text "tools") (text "pinned version was revoked"))
  ]

unfoldable pub pinned_name : List ToolPin → Text → Bool
pinned_name pins name = any (λ (pin : ToolPin). same pin.name name) pins

unfoldable pub check_required : Configuration → List ToolPin → ToolPin → Result (Unit {0})
unfolding pinned_name
check_required cfg pins pin =
    fail_if (not (all (pinned_name pins) (tool_or_zero cfg pin.name).requires_tools))
      (field (text "tools") (text "missing pinned dependency"))

unfoldable pub authorize_pins : Env → Db → Text → List ToolPin → Result (Unit {0})
unfolding check_required
authorize_pins env db system pins = do
  locals ← load_local_tools env.digests db system pins
  let cfg = with_local_tools env.cfg locals
  each (authorize_pin env cfg db system) pins
  each (check_required cfg pins) pins

-- authorizeModel
unfoldable pub authorize_model : Configuration → SystemConfig → Text → Result (Unit {0})
authorize_model cfg system name =
    fail_if
      (elim (lookup name cfg.models) [
        | none ↦ true
        | some _ ↦ not (contains (allowed_models system) name)
      ])
      (field (text "model") (text "alias is not configured and allowed by this system"))

unfoldable pub narrow_from : List ToolPin → List Text → Result (List ToolPin)
narrow_from granted [] = ok []
narrow_from granted (name ∷ names) =
    let rest = narrow_from granted names in
    elim (find (λ (pin : ToolPin). same pin.name name) granted) [
      | none ↦
          err
            (field (text "tools") (text "agent cannot expand its creator's or caller's task grant"))
      | some pin ↦ rest >>= λ pins. ok (pin ∷ pins)
    ]

-- narrowToolPins
unfoldable pub narrow_tool_pins : List ToolPin → List Text → Result (List ToolPin)
unfolding narrow_from
narrow_tool_pins granted names = do unique_names names (text "tools"); narrow_from granted names

-- The intersection that `runtime.task.delegate` gives the recipient's task (state/team_ops.go):
-- one pin for each equal pair.
unfoldable pub delegated_pins : List ToolPin → List ToolPin → List ToolPin
delegated_pins [] granted = []
delegated_pins (candidate ∷ candidates) granted =
    keep (λ grant. same_pin candidate grant) granted ++ delegated_pins candidates granted
