-- ===== src/Access/Grants.antt =====
-- What the checks of tool pins guarantee: narrowToolPins, the pins of a delegated task, and
-- authorizePins (state/registry.go, state/team_ops.go, state/learning.go).
use microoperator.Base.{
  Bool-cases, ◌⊎◌, not-not, eq_int, true, false, not, ◌&&◌, ◌||◌, List, [], ◌∷◌, map, Text, text,
  same, if◌then◌else◌, Result, ok, Option, none, some, each, all, any, keep, find, ◌≡◌,
}
use microoperator.Config.{ToolConfig, Configuration, zero_tool}
use microoperator.Store.{ToolPin, Db}
use microoperator.Base.{
  if-true, fail_if-ok, All-both, inl, inr, All, All-append, All-map, >>=-eq-ok, ok-injective,
  fail_if-then, Option-cases, ||_split, same_iff, ap, sym, ◌∙◌,
}
use mathlib.Core.Path.{subst}
use microoperator.Store.{All-keep, All-find}
use microoperator.Config.Names.{unique_names}
use microoperator.Config.Tools.{tool, tool_or_zero, with_local_tools}
use microoperator.Access.Env.{Env}
use microoperator.Access.Pins.{
  is_local, same_pin, narrow_from, narrow_tool_pins, delegated_pins, authorize_pins, authorize_pin,
  authorize_local_pin, check_required, pinned_name, revoked, load_local_tools,
}

narrow_from-grants :
    (P : ToolPin → Type 0) (granted : List ToolPin) (names : List Text) {pins : List ToolPin}
    → All P granted
    → narrow_from granted names ≡ ok pins
    → All P pins × (map ToolPin.name pins ≡ names)
unfolding narrow_from
narrow_from-grants P granted [] {pins} h done =
    let none_asked = ok-injective done in
    (subst (All P) none_asked tt, ap (map ToolPin.name) (sym none_asked))
narrow_from-grants P granted (name ∷ names) {pins} h done =
    elim (Option-cases (find (λ (pin : ToolPin). same pin.name name) granted)) [
      | inl missing ↦ let failed = rw (narrow_from, missing) at done in cc
      | inr (pin, hit) ↦
          let rest = >>=-eq-ok (narrow_from granted names) _ (rw (narrow_from, hit) at done) in
          let all_rest = narrow_from-grants P granted names h rest.1 in
          let facts = All-find P (λ (pin : ToolPin). same pin.name name) granted h hit in
          let made = ok-injective rest.2 in
          (
            subst (All P) made (facts.0, all_rest.0),
            ap (map ToolPin.name) (sym made)
                ∙ (ap (λ x. x ∷ map ToolPin.name rest.0) ((same_iff pin.name name).0 facts.1)
                    ∙ ap (λ x. name ∷ x) all_rest.1),
          )
    ]

-- When `narrowToolPins` succeeds, its pins are those of the names asked for, in their order, and
-- each is one of the granted pins: what holds of every granted pin holds of every pin of the result.
pub narrow_tool_pins-grants :
    (P : ToolPin → Type 0) (granted : List ToolPin) (names : List Text) {pins : List ToolPin}
    → All P granted
    → narrow_tool_pins granted names ≡ ok pins
    → All P pins × (map ToolPin.name pins ≡ names)
unfolding narrow_tool_pins
narrow_tool_pins-grants P granted names h done =
    let checked = >>=-eq-ok (unique_names names (text "tools")) _ done in
    narrow_from-grants P granted names h checked.2

-- The pins of a delegated task are pins of the delegating task, and each equals, in name, version
-- and digest, a pin of the recipient: what holds of every pin of either list, where equal pins share
-- it, holds of every pin delegated.
pub delegated_pins-both :
    (P Q : ToolPin → Type 0) (candidates granted : List ToolPin)
    → ((a b : ToolPin) → same_pin a b ≡ true → P a → P b)
    → All P candidates
    → All Q granted
    → All (λ pin. P pin × Q pin) (delegated_pins candidates granted)
unfolding delegated_pins
delegated_pins-both P Q [] granted move h k = tt
delegated_pins-both P Q (c ∷ candidates) granted move h k =
    All-append (λ pin. P pin × Q pin) (keep (same_pin c) granted)
      (delegated_pins candidates granted)
      (All-map _ _ (keep (same_pin c) granted) (λ pin facts. (move c pin facts.1 h.0, facts.0))
        (All-keep Q (same_pin c) granted k))
      (delegated_pins-both P Q candidates granted move h.1 k)

each-All {ℓ κ} :
    {A : Type ℓ} (P : A → Type κ) (f : A → Result (Unit {0})) (xs : List A)
    → ((x : A) → f x ≡ ok tt → P x)
    → each f xs ≡ ok tt
    → All P xs
each-All P f [] k h = tt
each-All P f (x ∷ xs) k h =
    let step = >>=-eq-ok (f x) (λ _. each f xs) h in (k x step.1, each-All P f xs k step.2)

-- A pin that still binds what it was granted for.
pub record Current (env : Env) (cfg : Configuration) (db : Db) (system : Text) (pins : List ToolPin)
    (pin : ToolPin) : Type 0 where
  pub bound : ToolConfig
  pub available : tool cfg pin.name ≡ some bound
  pub version : eq_int pin.version bound.version ≡ true
  pub digest : same pin.digest (env.digests.of_tool bound) ≡ true
  pub approved : (is_local pin ≡ false) ⊎ (authorize_local_pin db system pin env.wall ≡ ok tt)
  pub unrevoked : revoked db system pin ≡ false
  pub dependencies :
      all (λ name. any (λ (p : ToolPin). same p.name name) pins) bound.requires_tools ≡ true

tool_or_zero-some :
    (cfg : Configuration) (name : Text) {t : ToolConfig}
    → tool cfg name ≡ some t
    → tool_or_zero cfg name ≡ t
tool_or_zero-some cfg name {t} h =
    ap (λ (o : Option ToolConfig). elim o as (λ _. ToolConfig) [ none ↦ zero_tool | some v ↦ v ]) h

pin-Current :
    (env : Env) (cfg : Configuration) (db : Db) (system : Text) (pins : List ToolPin)
    (pin : ToolPin)
    → authorize_pin env cfg db system pin ≡ ok tt
    → check_required cfg pins pin ≡ ok tt
    → Current env cfg db system pins pin
unfolding authorize_pin check_required pinned_name
pin-Current env cfg db system pins pin done required =
    let locally =
      >>=-eq-ok (if is_local pin then authorize_local_pin db system pin env.wall else ok tt) _
        done in
    elim (Option-cases (tool cfg pin.name)) [
      | inl gone ↦ let failed = rw gone at locally.2 in cc
      | inr (t, hit) ↦
          let opened = rw hit at locally.2 in
          let changed =
            is_local pin
            && not (same t.binary_digest [])
            && not (same t.runtime_digest cfg.runtime_digest) in
          let stale =
            not (eq_int pin.version t.version) || not (same pin.digest (env.digests.of_tool t)) in
          let confined = fail_if-then changed _ _ opened in
          let fresh = fail_if-then stale _ _ confined.1 in
          let exact =
            ||_split (not (eq_int pin.version t.version))
              (not (same pin.digest (env.digests.of_tool t))) fresh.0 in
          record {
            bound = t;
            available = hit;
            version = not-not (eq_int pin.version t.version) exact.0;
            digest = not-not (same pin.digest (env.digests.of_tool t)) exact.1;
            approved = approval locally.1;
            unrevoked = fail_if-ok (revoked db system pin) _ fresh.1;
            dependencies =
                subst (λ (x : ToolConfig). all (pinned_name pins) x.requires_tools ≡ true)
                  (tool_or_zero-some cfg pin.name hit)
                  (not-not
                    (all (pinned_name pins) (ToolConfig.requires_tools (tool_or_zero cfg pin.name)))
                    (fail_if-ok _ _ required));
          }
    ]
  where
    approval :
        (if is_local pin then authorize_local_pin db system pin env.wall else ok tt) ≡ ok tt
        → (is_local pin ≡ false) ⊎ (authorize_local_pin db system pin env.wall ≡ ok tt)
    approval h = elim (Bool-cases (is_local pin)) [
      | inr foreign ↦ inl foreign
      | inl local ↦ inr (sym (if-true (is_local pin) _ _ local) ∙ h)
    ]

-- When `authorizePins` succeeds, every pin still binds what it was granted for: the definition of
-- its name, local tools that the system approved included, has the pinned version and digest; the
-- pinned version is not revoked for the system; a local pin has an active approval that has not
-- expired; and each dependency of the definition is itself the name of one of the pins.
pub authorize_pins-Current :
    (env : Env) (db : Db) (system : Text) (pins : List ToolPin)
    → authorize_pins env db system pins ≡ ok tt
    → (locals : List (Text × ToolConfig)) × (load_local_tools env.digests db system pins
        ≡ ok locals)
      × All (Current env (with_local_tools env.cfg locals) db system pins) pins
unfolding authorize_pins
authorize_pins-Current env db system pins done =
    let locals = >>=-eq-ok (load_local_tools env.digests db system pins) _ done in
    let cfg = with_local_tools env.cfg locals.0 in
    let checked = >>=-eq-ok (each (authorize_pin env cfg db system) pins) _ locals.2 in
    let first =
      each-All (λ pin. authorize_pin env cfg db system pin ≡ ok tt)
        (authorize_pin env cfg db system) pins (λ pin h. h) checked.1 in
    let second =
      each-All (λ pin. check_required cfg pins pin ≡ ok tt) (check_required cfg pins) pins
        (λ pin h. h) checked.2 in
    (
      locals.0,
      locals.1,
      All-map _ _ pins (λ pin facts. pin-Current env cfg db system pins pin facts.0 facts.1)
          (All-both _ _ pins first second),
    )
