-- ===== src/Protocol/Accepts.antt =====
-- Which values pass the scan of protocol/json.go.
use microoperator.Base.{
  ◌↔◌, ℕ, zero, suc, max, sym, Bool-cases, inl, inr, ◌<◌, ◌+◌, ◌≤◌, ◌≡◌, refl, ap, ◌∙◌, Bool, true,
  false, not, ◌&&◌, List, [], ◌∷◌, ◌++◌, Text, contains, length, ltb, leb, if◌then◌else◌, Result,
  ok, err, ◌>>=◌, Error, all, arith, length-append, same-sym,
}
use mathlib.Core.Path.{subst}
use mathlib.Core.List.{append_assoc, append-nil}
use native.Mathlib.Nat.{zero-add}
use microoperator.Protocol.Json.{
  Token, Json, Items, Members, str, raw, arr, obj, nil, cons, end, member, tokens, item_tokens,
  member_tokens, scan_value, scan_members, scan_items, key_refused, scan_json, too_deep, nesting,
  item_nesting, member_nesting, names, distinct, lower_case, unambiguous, items_unambiguous,
  members_unambiguous, judge,
}

-- The scan leaves `rest` if the test holds, and fails otherwise.
abbrev Verdict : Bool → Result (List Token) → List Token → Type 0
Verdict true r rest = r ≡ ok rest
Verdict false r rest = (e : Error) × (r ≡ err e)

Verdict-bind :
    (b c : Bool) (r : Result (List Token)) (f : List Token → Result (List Token))
    (middle rest : List Token)
    → Verdict b r middle
    → Verdict c (f middle) rest
    → Verdict (b && c) (r >>= f) rest
Verdict-bind true c r f middle rest h k = rw h k
Verdict-bind false c r f middle rest h k = (h.0, rw (h.1) refl)

length-append_tokens : (xs ys : List Token) → length (xs ++ ys) ≡ length xs + length ys
length-append_tokens = length-append

ruleset lengths = (arith, length-append_tokens)

length-tokens_pos : (v : Json) → 1 ≤ length (tokens v)
unfolding tokens
length-tokens_pos (str s) = omega arith
length-tokens_pos _ = omega arith

length-items_pos : (xs : Items) → 1 ≤ length (item_tokens xs)
unfolding item_tokens
length-items_pos nil = omega arith
length-items_pos (cons v xs) = omega (lengths, length-tokens_pos v)

length-members_pos : (ms : Members) → 1 ≤ length (member_tokens ms)
unfolding member_tokens
length-members_pos end = omega arith
length-members_pos (member k v ms) = omega arith

regroup :
    (depth n m : ℕ) (b c : Bool)
    → ((leb (suc depth + n) 32 && b) && (leb (depth + m) 32 && c))
      ≡ (leb (depth + max (suc n) m) 32 && (b && c))
regroup depth n m true true = ground arith
regroup depth n m true false = ground arith
regroup depth n m false c = ground arith

regroup_members :
    (depth n m : ℕ) (b c d : Bool)
    → ((leb (suc depth + n) 32 && b) && (leb (depth + m) 32 && (c && d)))
      ≡ (leb (depth + max (suc n) m) 32 && (c && (b && d)))
regroup_members depth n m true true d = ground arith
regroup_members depth n m true false d = ground arith
regroup_members depth n m false c d = ground arith

and_false : (b : Bool) → (b && false) ≡ false
and_false true = refl
and_false false = refl

Verdict-no : (b : Bool) (e : Error) (rest : List Token) → b ≡ false → Verdict b (err e) rest
Verdict-no b e rest h = subst (λ c. Verdict c (err e) rest) (sym h) (e, refl)

-- The test of the depth before a value is read.
Verdict-guard :
    (depth : ℕ) (b : Bool) (e : Error) (r : Result (List Token)) (rest : List Token)
    → (32 < depth → b ≡ false)
    → (depth ≤ 32 → Verdict b r rest)
    → Verdict b (if ltb 32 depth then err e else r) rest
Verdict-guard depth b e r rest deep shallow = elim (Bool-cases (ltb 32 depth)) [
  | inl h ↦ rw h (Verdict-no b e rest (deep (ground arith)))
  | inr h ↦ rw h (shallow (ground arith))
]

module _ (lower : Text → Text) where
  -- The names that may still follow those that were seen.
  abbrev fresh : List Text → Members → Bool
  fresh seen end = true
  fresh seen (member k v ms) = not (key_refused lower seen k) && fresh (k ∷ seen) ms

  abbrev passes : ℕ → Json → Bool
  passes depth v = leb (depth + nesting v) 32 && unambiguous lower v

  abbrev items_pass : ℕ → Items → Bool
  items_pass depth xs = leb (depth + item_nesting xs) 32 && items_unambiguous lower xs

  abbrev members_pass : ℕ → List Text → Members → Bool
  members_pass depth seen ms =
      leb (depth + member_nesting ms) 32 && (fresh seen ms && members_unambiguous lower ms)

  unseen : List Text → List Text → Bool
  unseen seen ks = all (λ k. not (contains seen k)) ks

  unseen-cons :
      (k : Text) (seen ks : List Text)
      → unseen (k ∷ seen) ks ≡ (not (contains ks k) && unseen seen ks)
  unfolding unseen
  unseen-cons k seen [] = refl
  unseen-cons k seen (x ∷ ks) = ground (arith, unseen-cons k seen ks, same-sym k x)

  fresh-names :
      (seen : List Text) (ms : Members)
      → fresh seen ms
        ≡ (unseen seen (names ms) && (distinct (names ms) && all (lower_case lower) (names ms)))
  unfolding unseen distinct key_refused
  fresh-names seen end = refl
  fresh-names seen (member k v ms) =
      ground (arith, fresh-names (k ∷ seen) ms, unseen-cons k seen (names ms))

  unseen-nil : (ks : List Text) → unseen [] ks ≡ true
  unfolding unseen
  unseen-nil [] = refl
  unseen-nil (k ∷ ks) = unseen-nil ks

  fresh-distinct :
      (ms : Members) → fresh [] ms ≡ (distinct (names ms) && all (lower_case lower) (names ms))
  fresh-distinct ms =
      fresh-names [] ms
      ∙ ap (λ b. b && (distinct (names ms) && all (lower_case lower) (names ms)))
          (unseen-nil (names ms))

  abbrev AcceptsValue : Json → Type 0
  AcceptsValue v =
      (f depth : ℕ) (rest : List Token)
      → length (tokens v) ≤ f
      → Verdict (passes depth v) (scan_value lower f depth (tokens v ++ rest)) rest

  abbrev AcceptsItems : Items → Type 0
  AcceptsItems xs =
      (f depth : ℕ) (rest : List Token)
      → length (item_tokens xs) ≤ f
      → depth ≤ 32
      → Verdict (items_pass depth xs) (scan_items lower f depth (item_tokens xs ++ rest)) rest

  abbrev AcceptsMembers : Members → Type 0
  AcceptsMembers ms =
      (f depth : ℕ) (seen : List Text) (rest : List Token)
      → length (member_tokens ms) ≤ f
      → depth ≤ 32
      → Verdict (members_pass depth seen ms)
          (scan_members lower f depth seen (member_tokens ms ++ rest)) rest

  -- A value does not begin with a closing bracket.
  scan_items-value :
      (v : Json) (f depth : ℕ) (more : List Token)
      → scan_items lower (suc f) depth (tokens v ++ more)
        ≡ (scan_value lower f (suc depth) (tokens v ++ more) >>= scan_items lower f depth)
  unfolding scan_value tokens
  scan_items-value (str s) f depth more = refl
  scan_items-value (raw s) f depth more = refl
  scan_items-value (arr xs) f depth more = refl
  scan_items-value (obj ms) f depth more = refl

  deep_refused : (depth n : ℕ) (c : Bool) → 32 < depth → (leb (depth + n) 32 && c) ≡ false
  deep_refused depth n c h = ground arith

  AcceptsItems-cons :
      (v : Json) (xs : Items) → AcceptsValue v → AcceptsItems xs → AcceptsItems (cons v xs)
  unfolding item_tokens item_nesting items_unambiguous
  AcceptsItems-cons v xs hv hxs zero depth rest fuel shallow =
      absurd (omega (lengths, length-tokens_pos v))
  AcceptsItems-cons v xs hv hxs (suc f) depth rest fuel shallow =
      let more = item_tokens xs ++ rest in
      let both =
        Verdict-bind (passes (suc depth) v) (items_pass depth xs)
          (scan_value lower f (suc depth) (tokens v ++ more)) (scan_items lower f depth) more rest
          (hv f (suc depth) more (omega (lengths, length-items_pos xs)))
          (hxs f depth rest (omega (lengths, length-tokens_pos v)) shallow) in
      let same_test : (passes (suc depth) v && items_pass depth xs) ≡ items_pass depth (cons v xs) =
        regroup depth (nesting v) (item_nesting xs) _ _ in
      rw (append_assoc) rw (scan_items-value v f depth more) rw (← same_test) both

  AcceptsMembers-member :
      (k : Text) (v : Json) (ms : Members)
      → AcceptsValue v
      → AcceptsMembers ms
      → AcceptsMembers (member k v ms)
  unfolding member_tokens member_nesting members_unambiguous scan_members
  AcceptsMembers-member k v ms hv hms zero depth seen rest fuel shallow = absurd (omega lengths)
  AcceptsMembers-member k v ms hv hms (suc f) depth seen rest fuel shallow =
      let more = member_tokens ms ++ rest in
      let both =
        Verdict-bind (passes (suc depth) v) (members_pass depth (k ∷ seen) ms)
          (scan_value lower f (suc depth) (tokens v ++ more))
          (scan_members lower f depth (k ∷ seen)) more rest
          (hv f (suc depth) more (omega (lengths, length-members_pos ms)))
          (hms f depth (k ∷ seen) rest (omega (lengths, length-tokens_pos v)) shallow) in
      elim (Bool-cases (key_refused lower seen k)) [
        | inl refused ↦ rw refused (Verdict-no _ _ rest (and_false _))
        | inr taken ↦ rw append_assoc (
            rw taken (
              subst
                (λ b.
                  Verdict b
                    (scan_value lower f (suc depth) (tokens v ++ more)
                      >>= scan_members lower f depth (k ∷ seen))
                    rest)
                (regroup_members depth (nesting v) (member_nesting ms) _ _ _) both))
      ]

  AcceptsValue-leaf :
      (depth : ℕ) (rest : List Token)
      → Verdict (leb (depth + 0) 32 && true) (if ltb 32 depth then err too_deep else ok rest) rest
  AcceptsValue-leaf depth rest =
      Verdict-guard depth _ too_deep (ok rest) rest (deep_refused depth 0 true)
        (λ h. let fits : (leb (depth + 0) 32 && true) ≡ true = ground arith in rw fits refl)

  AcceptsValue-str : (s : Text) → AcceptsValue (str s)
  unfolding scan_value tokens nesting unambiguous
  AcceptsValue-str s zero depth rest fuel = absurd (omega arith)
  AcceptsValue-str s (suc f) depth rest fuel = AcceptsValue-leaf depth rest

  AcceptsValue-raw : (s : Text) → AcceptsValue (raw s)
  unfolding scan_value tokens nesting unambiguous
  AcceptsValue-raw s zero depth rest fuel = absurd (omega arith)
  AcceptsValue-raw s (suc f) depth rest fuel = AcceptsValue-leaf depth rest

  within : (depth : ℕ) → depth ≤ 32 → (leb (depth + 0) 32 && true) ≡ true
  within depth h = ground arith

  AcceptsItems-nil : AcceptsItems nil
  unfolding item_tokens item_nesting items_unambiguous scan_items
  AcceptsItems-nil zero depth rest fuel shallow = absurd (omega arith)
  AcceptsItems-nil (suc f) depth rest fuel shallow = rw (within depth shallow) refl

  AcceptsMembers-end : AcceptsMembers end
  unfolding member_tokens member_nesting members_unambiguous scan_members
  AcceptsMembers-end zero depth seen rest fuel shallow = absurd (omega arith)
  AcceptsMembers-end (suc f) depth seen rest fuel shallow = rw (within depth shallow) refl

  AcceptsValue-arr : (xs : Items) → AcceptsItems xs → AcceptsValue (arr xs)
  unfolding scan_value tokens nesting unambiguous
  AcceptsValue-arr xs ih zero depth rest fuel = absurd (omega arith)
  AcceptsValue-arr xs ih (suc f) depth rest fuel =
      Verdict-guard depth (items_pass depth xs) too_deep _ rest
        (deep_refused depth (item_nesting xs) _) (ih f depth rest (omega arith))

  AcceptsValue-obj : (ms : Members) → AcceptsMembers ms → AcceptsValue (obj ms)
  unfolding scan_value tokens nesting unambiguous
  AcceptsValue-obj ms ih zero depth rest fuel = absurd (omega arith)
  AcceptsValue-obj ms ih (suc f) depth rest fuel = rw (← fresh-distinct ms) (
      Verdict-guard depth (members_pass depth [] ms) too_deep _ rest
        (deep_refused depth (member_nesting ms) _) (ih f depth [] rest (omega arith)))

  AcceptsValue-all : (v : Json) → AcceptsValue v
  unfolding scan_value tokens nesting unambiguous
  AcceptsValue-all v = elim v as AcceptsValue AcceptsItems AcceptsMembers [
    | str s ↦ AcceptsValue-str s
    | raw s ↦ AcceptsValue-raw s
    | arr (xs → ih) ↦ AcceptsValue-arr xs ih
    | obj (ms → ih) ↦ AcceptsValue-obj ms ih
    | nil ↦ AcceptsItems-nil
    | cons (w → ih) (xs → ihs) ↦ AcceptsItems-cons w xs ih ihs
    | end ↦ AcceptsMembers-end
    | member k (w → ih) (ms → ihs) ↦ AcceptsMembers-member k w ms ih ihs
  ]

  judge-Verdict :
      (b : Bool) (r : Result (List Token)) → Verdict b r [] → (judge lower r ≡ ok tt) ↔ (b ≡ true)
  unfolding judge
  judge-Verdict true r h = ((λ _. refl), λ _. rw h refl)
  judge-Verdict false r h = ((λ k. cc (h.1)), λ k. cc)

  -- A text of one value with these tokens passes the scan exactly if arrays and objects nest at most
  -- 32 deep in it, and in every object the names are distinct and in lower case.
  pub scan_json-tokens :
      (v : Json)
      → (scan_json lower (tokens v) ≡ ok tt) ↔ ((leb (nesting v) 32 && unambiguous lower v) ≡ true)
  unfolding scan_json
  scan_json-tokens v =
      let verdict = AcceptsValue-all v (length (tokens v)) 0 [] (omega arith) in
      judge-Verdict (leb (nesting v) 32 && unambiguous lower v) _
        (rw (append-nil, zero-add) at verdict)
