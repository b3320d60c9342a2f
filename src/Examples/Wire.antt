-- ===== src/Examples/Wire.antt =====
-- A wire that reads every message as it was written: each byte of a field is that many letters `a`
-- and a `b`, and each field ends with a `c`.
use microoperator.Base.{
  ℕ, zero, suc, ◌+◌, arith, true, false, [], ◌∷◌, ◌++◌, Text, same, length, length-append, ltb,
  ◌==◌, Result, ok, fail_if-ok, All, ascii-valid_utf8, ◌≡◌, refl, sym, ap, ◌∙◌,
}
use mathlib.Core.Path.{subst}
use microoperator.Protocol.Json.{scalar, scan_json, scan_value, judge, decode_json}
use microoperator.Protocol.Frames.{Message, Wire, check_frame, max_frame, read_message}
use microoperator.Daemon.Session.{Faithful}

-- So many letters before a text.
letters : ℕ → Text → Text
letters zero rest = rest
letters (suc n) rest = 97 ∷ letters n rest

field_text : Text → Text → Text
unfolding letters
field_text [] rest = 99 ∷ rest
field_text (n ∷ s) rest = letters n (98 ∷ field_text s rest)

unfoldable pub message_text : Message → Text → Text
unfolding field_text
message_text m rest = field_text m.type (field_text m.id (field_text m.content rest))

-- The field that a text begins with, after so many letters, and the rest.
take_field : ℕ → Text → Text × Text
take_field n [] = ([], [])
take_field n (c ∷ s) = elim (c == 97) [
  | true ↦ take_field (suc n) s
  | false ↦ elim (c == 98) [
    | true ↦ let rest = take_field 0 s in (n ∷ rest.0, rest.1)
    | false ↦ ([], s)
  ]
]

unfoldable pub parse_message : Text → Result Message
unfolding take_field
parse_message s =
    let type = take_field 0 s in
    let id = take_field 0 type.1 in
    let content = take_field 0 id.1 in ok (record { type = type.0; content = content.0; id = id.0 })

abbrev pub letter_wire : Wire
letter_wire = record {
  lower = λ s. s;
  lex = λ s. scalar s ∷ [];
  decode = parse_message;
  encode = λ m. message_text m [];
}

take_field-letters :
    (n k : ℕ) (t : Text)
    → take_field k (letters n (98 ∷ t)) ≡ ((n + k) ∷ (take_field 0 t).0, (take_field 0 t).1)
unfolding take_field letters
take_field-letters zero k t =
    let none_more : k ≡ 0 + k = omega arith in
    ap (λ (x : ℕ). (x ∷ (take_field 0 t).0, (take_field 0 t).1)) none_more
take_field-letters (suc n) k t =
    let more : n + suc k ≡ suc n + k = omega arith in
    take_field-letters n (suc k) t
    ∙ ap (λ (x : ℕ). (x ∷ (take_field 0 t).0, (take_field 0 t).1)) more

take_field-field_text : (s rest : Text) → take_field 0 (field_text s rest) ≡ (s, rest)
unfolding take_field field_text
take_field-field_text [] rest = refl
take_field-field_text (n ∷ s) rest =
    let none_more : n + 0 ≡ n = omega arith in
    take_field-letters n 0 (field_text s rest)
    ∙ ap (λ (r : Text × Text). ((n + 0) ∷ r.0, r.1)) (take_field-field_text s rest)
    ∙ ap (λ (x : ℕ). (x ∷ s, rest)) none_more

parse_message-message_text :
    (m : Message) (rest : Text) → parse_message (message_text m rest) ≡ ok m
unfolding parse_message message_text
parse_message-message_text m rest =
    let last = take_field-field_text m.content rest in
    let middle = take_field-field_text m.id (field_text m.content rest) in
    let first = take_field-field_text m.type (field_text m.id (field_text m.content rest)) in
    rw (first, middle, last) refl

letters-append : (n : ℕ) (t more : Text) → letters n t ++ more ≡ letters n (t ++ more)
unfolding letters
letters-append zero t more = refl
letters-append (suc n) t more = ap (λ x. 97 ∷ x) (letters-append n t more)

field_text-append : (s rest more : Text) → field_text s rest ++ more ≡ field_text s (rest ++ more)
unfolding field_text
field_text-append [] rest more = refl
field_text-append (n ∷ s) rest more =
    letters-append n (98 ∷ field_text s rest) more
    ∙ ap (λ x. letters n (98 ∷ x)) (field_text-append s rest more)

message_text-append : (m : Message) (more : Text) → message_text m [] ++ more ≡ message_text m more
unfolding message_text
message_text-append m more =
    field_text-append m.type (field_text m.id (field_text m.content [])) more
    ∙ ap (field_text m.type) (
        field_text-append m.id (field_text m.content []) more
        ∙ ap (field_text m.id) (field_text-append m.content [] more))

abbrev Ascii : Text → Type 0
Ascii s = All (λ b. ltb b 0x80 ≡ true) s

letters-Ascii : (n : ℕ) (t : Text) → Ascii t → Ascii (letters n t)
unfolding letters
letters-Ascii zero t h = h
letters-Ascii (suc n) t h = (refl, letters-Ascii n t h)

field_text-Ascii : (s rest : Text) → Ascii rest → Ascii (field_text s rest)
unfolding field_text
field_text-Ascii [] rest h = (refl, h)
field_text-Ascii (n ∷ s) rest h =
    letters-Ascii n (98 ∷ field_text s rest) (refl, field_text-Ascii s rest h)

message_text-Ascii : (m : Message) (rest : Text) → Ascii rest → Ascii (message_text m rest)
unfolding message_text
message_text-Ascii m rest h =
    field_text-Ascii m.type _ (field_text-Ascii m.id _ (field_text-Ascii m.content rest h))

decoded :
    (m : Message)
    → decode_json letter_wire.lower letter_wire.lex letter_wire.decode (message_text m (10 ∷ []))
      ≡ ok m
unfolding decode_json scan_json scan_value judge
decoded m =
    let s = message_text m (10 ∷ []) in
    let valid = ascii-valid_utf8 s (message_text-Ascii m (10 ∷ []) (refl, tt)) in
    rw valid (parse_message-message_text m (10 ∷ []))

read_frame :
    (m : Message) (frame : Text)
    → ltb max_frame (length frame) ≡ false
    → decode_json letter_wire.lower letter_wire.lex letter_wire.decode frame ≡ ok m
    → same m.type [] ≡ false
    → read_message letter_wire frame ≡ ok m
unfolding read_message
read_frame m frame short read typed = rw short rw read rw typed refl

pub letter_wire-Faithful : Faithful letter_wire
unfolding check_frame
letter_wire-Faithful m valid fits typed =
    let grown = message_text-append m (10 ∷ []) in
    let long : length (message_text m [] ++ 10 ∷ []) ≡ length (message_text m []) + 1 =
      length-append (message_text m []) (10 ∷ []) in
    let short = subst (λ n. ltb max_frame n ≡ false) (sym long) (fail_if-ok _ _ fits) in
    read_frame m (message_text m [] ++ 10 ∷ []) short
      (subst (λ s. decode_json letter_wire.lower letter_wire.lex letter_wire.decode s ≡ ok m)
        (sym grown) (decoded m))
      typed
