-- ===== src/Protocol/Json.antt =====
-- protocol/json.go: `ScanJSONValue` reads the tokens that encoding/json's Decoder gives. What it
-- calls a JSON value is `Json` here, with the tokens of its text.
use microoperator.Base.{
  ℕ, zero, suc, max, Bool, true, not, ◌&&◌, ◌||◌, List, [], ◌∷◌, ◌++◌, Text, text, same, contains,
  length, ltb, if◌then◌else◌, Result, ok, err, ◌>>=◌, ◌>>◌, fail_if, Error, valid_utf8, all,
}

-- A token of json.Decoder. `broken` is a syntax error in place of a token; commas and colons are no
-- tokens of their own.
pub data Token : Type 0 where
  open_object close_object open_array close_array broken : Token
  string : Text → Token
  scalar : Text → Token

-- A JSON value; `raw` is the text of a number, a Boolean or null.
mutual
  pub data Json : Type 0 where
    str : Text → Json
    raw : Text → Json
    arr : Items → Json
    obj : Members → Json

  pub data Items : Type 0 where
    nil : Items
    cons : Json → Items → Items

  pub data Members : Type 0 where
    end : Members
    member : Text → Json → Members → Members

unfoldable mutual
  pub tokens : Json → List Token
  tokens (str s) = string s ∷ []
  tokens (raw s) = scalar s ∷ []
  tokens (arr xs) = open_array ∷ item_tokens xs
  tokens (obj ms) = open_object ∷ member_tokens ms

  pub item_tokens : Items → List Token
  item_tokens nil = close_array ∷ []
  item_tokens (cons v xs) = tokens v ++ item_tokens xs

  pub member_tokens : Members → List Token
  member_tokens end = close_object ∷ []
  member_tokens (member k v ms) = string k ∷ (tokens v ++ member_tokens ms)

abbrev pub too_deep : Error
too_deep = Error.fault (text "JSON nesting limit exceeded")

abbrev invalid_key : Error
invalid_key = Error.fault (text "invalid object key")

abbrev unexpected : Error
unexpected = Error.fault (text "unexpected delimiter")

-- An error of json.Decoder: a syntax error, or the end of the input.
abbrev decoder_error : Error
decoder_error = Error.fault (text "json")

-- `lower` is strings.ToLower. The loops over members and items see from the next token whether
-- there are more; each call costs one step.
module _ (lower : Text → Text) where
  unfoldable pub key_refused : List Text → Text → Bool
  key_refused seen key = contains seen key || not (same key (lower key))

  unfoldable mutual
    unfolding key_refused

    -- ScanJSONValue: the tokens after the value.
    pub scan_value : ℕ → ℕ → List Token → Result (List Token)
    scan_value zero depth ts = err too_deep
    scan_value (suc f) depth (open_object ∷ ts) =
        let inner = scan_members f depth [] ts in if ltb 32 depth then err too_deep else inner
    scan_value (suc f) depth (open_array ∷ ts) =
        let inner = scan_items f depth ts in if ltb 32 depth then err too_deep else inner
    scan_value (suc f) depth (string s ∷ ts) = if ltb 32 depth then err too_deep else ok ts
    scan_value (suc f) depth (scalar s ∷ ts) = if ltb 32 depth then err too_deep else ok ts
    scan_value (suc f) depth (broken ∷ ts) =
        if ltb 32 depth then err too_deep else err decoder_error
    scan_value (suc f) depth [] = if ltb 32 depth then err too_deep else err decoder_error
    scan_value (suc f) depth (_ ∷ ts) = if ltb 32 depth then err too_deep else err unexpected

    pub scan_members : ℕ → ℕ → List Text → List Token → Result (List Token)
    scan_members zero depth seen ts = err too_deep
    scan_members (suc f) depth seen (close_object ∷ ts) = ok ts
    scan_members (suc f) depth seen (string key ∷ ts) =
        let rest =
          (scan_value f (suc depth) ts >>= λ after. scan_members f depth (key ∷ seen) after) in
        if key_refused seen key then err invalid_key else rest
    scan_members (suc f) depth seen (broken ∷ ts) = err decoder_error
    scan_members (suc f) depth seen [] = err decoder_error
    scan_members (suc f) depth seen (close_array ∷ ts) = err decoder_error
    scan_members (suc f) depth seen (_ ∷ ts) = err invalid_key

    pub scan_items : ℕ → ℕ → List Token → Result (List Token)
    scan_items zero depth ts = err too_deep
    scan_items (suc f) depth (close_array ∷ ts) = ok ts
    scan_items (suc f) depth (close_object ∷ ts) = err decoder_error
    scan_items (suc f) depth [] = err decoder_error
    scan_items (suc f) depth (t ∷ ts) = scan_value f (suc depth) (t ∷ ts) >>= scan_items f depth

  unfoldable pub judge : Result (List Token) → Result (Unit {0})
  judge (err _) =
      err (Error.fault (text "JSON contains invalid, duplicate, or incorrectly cased fields"))
  judge (ok []) = ok tt
  judge (ok (_ ∷ _)) = err (Error.fault (text "JSON must contain exactly one value"))

  -- The checks of `DecodeJSON` before it decodes: the length of the tokens is enough fuel.
  unfoldable pub scan_json : List Token → Result (Unit {0})
  unfolding scan_value judge
  scan_json ts = judge (scan_value (length ts) 0 ts)

  -- DecodeJSON: `lex` gives the tokens of a text and `decode` is json.Decoder.Decode into a type
  -- with unknown fields disallowed.
  unfoldable pub decode_json {ℓ} :
      {A : Type ℓ} → (Text → List Token) → (Text → Result A) → Text → Result A
  unfolding scan_json
  decode_json lex decode s = do
    fail_if (not (valid_utf8 s)) (Error.fault (text "JSON must be valid UTF-8"))
    scan_json (lex s)
    decode s

-- How many arrays and objects a value nests, at the depth of its deepest value.
unfoldable mutual
  pub nesting : Json → ℕ
  nesting (str s) = 0
  nesting (raw s) = 0
  nesting (arr xs) = item_nesting xs
  nesting (obj ms) = member_nesting ms

  pub item_nesting : Items → ℕ
  item_nesting nil = 0
  item_nesting (cons v xs) = max (suc (nesting v)) (item_nesting xs)

  pub member_nesting : Members → ℕ
  member_nesting end = 0
  member_nesting (member k v ms) = max (suc (nesting v)) (member_nesting ms)

abbrev pub names : Members → List Text
names end = []
names (member k v ms) = k ∷ names ms

unfoldable pub distinct : List Text → Bool
distinct [] = true
distinct (x ∷ xs) = not (contains xs x) && distinct xs

-- In every object no name stands twice, and each is in lower case.
module _ (lower : Text → Text) where
  abbrev pub lower_case : Text → Bool
  lower_case k = same k (lower k)

  unfoldable mutual
    pub unambiguous : Json → Bool
    unambiguous (str s) = true
    unambiguous (raw s) = true
    unambiguous (arr xs) = items_unambiguous xs
    unambiguous (obj ms) =
        (distinct (names ms) && all lower_case (names ms)) && members_unambiguous ms

    pub items_unambiguous : Items → Bool
    items_unambiguous nil = true
    items_unambiguous (cons v xs) = unambiguous v && items_unambiguous xs

    pub members_unambiguous : Members → Bool
    members_unambiguous end = true
    members_unambiguous (member k v ms) = unambiguous v && members_unambiguous ms
