-- ===== src/App/Cursor.antt =====
-- The opaque page cursors. encoding/json, encoding/base64 and time are not part of the repository:
-- their round trips, as their documentation states them, are the laws of the records below.
use keebhub.Prelude.{ℕ, ◌≡◌, refl, Bool, true, false, Option, none, some, [], ◌∷◌, Text}

-- encodeCursor and decodeCursor for the payload type P: JSON in unpadded base64url. `is_blank` is
-- the test `value == ""`.
pub record Codec (P : Type 0) : Type 1 where
  pub Token : Type 0
  pub is_blank : Token → Bool
  pub encode : P → Token
  pub decode : Token → Option P
  pub decode-encode : (p : P) → decode (encode p) ≡ some p
  pub encode-is_blank : (p : P) → is_blank (encode p) ≡ false

-- Format and Parse with time.RFC3339Nano, on UTC times.
pub record Clock : Type 0 where
  pub format : ℕ → Text
  pub parse : Text → Option ℕ
  pub parse-format : (t : ℕ) → parse (format t) ≡ some t

-- Values that meet the laws.
abbrev blank : {P : Type 0} → Option P → Bool
blank none = true
blank (some p) = false

abbrev pub plain_codec : (P : Type 0) → Codec P
plain_codec P = record {
  Token = Option P;
  is_blank = blank;
  encode = some;
  decode = λ t. t;
  decode-encode = λ p. refl;
  encode-is_blank = λ p. refl;
}

abbrev one_rune : Text → Option ℕ
one_rune [] = none
one_rune (t ∷ s) = some t

abbrev pub plain_clock : Clock
plain_clock = record { format = λ t. t ∷ []; parse = one_rune; parse-format = λ t. refl }
