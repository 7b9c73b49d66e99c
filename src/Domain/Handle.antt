-- ===== src/Domain/Handle.antt =====
-- Handles: NormalizeHandle and HandleCandidate of internal/domain/auth.go, IsCanonicalHandle of
-- internal/domain/profile.go.
use keebhub.Prelude.{
  ℕ, zero, suc, ◌+◌, ◌-◌, ◌/◌, ◌%◌, Bool, true, false, ◌&&◌, ◌||◌, not, List, [], ◌∷◌, ◌++◌, map,
  ltb, leb, ◌==◌, if◌then◌else◌, every, Text, codes, byte_len, byte_prefix, is_empty, trim,
  trim_right,
}
pub mod Slugs
pub mod Canonical
pub mod Decimals
pub mod Candidates

abbrev pub dash : ℕ
dash = b'-'

-- unicode.ToLower, as far as the loop below can tell: outside ASCII only U+0130 and U+212A have a
-- lower case in ASCII, and all other runes beyond ASCII count as separators in either case.
unfoldable pub to_lower : ℕ → ℕ
to_lower c =
    if leb b'A' c && leb c b'Z'
    then c + 32
    else if c == 0x130
    then b'i'
    else if c == 0x212a
    then b'k'
    else c

unfoldable pub is_letter_or_digit : ℕ → Bool
is_letter_or_digit c = (leb b'a' c && leb c b'z') || (leb b'0' c && leb c b'9')

-- One round of the loop over (normalized, previousSeparator).
unfoldable pub slug_step : Text × Bool → ℕ → Text × Bool
slug_step (normalized, previous_separator) c =
    if is_letter_or_digit c
    then (normalized ++ c ∷ [], false)
    else if not (is_empty normalized) && not previous_separator
    then (normalized ++ dash ∷ [], true)
    else (normalized, previous_separator)

unfoldable pub slug_loop : Text × Bool → Text → Text × Bool
slug_loop st [] = st
slug_loop st (c ∷ rest) = slug_loop (slug_step st c) rest

abbrev pub is_dash : ℕ → Bool
is_dash c = c == dash

unfoldable pub pad_short : Text → Text
pad_short base =
    if ltb (byte_len base) 3
    then if is_empty base then codes "user" else codes "user-" ++ base
    else base

unfoldable pub cut_long : Text → Text
cut_long base = if ltb 40 (byte_len base) then trim_right is_dash (byte_prefix 40 base) else base

unfoldable pub normalize_handle : Text → Text
unfolding slug_step slug_loop to_lower is_letter_or_digit pad_short cut_long trim
normalize_handle username =
    cut_long (pad_short (trim is_dash (slug_loop ([], false) (map to_lower username)).0))

-- fmt's %d. The fuel n is enough for the digits of n; `decimal` gives one more.
unfoldable pub decimal_digits : ℕ → ℕ → Text
decimal_digits zero n = []
decimal_digits (suc fuel) n =
    let rest = decimal_digits fuel (n / 10) in
    if ltb n 10 then (48 + n) ∷ [] else rest ++ (48 + n % 10) ∷ []

unfoldable pub decimal : ℕ → Text
unfolding decimal_digits
decimal n = decimal_digits (suc n) n

-- "-%d"
abbrev pub attempt_suffix : ℕ → Text
attempt_suffix attempt = dash ∷ decimal attempt

unfoldable pub handle_candidate : Text → ℕ → Text
unfolding decimal
handle_candidate base attempt =
    if leb attempt 1
    then base
    else trim_right is_dash (byte_prefix (40 - byte_len (attempt_suffix attempt)) base)
      ++ attempt_suffix attempt

abbrev pub starts_with_dash : Text → Bool
starts_with_dash [] = false
starts_with_dash (c ∷ s) = is_dash c

abbrev pub ends_with_dash : Text → Bool
ends_with_dash [] = false
ends_with_dash (c ∷ []) = is_dash c
ends_with_dash (c ∷ d ∷ s) = ends_with_dash (d ∷ s)

unfoldable pub is_handle_rune : ℕ → Bool
unfolding is_letter_or_digit
is_handle_rune c = is_letter_or_digit c || is_dash c

unfoldable pub is_canonical_handle : Text → Bool
unfolding is_handle_rune
is_canonical_handle value =
    not (
      ltb (byte_len value) 3
      || ltb 40 (byte_len value)
      || starts_with_dash value
      || ends_with_dash value)
    && every is_handle_rune value
