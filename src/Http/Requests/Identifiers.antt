-- ===== src/Http/Requests/Identifiers.antt =====
-- internal/adapter/httpapi/chat.go: identifiers as texts, printed by idString and parsed from paths.
use keebhub.Prelude.{
  ℕ, ◌+◌, ◌-◌, ◌*◌, ◌≤◌, ◌<◌, ◌≡◌, ◌∙◌, refl, ap, true, false, some, [], ◌∷◌, arith, every, ◌==◌,
  pos, Text, length,
}
use keebhub.Domain.Handle.{decimal}
use keebhub.Domain.Handle.Decimals.{
  is_digit, value_from, value_from-decimal, every-decimal, length-decimal_pos,
}
use keebhub.Http.Requests.{parse_digits, at_least_one, int64_bound, parse_int, parse_id, id_string}

parse_digits_lem :
    (acc : ℕ) (s : Text) → every is_digit s ≡ true → parse_digits acc s ≡ some (value_from acc s)
parse_digits_lem acc [] h = refl
parse_digits_lem acc (c ∷ s) h = ground (arith, parse_digits_lem (acc * 10 + (c - 48)) s)

parse_int_digits :
    (s : Text)
    → every is_digit s ≡ true
    → 0 < length s
    → value_from 0 s < int64_bound
    → parse_int s ≡ some (pos (value_from 0 s))
unfolding parse_int
parse_int_digits [] h k m = absurd (omega arith)
parse_int_digits (c ∷ s) h k m =
    let e = parse_digits_lem 0 (c ∷ s) h in
    let a : (c == b'-') ≡ false = ground arith in
    let b : (c == b'+') ≡ false = ground arith in rw (a, b) (rw e (ground arith))

-- The identifier that a response prints is read back from a path, if it is positive and below 2^63.
pub parse_id-id_string : (n : ℕ) → 1 ≤ n → n < int64_bound → parse_id (id_string n) ≡ some n
unfolding parse_id id_string
parse_id-id_string n h k =
    let e = value_from-decimal n in
    let p = parse_int_digits (decimal n) (every-decimal n) (length-decimal_pos n) (rw e k) in
    ap at_least_one (p ∙ ap (λ m. some (pos m)) e) ∙ ground arith
