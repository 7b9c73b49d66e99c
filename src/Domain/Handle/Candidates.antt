-- ===== src/Domain/Handle/Candidates.antt =====
-- HandleCandidate: every numbered candidate is canonical, and different numbers give different ones.
use Prim.Native.Nat.{◌^◌}
use keebhub.Prelude.{
  ℕ, zero, suc, ◌-◌, ◌<◌, ◌≡◌, ◌≢◌, refl, sym, ◌∙◌, true, false, inl, inr, [], ◌∷◌, ◌++◌, arith,
  leb, leb→le, Bool-cases, length, length-append, length-take, take, every, every-append,
  every-take, Text, byte_len, byte_prefix, trim_right,
}
use keebhub.Domain.Handle.{
  dash, is_dash, is_handle_rune, is_letter_or_digit, decimal, attempt_suffix, handle_candidate,
  is_canonical_handle, starts_with_dash, ends_with_dash,
}
use keebhub.Domain.Handle.Slugs.{
  byte_len-slug, byte_prefix-slug, ends_with_dash-append, every-trim_right, length-trim_right,
}
use keebhub.Domain.Handle.Canonical.{canonical_of_parts, parts_of_canonical}
use keebhub.Domain.Handle.Decimals.{
  is_digit, every-decimal, length-decimal_le, length-decimal_pos, decimal_injective,
}

every-digit_rune : (s : Text) → every is_digit s ≡ true → every is_handle_rune s ≡ true
unfolding is_handle_rune is_letter_or_digit
every-digit_rune [] h = refl
every-digit_rune (c ∷ s) h = ground (arith, every-digit_rune s)

ends_with_dash-digits :
    (c : ℕ) (s : Text) → every is_digit s ≡ true → 0 < length s → ends_with_dash (c ∷ s) ≡ false
ends_with_dash-digits c [] h k = absurd (omega arith)
ends_with_dash-digits c (d ∷ []) h k = ground arith
ends_with_dash-digits c (d ∷ e ∷ s) h k =
    ends_with_dash-digits d (e ∷ s) (ground arith) (omega arith)

suffix-runes : (attempt : ℕ) → every is_handle_rune (attempt_suffix attempt) ≡ true
unfolding is_handle_rune is_letter_or_digit
suffix-runes attempt = every-digit_rune (decimal attempt) (every-decimal attempt)

-- The base that a numbered candidate keeps.
abbrev kept : Text → ℕ → Text
kept base n = trim_right is_dash (take n base)

-- The base keeps its first rune, which is no dash.
kept-start :
    (base : Text) (n : ℕ) (suffix : Text)
    → starts_with_dash base ≡ false
    → 0 < length base
    → 0 < n
    → (starts_with_dash (kept base n ++ suffix) ≡ false) × (0 < length (kept base n))
unfolding trim_right
kept-start [] n suffix h k l = absurd (omega arith)
kept-start (c ∷ base) zero suffix h k l = absurd (omega arith)
kept-start (c ∷ base) (suc n) suffix h k l = ground arith

handle_candidate-numbered :
    (base : Text) (attempt : ℕ)
    → is_canonical_handle base ≡ true
    → attempt < 10 ^ 20
    → is_canonical_handle
        (kept base (40 - length (attempt_suffix attempt)) ++ attempt_suffix attempt)
      ≡ true
handle_candidate-numbered base attempt h small =
    let (runes, start, stop, low, high) = parts_of_canonical base h in
    let digits = length-decimal_le 19 attempt small in
    let some_digits = length-decimal_pos attempt in
    let n : ℕ = 40 - length (attempt_suffix attempt) in
    let (begins, nonempty) =
      kept-start base n (attempt_suffix attempt) start (omega arith) (omega arith) in
    let size = length-append (kept base n) (attempt_suffix attempt) in
    let short = length-trim_right (take n base) in
    canonical_of_parts _
      (ground (
        arith,
        every-append is_handle_rune (kept base n) (attempt_suffix attempt),
        suffix-runes attempt,
        every-trim_right is_handle_rune is_dash (take n base)
            (every-take is_handle_rune n base runes),
      ))
      begins
      (ends_with_dash-append (kept base n) dash (decimal attempt)
        ∙ ends_with_dash-digits dash (decimal attempt) (every-decimal attempt) some_digits)
      (omega arith) (omega (arith, length-take {0} n base))

-- From a canonical base every candidate is canonical, for each attempt number that fits an int.
pub handle_candidate-canonical :
    (base : Text) (attempt : ℕ)
    → is_canonical_handle base ≡ true
    → attempt < 10 ^ 20
    → is_canonical_handle (handle_candidate base attempt) ≡ true
unfolding handle_candidate
handle_candidate-canonical base attempt h small = elim (Bool-cases (leb attempt 1)) [
  | inl first ↦ rw first h
  | inr later ↦
      rw
        (
          later,
          byte_len-slug (attempt_suffix attempt) (suffix-runes attempt),
          byte_prefix-slug (40 - length (attempt_suffix attempt)) base
              (parts_of_canonical base h).0,
        )
        (handle_candidate-numbered base attempt h small)
]

after_dash :
    (xs ys d e : Text)
    → every is_digit d ≡ true
    → every is_digit e ≡ true
    → xs ++ dash ∷ d ≡ ys ++ dash ∷ e
    → d ≡ e
after_dash [] [] d e hd he p = ground arith
after_dash [] (y ∷ ys) d e hd he p = absurd (ground (arith, every-append is_digit ys (dash ∷ e)))
after_dash (x ∷ xs) [] d e hd he p = absurd (ground (arith, every-append is_digit xs (dash ∷ d)))
after_dash (x ∷ xs) (y ∷ ys) d e hd he p = after_dash xs ys d e hd he (ground arith)

handle_candidate-eq-append :
    (base : Text) (n : ℕ)
    → 1 < n
    → handle_candidate base n
      ≡ trim_right is_dash (byte_prefix (40 - byte_len (attempt_suffix n)) base) ++ attempt_suffix n
unfolding handle_candidate
handle_candidate-eq-append base n h = elim (Bool-cases (leb n 1)) [
  | inl first ↦ absurd (omega (arith, leb→le n 1 first))
  | inr later ↦ rw later
]

-- Two numbered attempts never try the same handle, even for different bases.
pub handle_candidate-distinct :
    (base base' : Text) (m n : ℕ)
    → 1 < m
    → 1 < n
    → m ≢ n
    → handle_candidate base m ≢ handle_candidate base' n
handle_candidate-distinct base base' m n hm hn differ e = differ (
    decimal_injective m n (
      after_dash _ _ (decimal m) (decimal n) (every-decimal m) (every-decimal n)
        (sym (handle_candidate-eq-append base m hm) ∙ e ∙ handle_candidate-eq-append base' n hn)))
