-- ===== src/Domain/Handle/Decimals.antt =====
-- Decimal printing: bounded, made of digits, and injective.
use Prim.Native.Nat.{◌^◌}
use native.Mathlib.Nat.{pow-suc}
use keebhub.Prelude.{
  ℕ, zero, suc, ◌+◌, ◌-◌, ◌*◌, ◌/◌, ◌%◌, ◌≤◌, ◌<◌, ◌≡◌, refl, true, [], ◌∷◌, ◌++◌, arith, leb, ◌&&◌,
  Bool, length, length-append, every, every-append, Text,
}
use keebhub.Domain.Handle.{decimal_digits, decimal}

abbrev pub is_digit : ℕ → Bool
is_digit c = leb b'0' c && leb c b'9'

-- The value that a text of digits stands for.
abbrev pub value_from : ℕ → Text → ℕ
value_from acc [] = acc
value_from acc (c ∷ s) = value_from (acc * 10 + (c - 48)) s

value_from-snoc :
    (acc : ℕ) (s : Text) (c : ℕ) → value_from acc (s ++ c ∷ []) ≡ value_from acc s * 10 + (c - 48)
value_from-snoc acc [] c = refl
value_from-snoc acc (d ∷ s) c = value_from-snoc (acc * 10 + (d - 48)) s c

value_from-decimal_digits : (fuel n : ℕ) → n < fuel → value_from 0 (decimal_digits fuel n) ≡ n
unfolding decimal_digits
value_from-decimal_digits zero n h = elim h [ ]
value_from-decimal_digits (suc fuel) n h = ground (
  arith,
  value_from-snoc 0 (decimal_digits fuel (n / 10)) (48 + n % 10),
  value_from-decimal_digits fuel (n / 10),
)

every-decimal_digits : (fuel n : ℕ) → every is_digit (decimal_digits fuel n) ≡ true
unfolding decimal_digits
every-decimal_digits zero n = refl
every-decimal_digits (suc fuel) n = ground (
  arith,
  every-append is_digit (decimal_digits fuel (n / 10)) ((48 + n % 10) ∷ []),
  every-decimal_digits fuel (n / 10),
)

pub every-decimal : (n : ℕ) → every is_digit (decimal n) ≡ true
unfolding decimal
every-decimal n = every-decimal_digits (suc n) n

pub value_from-decimal : (n : ℕ) → value_from 0 (decimal n) ≡ n
unfolding decimal
value_from-decimal n = value_from-decimal_digits (suc n) n (omega arith)

pub decimal_injective : (m n : ℕ) → decimal m ≡ decimal n → m ≡ n
decimal_injective m n e = cc (value_from-decimal m, value_from-decimal n)

length-decimal_digits_le : (k fuel n : ℕ) → n < 10 ^ suc k → length (decimal_digits fuel n) ≤ suc k
unfolding decimal_digits
length-decimal_digits_le k zero n h = omega arith
length-decimal_digits_le zero (suc fuel) n h = ground arith
length-decimal_digits_le (suc k) (suc fuel) n h = ground (
  arith,
  length-append (decimal_digits fuel (n / 10)) ((48 + n % 10) ∷ []),
  length-decimal_digits_le k fuel (n / 10) (omega (arith, pow-suc 10 (suc k))),
)

-- k digits are enough below 10^k.
pub length-decimal_le : (k n : ℕ) → n < 10 ^ suc k → length (decimal n) ≤ suc k
unfolding decimal
length-decimal_le k n h = length-decimal_digits_le k (suc n) n h

pub length-decimal_pos : (n : ℕ) → 0 < length (decimal n)
unfolding decimal decimal_digits
length-decimal_pos n =
    ground (arith, length-append (decimal_digits n (n / 10)) ((48 + n % 10) ∷ []))
