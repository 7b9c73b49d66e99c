-- ===== src/Prelude/Trimming.antt =====
-- What trimming leaves: no rune of the cut set at either end, and a second trim changes nothing.
use Prim.Native.Nat.{ℕ}
use mathlib.Core.Path.{◌≡◌, refl}
use mathlib.Core.Bool.{Bool, false, ◌&&◌}
use mathlib.Core.List.{[], ◌∷◌}
use native.Mathlib.Omega.{arith}
use keebhub.Prelude.Tests.{if◌then◌else◌}
use keebhub.Prelude.Strings.{Text, is_empty, is_space, trim_left, trim_right, trim, trim_space}

module _ (p : ℕ → Bool) where
  abbrev pub starts_in : Text → Bool
  starts_in [] = false
  starts_in (c ∷ s) = p c

  abbrev pub ends_in : Text → Bool
  ends_in [] = false
  ends_in (c ∷ []) = p c
  ends_in (c ∷ d ∷ s) = ends_in (d ∷ s)

  starts_in-trim_left : (s : Text) → starts_in (trim_left p s) ≡ false
  unfolding trim_left
  starts_in-trim_left [] = refl
  starts_in-trim_left (c ∷ s) = ground (arith, starts_in-trim_left s)

  starts_in-trim_right : (s : Text) → starts_in s ≡ false → starts_in (trim_right p s) ≡ false
  unfolding trim_right
  starts_in-trim_right [] h = refl
  starts_in-trim_right (c ∷ s) h = ground arith

  ends_in-trim_right : (s : Text) → ends_in (trim_right p s) ≡ false
  unfolding trim_right
  ends_in-trim_right [] = refl
  ends_in-trim_right (c ∷ s) = step (trim_right p s) (ends_in-trim_right s)
    where
      step :
          (t : Text) → ends_in t ≡ false → ends_in (if p c && is_empty t then [] else c ∷ t) ≡ false
      step [] h = ground arith
      step (d ∷ t) h = ground arith

  trim_left_self : (s : Text) → starts_in s ≡ false → trim_left p s ≡ s
  unfolding trim_left
  trim_left_self [] h = refl
  trim_left_self (c ∷ s) h = ground arith

  trim_right_self : (s : Text) → ends_in s ≡ false → trim_right p s ≡ s
  unfolding trim_right
  trim_right_self [] h = refl
  trim_right_self (c ∷ []) h = ground arith
  trim_right_self (c ∷ d ∷ s) h = ground (arith, trim_right_self (d ∷ s))

  pub trim_ends : (s : Text) → (starts_in (trim p s) ≡ false) × (ends_in (trim p s) ≡ false)
  unfolding trim
  trim_ends s = (
    starts_in-trim_right (trim_left p s) (starts_in-trim_left s),
    ends_in-trim_right (trim_left p s),
  )

  pub trim_self : (s : Text) → starts_in s ≡ false → ends_in s ≡ false → trim p s ≡ s
  unfolding trim
  trim_self s h k = rw (trim_left_self s h) (trim_right_self s k)

-- TrimSpace leaves a text with no space at either end, and such a text alone.
pub trim_space-trim_space : (s : Text) → trim_space (trim_space s) ≡ trim_space s
unfolding trim_space
trim_space-trim_space s =
    let (h, k) = trim_ends is_space s in trim_self is_space (trim is_space s) h k
