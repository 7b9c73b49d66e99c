-- ===== src/App/Chat/Reversal.antt =====
-- The loop of reverseMessages.
use keebhub.Prelude.{
  ℕ, zero, suc, ◌+◌, ◌-◌, ◌≤◌, ◌<◌, ◌≡◌, refl, ap, arith, ◌&&◌, Bool-cases, Option-cases, some,
  List, [], ◌∷◌, ltb, leb, ◌==◌, if◌then◌else◌, length, inl, inr,
}
use keebhub.Prelude.Maps.{get_elem?, set, get_elem?-set}
use keebhub.App.Chat.{swap, swap_loop, reverse_messages}

module _ {A : Type 0} where
  length-set : (xs : List A) (i : ℕ) (v : A) → length (set xs i v) ≡ length xs
  length-set [] i v = refl
  length-set (x ∷ xs) zero v = refl
  length-set (x ∷ xs) (suc i) v = omega (arith, length-set xs i v)

  get_elem?-inside : (xs : List A) (i : ℕ) → i < length xs → (a : A) × (get_elem? xs i ≡ some a)
  get_elem?-inside [] i h = absurd (omega arith)
  get_elem?-inside (x ∷ xs) zero h = (x, refl)
  get_elem?-inside (x ∷ xs) (suc i) h = get_elem?-inside xs i (omega arith)

  length-swap : (left right : ℕ) (xs : List A) → length (swap left right xs) ≡ length xs
  length-swap left right xs = elim (Option-cases (get_elem? xs left)) [
    | inl e ↦ ground arith
    | inr (a, e) ↦ elim (Option-cases (get_elem? xs right)) [
      | inl p ↦ ground arith
      | inr (b, p) ↦ ground (arith, length-set (set xs left b) right a, length-set xs left b)
    ]
  ]

  get_elem?-swap :
      (left right : ℕ) (xs : List A) (i : ℕ)
      → left < right
      → right < length xs
      → get_elem? (swap left right xs) i ≡ (
          if i == left
          then get_elem? xs right
          else if i == right
          then get_elem? xs left
          else get_elem? xs i)
  get_elem?-swap left right xs i h k =
      let (a, e) = get_elem?-inside xs left (omega arith) in
      let (b, p) = get_elem?-inside xs right k in
      let q = get_elem?-set xs left right a b e in
      let at_right : get_elem? (set xs left b) right ≡ some b = ground arith in
      rw (e, p)
        (ground (
          arith,
          get_elem?-set (set xs left b) right i b a at_right,
          get_elem?-set xs left i a b e,
        ))

  length-swap_loop :
      (fuel left right : ℕ) (xs : List A) → length (swap_loop fuel left right xs) ≡ length xs
  length-swap_loop zero left right xs = refl
  length-swap_loop (suc fuel) left right xs = ground (
    arith,
    length-swap_loop fuel (left + 1) (right - 1) (swap left right xs),
    length-swap left right xs,
  )

  -- Between the two indices the loop mirrors the list, outside them it keeps it.
  get_elem?-swap_loop :
      (fuel left right : ℕ) (xs : List A) (i j : ℕ)
      → left + right + 1 ≡ length xs
      → right ≤ left + fuel
      → i + j + 1 ≡ length xs
      → get_elem? (swap_loop fuel left right xs) i
        ≡ (if leb left i && leb i right then get_elem? xs j else get_elem? xs i)
  get_elem?-swap_loop zero left right xs i j h k m = ground (arith, ap (get_elem? xs))
  get_elem?-swap_loop (suc fuel) left right xs i j h k m = elim (Bool-cases (ltb left right)) [
    | inl more ↦ ground (
      arith,
      get_elem?-swap_loop fuel (left + 1) (right - 1) (swap left right xs) i j,
      length-swap left right xs,
      get_elem?-swap left right xs i,
      get_elem?-swap left right xs j,
    )
    | inr done ↦ ground (arith, ap (get_elem? xs))
  ]

-- The messages of a page, reversed: as many as before, the one at position i being the one that
-- stood as far from the other end.
pub record IsReversal {A : Type 0} (xs ys : List A) : Type 0 where
  pub same_length : length ys ≡ length xs
  pub mirrored : (i j : ℕ) → i + j + 1 ≡ length xs → get_elem? ys i ≡ get_elem? xs j

-- The swap loop reverses every list; a number of rounds equal to the list's length is enough.
pub reverse_messages-IsReversal :
    {A : Type 0} (items : List A) → IsReversal items (reverse_messages items)
unfolding reverse_messages
reverse_messages-IsReversal items = record {
  same_length = length-swap_loop (length items) 0 (length items - 1) items;
  mirrored =
      λ i j h. ground (arith, get_elem?-swap_loop (length items) 0 (length items - 1) items i j);
}
