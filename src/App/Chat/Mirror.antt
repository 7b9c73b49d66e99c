-- ===== src/App/Chat/Mirror.antt =====
-- The loop of reverseMessages as the library's reversal of a list.
use keebhub.Prelude.{
  ℕ, zero, suc, ◌+◌, ◌-◌, ◌<◌, ◌≡◌, ◌∙◌, refl, sym, subst, arith, List, [], ◌∷◌, ◌++◌, ltb, length,
  length-append, if◌then◌else◌,
}
use mathlib.Core.List.{reverse, reverse-cons}
use keebhub.Prelude.Maps.{get_elem?}
use keebhub.App.Chat.{reverse_messages}
use keebhub.App.Chat.Reversal.{reverse_messages-IsReversal}

module _ {A : Type 0} where
  get_elem?-append :
      (xs : List A) (x : A) (i : ℕ)
      → get_elem? (xs ++ x ∷ []) i
        ≡ (if ltb i (length xs) then get_elem? xs i else get_elem? (x ∷ []) (i - length xs))
  get_elem?-append [] x zero = refl
  get_elem?-append [] x (suc i) = ground arith
  get_elem?-append (y ∷ xs) x zero = ground arith
  get_elem?-append (y ∷ xs) x (suc i) = ground (arith, get_elem?-append xs x i)

  pub length-reverse : (xs : List A) → length (reverse xs) ≡ length xs
  length-reverse [] = refl
  length-reverse (x ∷ xs) =
      rw (reverse-cons x xs) (omega (arith, length-append (reverse xs) (x ∷ []), length-reverse xs))

  get_elem?-reverse :
      (xs : List A) (i j : ℕ) → i + j + 1 ≡ length xs → get_elem? (reverse xs) i ≡ get_elem? xs j
  get_elem?-reverse [] i j h = absurd (omega arith)
  get_elem?-reverse (x ∷ xs) i zero h =
      rw (reverse-cons x xs, get_elem?-append (reverse xs) x i) (ground (arith, length-reverse xs))
  get_elem?-reverse (x ∷ xs) i (suc j) h =
      rw (reverse-cons x xs, get_elem?-append (reverse xs) x i)
        (ground (arith, length-reverse xs, get_elem?-reverse xs i j))

  -- Lists are equal if they have the same length and the same elements.
  same_elements :
      (xs ys : List A)
      → length ys ≡ length xs
      → ((i : ℕ) → i < length xs → get_elem? ys i ≡ get_elem? xs i)
      → ys ≡ xs
  same_elements [] [] h same = refl
  same_elements [] (y ∷ ys) h same = absurd (omega arith)
  same_elements (x ∷ xs) [] h same = absurd (omega arith)
  same_elements (x ∷ xs) (y ∷ ys) h same =
      ground (arith, same 0, same_elements xs ys (omega arith) (λ i k. same (suc i) (omega arith)))

  pub reverse_messages_lem : (xs : List A) → reverse_messages xs ≡ reverse xs
  reverse_messages_lem xs =
      let r = reverse_messages-IsReversal xs in
      let n = length xs in
      same_elements (reverse xs) (reverse_messages xs) (r.same_length ∙ sym (length-reverse xs))
        (λ i h.
          let lt = subst (λ k. i < k) (length-reverse xs) h in
          r.mirrored i (n - i - 1) (omega arith)
          ∙ sym (get_elem?-reverse xs i (n - i - 1) (omega arith)))
