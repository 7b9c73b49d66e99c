-- ===== src/Prelude/Rows.antt =====
-- Tables as lists of rows in the order of their insertion: updates, orders by a numeric key, and
-- their laws.
use Prim.Native.Nat.{ℕ}
use mathlib.Core.Path.{◌≡◌, refl, ap}
use mathlib.Core.Logic.{inl, inr}
use mathlib.Core.Bool.{Bool, true, not, ◌&&◌}
use mathlib.Core.Option.{none, some}
use mathlib.Core.List.{List, [], ◌∷◌, ◌++◌, reverse, reverse-cons}
use native.Mathlib.Omega.{arith}
use keebhub.Prelude.Tests.{ltb, if◌then◌else◌, Bool-cases, is_some}
use keebhub.Prelude.Lists.{every, every-append, keep, first}

module _ {A : Type 0} where
  -- UPDATE … WHERE
  abbrev pub change : (A → Bool) → (A → A) → List A → List A
  change q f [] = []
  change q f (x ∷ xs) = (if q x then f x else x) ∷ change q f xs

  -- ORDER BY, for the order `before`
  abbrev pub insert_by : (A → A → Bool) → A → List A → List A
  insert_by before x [] = x ∷ []
  insert_by before x (y ∷ ys) =
      let rest = insert_by before x ys in if before y x then y ∷ rest else x ∷ y ∷ ys

  abbrev pub order_by : (A → A → Bool) → List A → List A
  order_by before [] = []
  order_by before (x ∷ xs) = insert_by before x (order_by before xs)

  pub every_mono :
      (p q : A → Bool) (xs : List A)
      → ((a : A) → p a ≡ true → q a ≡ true)
      → every p xs ≡ true
      → every q xs ≡ true
  every_mono p q [] h k = refl
  every_mono p q (x ∷ xs) h k = ground (arith, h x, every_mono p q xs h)

  pub every-keep : (p q : A → Bool) (xs : List A) → every p xs ≡ true → every p (keep q xs) ≡ true
  every-keep p q [] h = refl
  every-keep p q (x ∷ xs) h = ground (arith, every-keep p q xs)

  pub keep-append : (p : A → Bool) (xs ys : List A) → keep p (xs ++ ys) ≡ keep p xs ++ keep p ys
  keep-append p [] ys = refl
  keep-append p (x ∷ xs) ys = ground (arith, keep-append p xs ys)

  pub keep-keep : (p q : A → Bool) (xs : List A) → keep p (keep q xs) ≡ keep (λ a. q a && p a) xs
  keep-keep p q [] = refl
  keep-keep p q (x ∷ xs) = ground (arith, keep-keep p q xs)

  pub every-change :
      (p q : A → Bool) (f : A → A) (xs : List A)
      → ((a : A) → p a ≡ true → q a ≡ true → p (f a) ≡ true)
      → every p xs ≡ true
      → every p (change q f xs) ≡ true
  every-change p q f [] h k = refl
  every-change p q f (x ∷ xs) h k = ground (arith, h x, every-change p q f xs h)

  pub first-append :
      (p : A → Bool) (xs ys : List A) (a : A) → first p xs ≡ some a → first p (xs ++ ys) ≡ some a
  first-append p [] ys a h = absurd (ground arith)
  first-append p (x ∷ xs) ys a h = ground (arith, first-append p xs ys a)

  pub is_some-first-append :
      (p : A → Bool) (xs ys : List A)
      → is_some (first p xs) ≡ true
      → is_some (first p (xs ++ ys)) ≡ true
  is_some-first-append p [] ys h = absurd (ground arith)
  is_some-first-append p (x ∷ xs) ys h = ground (arith, is_some-first-append p xs ys)

  -- An update that a test does not see.
  pub is_some-first-change :
      (p q : A → Bool) (f : A → A) (xs : List A)
      → ((a : A) → p (f a) ≡ p a)
      → is_some (first p (change q f xs)) ≡ is_some (first p xs)
  is_some-first-change p q f [] same = refl
  is_some-first-change p q f (x ∷ xs) same =
      ground (arith, same x, is_some-first-change p q f xs same)

  pub first-change :
      (p q : A → Bool) (f : A → A) (xs : List A) (a : A)
      → ((b : A) → p (f b) ≡ p b)
      → first p xs ≡ some a
      → first p (change q f xs) ≡ some (if q a then f a else a)
  first-change p q f [] a same h = absurd (ground arith)
  first-change p q f (x ∷ xs) a same h = ground (arith, same x, first-change p q f xs a same)

  pub every-change_same :
      (p q : A → Bool) (f : A → A) (xs : List A)
      → ((a : A) → p (f a) ≡ p a)
      → every p (change q f xs) ≡ every p xs
  every-change_same p q f [] same = refl
  every-change_same p q f (x ∷ xs) same = ground (arith, same x, every-change_same p q f xs same)

  pub first-eq-none :
      (p : A → Bool) (xs : List A) → first p xs ≡ none → every (λ a. not (p a)) xs ≡ true
  first-eq-none p [] h = refl
  first-eq-none p (x ∷ xs) h = ground (arith, first-eq-none p xs)

  pub first-holds : (p : A → Bool) (xs : List A) (a : A) → first p xs ≡ some a → p a ≡ true
  first-holds p [] a h = absurd (ground arith)
  first-holds p (x ∷ xs) a h = elim (Bool-cases (p x)) [
    | inl e ↦ ground arith
    | inr e ↦ ground (arith, first-holds p xs a)
  ]

  pub every-first :
      (p q : A → Bool) (xs : List A) (a : A) → every p xs ≡ true → first q xs ≡ some a → p a ≡ true
  every-first p q [] a h k = absurd (ground arith)
  every-first p q (x ∷ xs) a h k = ground (arith, every-first p q xs a)

  pub every-reverse : (p : A → Bool) (xs : List A) → every p xs ≡ true → every p (reverse xs) ≡ true
  every-reverse p [] h = refl
  every-reverse p (x ∷ xs) h =
      rw (reverse-cons x xs)
        (ground (arith, every-append p (reverse xs) (x ∷ []), every-reverse p xs))

module _ {A : Type 0} (key : A → ℕ) where
  -- Every row has a larger key than those before it.
  abbrev pub rising : List A → Bool
  rising [] = true
  rising (x ∷ xs) = every (λ y. ltb (key x) (key y)) xs && rising xs

  abbrev pub ascending : A → A → Bool
  ascending a b = ltb (key a) (key b)

  abbrev pub descending : A → A → Bool
  descending a b = ltb (key b) (key a)

  pub rising-append :
      (xs : List A) (a : A)
      → rising xs ≡ true
      → every (λ y. ltb (key y) (key a)) xs ≡ true
      → rising (xs ++ a ∷ []) ≡ true
  rising-append [] a h k = refl
  rising-append (x ∷ xs) a h k =
      ground (arith, rising-append xs a, every-append (λ y. ltb (key x) (key y)) xs (a ∷ []))

  pub rising-keep : (p : A → Bool) (xs : List A) → rising xs ≡ true → rising (keep p xs) ≡ true
  rising-keep p [] h = refl
  rising-keep p (x ∷ xs) h =
      ground (arith, rising-keep p xs, every-keep (λ y. ltb (key x) (key y)) p xs)

  pub rising-change :
      (q : A → Bool) (f : A → A) (xs : List A)
      → ((a : A) → key (f a) ≡ key a)
      → rising (change q f xs) ≡ rising xs
  rising-change q f [] same = refl
  rising-change q f (x ∷ xs) same =
      let above =
        λ (n : ℕ). every-change_same (λ y. ltb n (key y)) q f xs (λ a. ap (ltb n) (same a)) in
      ground (arith, above (key x), above (key (f x)), same x, rising-change q f xs same)

  insert_first :
      (x : A) (ys : List A)
      → every (λ y. ltb (key x) (key y)) ys ≡ true
      → insert_by ascending x ys ≡ x ∷ ys
  insert_first x [] h = refl
  insert_first x (y ∷ ys) h = ground arith

  insert_last :
      (x : A) (ys : List A)
      → every (λ y. ltb (key x) (key y)) ys ≡ true
      → insert_by descending x ys ≡ ys ++ x ∷ []
  insert_last x [] h = refl
  insert_last x (y ∷ ys) h = ground (arith, insert_last x ys)

  -- Rows in the order of rising keys are in order already, and in the opposite order reversed.
  pub order_by-ascending : (xs : List A) → rising xs ≡ true → order_by ascending xs ≡ xs
  order_by-ascending [] h = refl
  order_by-ascending (x ∷ xs) h =
      rw (order_by-ascending xs (ground arith)) (insert_first x xs (ground arith))

  pub order_by-descending : (xs : List A) → rising xs ≡ true → order_by descending xs ≡ reverse xs
  order_by-descending [] h = refl
  order_by-descending (x ∷ xs) h =
      let above = every-reverse (λ y. ltb (key x) (key y)) xs (ground arith) in
      rw (order_by-descending xs (ground arith), reverse-cons x xs)
        (insert_last x (reverse xs) above)
