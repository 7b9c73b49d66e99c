-- ===== src/Prelude/Maps.antt =====
-- Go maps with integer keys as association lists, sets of numbers as lists, and heap cells by index.
use Prim.Native.Nat.{ℕ, zero, suc}
use mathlib.Core.Path.{◌≡◌, refl}
use mathlib.Core.Bool.{Bool, true, false, not, ◌&&◌, ◌||◌}
use mathlib.Core.Option.{Option, none, some}
use mathlib.Core.List.{List, [], ◌∷◌, ◌++◌}
use native.Mathlib.Omega.{arith}
use keebhub.Prelude.Tests.{◌==◌, if◌then◌else◌}
use keebhub.Prelude.Lists.{length, every}

abbrev pub mem : ℕ → List ℕ → Bool
mem p [] = false
mem p (q ∷ ps) = (q == p) || mem p ps

-- delete(set, p)
abbrev pub without : ℕ → List ℕ → List ℕ
without p [] = []
without p (q ∷ ps) = let rest = without p ps in if q == p then rest else q ∷ rest

abbrev pub distinct : List ℕ → Bool
distinct [] = true
distinct (p ∷ ps) = not (mem p ps) && distinct ps

pub mem-without : (p q : ℕ) (ps : List ℕ) → mem q (without p ps) ≡ (mem q ps && not (q == p))
mem-without p q [] = refl
mem-without p q (r ∷ ps) = ground (arith, mem-without p q ps)

pub distinct-without : (p : ℕ) (ps : List ℕ) → distinct ps ≡ true → distinct (without p ps) ≡ true
distinct-without p [] h = refl
distinct-without p (q ∷ ps) h = ground (arith, distinct-without p ps, mem-without p q ps)

pub every-without :
    (t : ℕ → Bool) (p : ℕ) (ps : List ℕ) → every t ps ≡ true → every t (without p ps) ≡ true
every-without t p [] h = refl
every-without t p (q ∷ ps) h = ground (arith, every-without t p ps)

pub every-mem :
    (t : ℕ → Bool) (p : ℕ) (ps : List ℕ) → every t ps ≡ true → mem p ps ≡ true → t p ≡ true
every-mem t p [] h k = absurd (ground arith)
every-mem t p (q ∷ ps) h k = ground (arith, every-mem t p ps)

module _ {ℓ} {A : Type ℓ} where
  abbrev pub get_elem? : List A → ℕ → Option A
  get_elem? [] i = none
  get_elem? (x ∷ xs) zero = some x
  get_elem? (x ∷ xs) (suc i) = get_elem? xs i

  abbrev pub set : List A → ℕ → A → List A
  set [] i v = []
  set (x ∷ xs) zero v = v ∷ xs
  set (x ∷ xs) (suc i) v = x ∷ set xs i v

  pub get_elem?-set :
      (xs : List A) (i j : ℕ) (u v : A)
      → get_elem? xs i ≡ some u
      → get_elem? (set xs i v) j ≡ (if i == j then some v else get_elem? xs j)
  get_elem?-set [] i j u v h = absurd (ground arith)
  get_elem?-set (x ∷ xs) zero zero u v h = refl
  get_elem?-set (x ∷ xs) zero (suc j) u v h = ground arith
  get_elem?-set (x ∷ xs) (suc i) zero u v h = ground arith
  get_elem?-set (x ∷ xs) (suc i) (suc j) u v h = ground (arith, get_elem?-set xs i j u v)

  pub get_elem?-append :
      (xs : List A) (v : A) (j : ℕ)
      → get_elem? (xs ++ v ∷ []) j ≡ (if j == length xs then some v else get_elem? xs j)
  get_elem?-append [] v zero = refl
  get_elem?-append [] v (suc j) = ground arith
  get_elem?-append (x ∷ xs) v zero = ground arith
  get_elem?-append (x ∷ xs) v (suc j) = ground (arith, get_elem?-append xs v j)

  pub get_elem?-length : (xs : List A) → get_elem? xs (length xs) ≡ none
  get_elem?-length [] = refl
  get_elem?-length (x ∷ xs) = get_elem?-length xs

module _ {ℓ} {V : Type ℓ} where
  -- m[k]
  abbrev pub find : ℕ → List (ℕ × V) → Option V
  find k [] = none
  find k ((j, v) ∷ m) = if j == k then some v else find k m

  -- m[k] = v
  abbrev pub insert : ℕ → V → List (ℕ × V) → List (ℕ × V)
  insert k v [] = (k, v) ∷ []
  insert k v ((j, w) ∷ m) = if j == k then (k, v) ∷ m else (j, w) ∷ insert k v m

  -- delete(m, k)
  abbrev pub delete : ℕ → List (ℕ × V) → List (ℕ × V)
  delete k [] = []
  delete k ((j, v) ∷ m) = let rest = delete k m in if j == k then rest else (j, v) ∷ rest

  abbrev pub has_key : ℕ → List (ℕ × V) → Bool
  has_key k [] = false
  has_key k ((j, v) ∷ m) = (j == k) || has_key k m

  abbrev pub distinct_keys : List (ℕ × V) → Bool
  distinct_keys [] = true
  distinct_keys ((j, v) ∷ m) = not (has_key j m) && distinct_keys m

  pub find-insert :
      (k j : ℕ) (v : V) (m : List (ℕ × V))
      → find j (insert k v m) ≡ (if k == j then some v else find j m)
  find-insert k j v [] = refl
  find-insert k j v ((i, w) ∷ m) = ground (arith, find-insert k j v m)

  pub find-delete :
      (k j : ℕ) (m : List (ℕ × V)) → find j (delete k m) ≡ (if k == j then none else find j m)
  find-delete k j [] = ground arith
  find-delete k j ((i, w) ∷ m) = ground (arith, find-delete k j m)

  pub has_key-insert :
      (k j : ℕ) (v : V) (m : List (ℕ × V)) → has_key j (insert k v m) ≡ ((k == j) || has_key j m)
  has_key-insert k j v [] = refl
  has_key-insert k j v ((i, w) ∷ m) = ground (arith, has_key-insert k j v m)

  pub has_key-delete :
      (k j : ℕ) (m : List (ℕ × V)) → has_key j (delete k m) ≡ (has_key j m && not (k == j))
  has_key-delete k j [] = refl
  has_key-delete k j ((i, w) ∷ m) = ground (arith, has_key-delete k j m)

  pub distinct_keys-insert :
      (k : ℕ) (v : V) (m : List (ℕ × V))
      → distinct_keys m ≡ true
      → distinct_keys (insert k v m) ≡ true
  distinct_keys-insert k v [] h = refl
  distinct_keys-insert k v ((i, w) ∷ m) h =
      ground (arith, distinct_keys-insert k v m, has_key-insert k i v m)

  pub distinct_keys-delete :
      (k : ℕ) (m : List (ℕ × V)) → distinct_keys m ≡ true → distinct_keys (delete k m) ≡ true
  distinct_keys-delete k [] h = refl
  distinct_keys-delete k ((i, w) ∷ m) h =
      ground (arith, distinct_keys-delete k m, has_key-delete k i m)
