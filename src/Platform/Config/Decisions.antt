-- ===== src/Platform/Config/Decisions.antt =====
-- internal/platform/config/config.go: the checks of Validate and the properties they decide.
use keebhub.Prelude.{
  ◌≤◌, ◌≡◌, ◌≢◌, ◌↔◌, ◌⊎◌, inl, inr, refl, subst, Bool, true, false, not, ◌&&◌, ◌||◌, Option, none,
  some, [], ◌∷◌, arith, if◌then◌else◌, String, ℤ, pos, negsuc, ltb_ℤ, pos_part, neg_part, Text,
  is_empty,
}
use keebhub.Domain.Errors.{Error}
use keebhub.Platform.Config.{Url, fail_if, ◌<|>◌, differ}
use keebhub.Platform.Config.Checks.{◌&◌, IsPositive}

-- A check and the property that it tests for.
pub fail_if_iff :
    {P : Type 0} (b : Bool) (message : String) → (b ≡ false) ↔ P → (fail_if b message ≡ none) ↔ P
fail_if_iff true message (f, g) = (λ h. absurd (ground arith), λ p. absurd (ground (arith, g p)))
fail_if_iff false message (f, g) = (λ h. f refl, λ p. refl)

pub both_iff :
    {P Q : Type 0} (a b : Option Error)
    → (a ≡ none) ↔ P
    → (b ≡ none) ↔ Q
    → ((a <|> b) ≡ none) ↔ (P × Q)
both_iff none b (f, g) (f', g') = (λ h. (f refl, f' h), λ (p, q). g' q)
both_iff (some e) b (f, g) (f', g') =
    (λ h. absurd (ground arith), λ (p, q). absurd (ground (arith, g p)))

infixr 5 ◌and_iff◌
pub ◌and_iff◌ :
    {P Q : Type 0} {a b : Option Error}
    → (a ≡ none) ↔ P
    → (b ≡ none) ↔ Q
    → ((a <|> b) ≡ none) ↔ (P × Q)
p and_iff q = both_iff _ _ p q

-- A check of a parser's answer.
pub present_iff :
    (P : Url → Type 0) (u : Url) {o : Option Error}
    → (o ≡ none) ↔ P u
    → (o ≡ none) ↔ ((v : Url) × ((some u ≡ some v) & P v))
present_iff P u (f, g) =
    (λ h. (u, (refl, f h)), λ p. let (v, (e, q)) = p in let e' : v ≡ u = cc e in g (subst P e' q))

-- The second property may use the first.
pub both_given_iff :
    {P Q : Type 0} (a b : Option Error)
    → (a ≡ none) ↔ P
    → (P → ((b ≡ none) ↔ Q))
    → ((a <|> b) ≡ none) ↔ (P × Q)
both_given_iff none b (f, g) k = (λ h. (f refl, (k (f refl)).0 h), λ (p, q). (k p).1 q)
both_given_iff (some e) b (f, g) k =
    (λ h. absurd (ground arith), λ (p, q). absurd (ground (arith, g p)))

-- Tests on Booleans and the properties that they decide.
pub or_iff :
    {P Q : Type 0} (a b : Bool) → (a ≡ false) ↔ P → (b ≡ false) ↔ Q → ((a || b) ≡ false) ↔ (P × Q)
or_iff true b (f, g) (f', g') = (λ h. absurd (ground arith), λ (p, q). absurd (ground (arith, g p)))
or_iff false b (f, g) (f', g') = (λ h. (f refl, f' h), λ (p, q). g' q)

pub not_iff : {P : Type 0} (b : Bool) → (b ≡ true) ↔ P → (not b ≡ false) ↔ P
not_iff true (f, g) = (λ h. f refl, λ p. refl)
not_iff false (f, g) = (λ h. absurd (ground arith), λ p. absurd (ground (arith, g p)))

pub either_iff :
    {P Q : Type 0} (a b : Bool)
    → (a ≡ true) ↔ P
    → (b ≡ false) ↔ Q
    → ((not a && b) ≡ false) ↔ (P ⊎ Q)
either_iff true b (f, g) q = (λ h. inl (f refl), λ p. refl)
either_iff false b (f, g) (f', g') =
    (λ h. inr (f' h), λ s. elim s [ inl p ↦ absurd (ground (arith, g p)) | inr q ↦ g' q ])

pub any_iff :
    {P Q : Type 0} (a b : Bool) → (a ≡ true) ↔ P → (b ≡ true) ↔ Q → ((a || b) ≡ true) ↔ (P ⊎ Q)
any_iff true b (f, g) q = (λ h. inl (f refl), λ p. refl)
any_iff false b (f, g) (f', g') =
    (λ h. inr (f' h), λ s. elim s [ inl p ↦ absurd (ground (arith, g p)) | inr q ↦ g' q ])

pub implies_iff :
    {P Q : Type 0} (a b : Bool) → (a ≡ true) ↔ P → (b ≡ true) ↔ Q → ((a && not b) ≡ false) ↔ (P → Q)
implies_iff true b (f, g) (f', g') =
    (λ h p. f' (ground arith), λ k. let e = g' (k (f refl)) in ground arith)
implies_iff false b (f, g) q = (λ h p. absurd (ground (arith, g p)), λ k. refl)

pub all_iff :
    {P Q : Type 0} (a b : Bool) → (a ≡ true) ↔ P → (b ≡ true) ↔ Q → ((a && b) ≡ true) ↔ (P × Q)
all_iff true b (f, g) (f', g') = (λ h. (f refl, f' h), λ (p, q). g' q)
all_iff false b (f, g) q = (λ h. absurd (ground arith), λ (p, q'). absurd (ground (arith, g p)))

pub is_empty_iff : (s : Text) → (is_empty s ≡ true) ↔ (s ≡ [])
is_empty_iff [] = ground arith
is_empty_iff (c ∷ s) = ground arith

pub is_empty-nonempty_iff : (s : Text) → (is_empty s ≡ false) ↔ (s ≢ [])
is_empty-nonempty_iff [] = (λ h. absurd (ground arith), λ k. absurd (k refl))
is_empty-nonempty_iff (c ∷ s) = (λ h e. ground arith, λ k. refl)

pub not_empty_iff : (s : Text) → (not (is_empty s) ≡ true) ↔ (s ≢ [])
not_empty_iff [] = (λ h. absurd (ground arith), λ k. absurd (k refl))
not_empty_iff (c ∷ s) = (λ h e. ground arith, λ k. refl)

pub IsPositive-iff : (a : ℤ) → (not (ltb_ℤ (pos 0) a) ≡ false) ↔ IsPositive a
IsPositive-iff (pos n) = ground arith
IsPositive-iff (negsuc n) = ground arith

pub nonnegative_iff : (a : ℤ) → (ltb_ℤ a (pos 0) ≡ false) ↔ (neg_part a ≡ 0)
nonnegative_iff (pos n) = ground arith
nonnegative_iff (negsuc n) = ground arith

pub ordered_iff :
    (low high : ℤ)
    → neg_part low ≡ 0
    → IsPositive high
    → (ltb_ℤ high low ≡ false) ↔ (pos_part low ≤ pos_part high)
ordered_iff (pos a) (pos b) h k = ground arith
ordered_iff (pos a) (negsuc b) h k = ground arith
ordered_iff (negsuc a) high h k = absurd (omega arith)

pub differ_iff :
    {P Q : Type 0} (a b : Bool) → (a ≡ false) ↔ P → (b ≡ false) ↔ Q → (differ a b ≡ false) ↔ (P ↔ Q)
differ_iff true true (f, g) (f', g') =
    (λ h. (λ p. absurd (ground (arith, g p)), λ q. absurd (ground (arith, g' q))), λ k. refl)
differ_iff true false (f, g) (f', g') =
    (λ h. absurd (ground arith), λ (k, l). let e = g (l (f' refl)) in ground arith)
differ_iff false true (f, g) (f', g') =
    (λ h. absurd (ground arith), λ (k, l). let e = g' (k (f refl)) in ground arith)
differ_iff false false (f, g) (f', g') = (λ h. (λ p. f' refl, λ q. f refl), λ k. refl)

pub not_empty_false_iff : (s : Text) → (not (is_empty s) ≡ false) ↔ (s ≡ [])
not_empty_false_iff [] = ground arith
not_empty_false_iff (c ∷ s) = ground arith

pub is_true_iff : (b : Bool) → (b ≡ true) ↔ (b ≡ true)
is_true_iff b = (λ h. h, λ h. h)

pub is_false_iff : (b : Bool) → (b ≡ false) ↔ (b ≡ false)
is_false_iff b = (λ h. h, λ h. h)

-- Neither of two settings, or the second one with what it must satisfy.
pub absent_or_iff :
    {R : Type 0} (i r : Text) (message : String) (rest : Option Error)
    → (rest ≡ none) ↔ R
    → ((if is_empty i && is_empty r
          then none
          else fail_if (not (is_empty i) && is_empty r) message <|> rest)
        ≡ none)
      ↔ (((i ≡ []) × (r ≡ [])) ⊎ ((r ≢ []) × R))
absent_or_iff [] [] message rest q = (λ h. inl (refl, refl), λ s. refl)
absent_or_iff (c ∷ i) [] message rest q = (
  λ h. absurd (ground arith),
  λ s. elim s [ inl (e, e') ↦ absurd (ground arith) | inr (n, p) ↦ absurd (n refl) ],
)
absent_or_iff [] (c ∷ r) message rest (f, g) = (
  λ h. inr (λ e. ground arith, f h),
  λ s. elim s [ inl (e, e') ↦ absurd (ground arith) | inr (n, p) ↦ g p ],
)
absent_or_iff (d ∷ i) (c ∷ r) message rest (f, g) = (
  λ h. inr (λ e. ground arith, f h),
  λ s. elim s [ inl (e, e') ↦ absurd (ground arith) | inr (n, p) ↦ g p ],
)
