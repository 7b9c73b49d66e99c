-- ===== src/Domain/Errors.antt =====
-- The errors of internal/domain, and Go's `(value, error)` results.
use keebhub.Prelude.{
  String, ◌≡◌, ◌⊎◌, inl, inr, refl, Bool, true, false, Option, none, some, List, [], ◌∷◌, ◌++◌,
}

-- A map from a field's name to the message about it. A later entry for a name hides an earlier one.
abbrev pub Fields : Type 0
Fields = List (String × String)

abbrev pub put : String → String → Fields → Fields
put name message fields = (name, message) ∷ fields

pub data Error : Type 0 where
  validation query : Fields → Error
  not_found forbidden conflict : Error
  user_disabled invalid_session authentication_unavailable discord_unavailable : Error
  listing_unavailable self_conversation invalid_read_target : Error
  -- an error with no sentinel, by its text
  other : String → Error
  -- fmt.Errorf("…: %w", err)
  wrapped : String → Error → Error

pub data Result {ℓ} (A : Type ℓ) : Type ℓ where
  ok : A → Result A
  err : Error → Result A

pub Result-cases {ℓ} :
    {A : Type ℓ} (r : Result A) → ((a : A) × (r ≡ ok a)) ⊎ ((e : Error) × (r ≡ err e))
Result-cases (ok a) = inl (a, refl)
Result-cases (err e) = inr (e, refl)

abbrev pub new_validation_error : Fields → Option Error
new_validation_error [] = none
new_validation_error (f ∷ fields) = some (validation (f ∷ fields))

abbrev pub validation_fields : Error → Fields
validation_fields (validation fields) = fields
validation_fields (wrapped context e) = validation_fields e
validation_fields e = []

-- collectValidation of internal/app/catalog.go: copies a validation error's messages.
abbrev pub collect_validation : Fields → Option Error → Fields
collect_validation fields none = fields
collect_validation fields (some e) = validation_fields e ++ fields

abbrev pub is_not_found : Error → Bool
is_not_found not_found = true
is_not_found (wrapped context e) = is_not_found e
is_not_found e = false

abbrev pub is_invalid_session : Error → Bool
is_invalid_session invalid_session = true
is_invalid_session (wrapped context e) = is_invalid_session e
is_invalid_session e = false
