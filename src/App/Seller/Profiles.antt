-- ===== src/App/Seller/Profiles.antt =====
-- What UpdateProfile hands to the repository.
use keebhub.Prelude.{
  ℕ, ◌≡◌, ◌↔◌, refl, Bool, not, ◌&&◌, text_eq_iff, true, false, ◌||◌, Bool-cases, Option-cases,
  Option, none, some, [], ◌∷◌, ◌++◌, inl, inr, ◌⊎◌, false, arith, Text, String,
}
use keebhub.Domain.Errors.{Error, Fields, Result, ok, err, validation_fields, new_validation_error}
use keebhub.Domain.User.{User, is_active}
use keebhub.Domain.Profile.{
  normalize_optional_profile_value, normalize_profile_location, normalize_profile_bio,
}
use keebhub.Domain.Profile.Normal.{IsNormal, normalize_optional_profile_value-IsNormal}
use keebhub.App.Catalog.Rules.{new_validation_error_iff}
use keebhub.App.Seller.{
  ProfileField, UpdateProfileInput, UpdateProfileParams, SellerRepository, SellerService,
  field_result, normalized_field, profile_messages, profile_changed, profile_params, new_location,
  new_bio, update_profile, equal_optional_texts,
}

-- A profile update within the rules: it sets a field at least, and what it sets is normal.
pub record IsStorable (p : UpdateProfileParams) : Type 0 where
  pub sets : (p.set_location || p.set_bio) ≡ true
  pub location : p.set_location ≡ true → IsNormal 100 p.location
  pub bio : p.set_bio ≡ true → IsNormal 500 p.bio

append-nil_parts : (a b : Fields) → a ++ b ≡ [] → (a ≡ []) × (b ≡ [])
append-nil_parts [] b h = (refl, h)
append-nil_parts (f ∷ a) b h = absurd (ground arith)

error_says :
    (value : Option Text) (name : String) (maximum : ℕ) (too_long : String) (e : Error)
    → normalize_optional_profile_value value name maximum too_long ≡ err e
    → validation_fields e ≡ []
    → ⊥
unfolding normalize_optional_profile_value
error_says none name maximum too_long e h k = ground arith
error_says (some v) name maximum too_long e h k = ground arith

-- A field that is given and has no message is normal.
normalized_field-IsNormal :
    (name : String) (maximum : ℕ) (too_long : String) (f : ProfileField) (old : Option Text)
    → (normalized_field (λ v. normalize_optional_profile_value v name maximum too_long) f old).1
      ≡ []
    → f.present ≡ true
    → IsNormal maximum
        (normalized_field (λ v. normalize_optional_profile_value v name maximum too_long) f old).0
normalized_field-IsNormal name maximum too_long f old h k =
    rw k (go (normalize_optional_profile_value f.value name maximum too_long) refl (rw k at h))
  where
    go :
        (r : Result (Option Text))
        → normalize_optional_profile_value f.value name maximum too_long ≡ r
        → (field_result r).1 ≡ []
        → IsNormal maximum (field_result r).0
    go (ok v) e m = normalize_optional_profile_value-IsNormal name maximum too_long f.value v e
    go (err e) p m = absurd (error_says f.value name maximum too_long e p m)

-- Each field that is given has, once it is normal, the value that the profile has.
abbrev pub Keeps : User → UpdateProfileInput → Type 0
Keeps user input =
    (input.location.present ≡ true → (new_location user input).0 ≡ user.location)
    × (input.bio.present ≡ true → (new_bio user input).0 ≡ user.bio)

equal_optional_texts_iff : (a b : Option Text) → (equal_optional_texts a b ≡ true) ↔ (a ≡ b)
equal_optional_texts_iff none none = ground arith
equal_optional_texts_iff none (some t) = ground arith
equal_optional_texts_iff (some s) none = ground arith
equal_optional_texts_iff (some s) (some t) = ground (arith, text_eq_iff s t)

-- A field is not changed exactly when it is not given or has this value already.
unchanged_iff :
    (given : Bool) (a b : Option Text)
    → ((given && not (equal_optional_texts a b)) ≡ false) ↔ (given ≡ true → a ≡ b)
unchanged_iff true a b = (
  λ h e. (equal_optional_texts_iff a b).0 (ground arith),
  λ k. let e = (equal_optional_texts_iff a b).1 (k refl) in ground arith,
)
unchanged_iff false a b = (λ h e. absurd (ground arith), λ k. refl)

profile_changed_iff :
    (user : User) (input : UpdateProfileInput)
    → (profile_changed user input ≡ false) ↔ Keeps user input
profile_changed_iff user input =
    let (f, g) = unchanged_iff input.location.present (new_location user input).0 user.location in
    let (f', g') = unchanged_iff input.bio.present (new_bio user input).0 user.bio in
    (
      λ h. let (p, q) = neither _ _ h in (f p, f' q),
      λ k. let p = g k.0 in let q = g' k.1 in rw (p, q) refl,
    )
  where
    neither : (a b : Bool) → (a || b) ≡ false → (a ≡ false) × (b ≡ false)
    neither a b h = ground arith

module _ {S : Type 0} (repository : SellerRepository S) (user : User) (input : UpdateProfileInput)
    (now : ℕ) (s : S) where
  -- How a call of UpdateProfile on the state s can end.
  pub data Outcome (r : Result User × S) : Type 0 where
    refused :
        (e : Error)
        → (is_active user.status ≡ false)
          ⊎ ((input.location.present || input.bio.present) ≡ false)
          ⊎ (new_validation_error (profile_messages user input) ≡ some e)
        → r ≡ (err e, s)
        → Outcome r
    kept : is_active user.status ≡ true → Keeps user input → r ≡ (ok user, s) → Outcome r
    written :
        is_active user.status ≡ true
        → ¬ Keeps user input
        → IsStorable (profile_params user input now)
        → r ≡ repository.update_profile (profile_params user input now) s
        → Outcome r

  storable :
      (input.location.present || input.bio.present) ≡ true
      → profile_messages user input ≡ []
      → IsStorable (profile_params user input now)
  unfolding normalize_profile_location normalize_optional_profile_value normalize_profile_bio
  storable h k =
      let (b, l) = append-nil_parts (new_bio user input).1 (new_location user input).1 k in
      record {
        sets = h;
        location =
            normalized_field-IsNormal "location" 100 "must be at most 100 characters" input.location
              user.location l;
        bio =
            normalized_field-IsNormal "bio" 500 "must be at most 500 characters" input.bio user.bio
              b;
      }

  -- The repository is asked to write only for an active user, only when a value changes, and only
  -- normal values; an unchanged profile is returned as it is; a call fails for a user who is not
  -- active, where no field is given, and where a given value breaks a rule. Nothing but that write
  -- changes the state.
  pub update_profile-Outcome :
      (service : SellerService S)
      → service.repository ≡ some repository
      → Outcome (update_profile service user input now s)
  unfolding update_profile
  update_profile-Outcome service set_up = simp set_up (elim (Bool-cases (is_active user.status)) [
    | inr inactive ↦ simp inactive (refused _ (inl inactive) refl)
    | inl active ↦ simp active (elim (Bool-cases (input.location.present || input.bio.present)) [
      | inr nothing ↦ simp nothing (refused _ (inr (inl nothing)) refl)
      | inl something ↦
          simp something (elim (Option-cases (new_validation_error (profile_messages user input))) [
            | inr (e, bad) ↦ simp bad (refused e (inr (inr bad)) refl)
            | inl fine ↦ simp fine (elim (Bool-cases (profile_changed user input)) [
              | inr same ↦ simp same (kept active ((profile_changed_iff user input).0 same) refl)
              | inl changed ↦ simp changed (
                  written active
                    (λ k. let same = (profile_changed_iff user input).1 k in ground arith)
                    (storable something ((new_validation_error_iff _).0 fine)) refl)
            ])
          ])
    ])
  ])
