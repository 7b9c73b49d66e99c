-- ===== src/Domain/Profile.antt =====
-- internal/domain/profile.go: seller profiles and their free-text fields.
use keebhub.Prelude.{
  ℕ, String, ◌≡◌, Option, none, some, [], ◌∷◌, ltb, if◌then◌else◌, Text, is_empty, rune_count,
  trim_space,
}
use keebhub.Domain.Errors.{Result, ok, err, validation}
use keebhub.Domain.Listing.{PublicUser}
pub mod Normal

abbrev pub maximum_profile_location_length : ℕ
maximum_profile_location_length = 100

abbrev pub maximum_profile_bio_length : ℕ
maximum_profile_bio_length = 500

pub record SellerProfile : Type 0 where
  pub user : PublicUser
  pub created_at : ℕ
  pub active_listing_count : ℕ

-- `too_long` is the formatted message "must be at most <maximum> characters".
unfoldable pub normalize_optional_profile_value :
    Option Text → String → ℕ → String → Result (Option Text)
normalize_optional_profile_value none field maximum too_long = ok none
normalize_optional_profile_value (some value) field maximum too_long =
    let normalized = trim_space value in
    if is_empty normalized
    then ok none
    else if ltb maximum (rune_count normalized)
    then err (validation ((field, too_long) ∷ []))
    else ok (some normalized)

unfoldable pub normalize_profile_location : Option Text → Result (Option Text)
unfolding normalize_optional_profile_value
normalize_profile_location value =
    normalize_optional_profile_value value "location" maximum_profile_location_length
      "must be at most 100 characters"

unfoldable pub normalize_profile_bio : Option Text → Result (Option Text)
unfolding normalize_optional_profile_value
normalize_profile_bio value =
    normalize_optional_profile_value value "bio" maximum_profile_bio_length
      "must be at most 500 characters"
