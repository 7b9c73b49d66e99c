-- ===== src/Domain/Profile/Normal.antt =====
-- What normalisation of an optional profile field gives.
use keebhub.Prelude.{
  ℕ, String, ◌≤◌, ◌≡◌, ◌≢◌, refl, Option, none, some, [], arith, Text, rune_count, trim_space,
}
use keebhub.Prelude.Trimming.{trim_space-trim_space}
use keebhub.Domain.Errors.{ok}
use keebhub.Domain.Profile.{normalize_optional_profile_value}

-- Absent, or a trimmed nonempty text of at most `maximum` runes.
abbrev pub IsNormal : ℕ → Option Text → Type 0
IsNormal maximum none = Unit
IsNormal maximum (some v) = (trim_space v ≡ v) × (v ≢ []) × (rune_count v ≤ maximum)

module _ (field : String) (maximum : ℕ) (too_long : String) where
  -- Whatever is accepted is normal: absent, or trimmed, not empty and at most `maximum` runes long.
  pub normalize_optional_profile_value-IsNormal :
      (value result : Option Text)
      → normalize_optional_profile_value value field maximum too_long ≡ ok result
      → IsNormal maximum result
  unfolding normalize_optional_profile_value
  normalize_optional_profile_value-IsNormal none none h = tt
  normalize_optional_profile_value-IsNormal none (some v) h = absurd (ground arith)
  normalize_optional_profile_value-IsNormal (some v) none h = tt
  normalize_optional_profile_value-IsNormal (some v) (some w) h =
      ground (arith, trim_space-trim_space v)

  -- A normal value is accepted as it is.
  pub normalize_optional_profile_value_self :
      (value : Option Text)
      → IsNormal maximum value
      → normalize_optional_profile_value value field maximum too_long ≡ ok value
  unfolding normalize_optional_profile_value
  normalize_optional_profile_value_self none h = refl
  normalize_optional_profile_value_self (some v) h = ground arith
