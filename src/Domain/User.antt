-- ===== src/Domain/User.antt =====
-- internal/domain/auth.go: users and the identity that Discord reports.
use keebhub.Prelude.{
  ℕ, String, ◌≡◌, Bool, true, false, ◌&&◌, Option, none, some, ltb, leb, if◌then◌else◌, every, Text,
  is_empty, rune_count, trim_space,
}
use keebhub.Domain.Errors.{Error}
pub mod Identity

-- The last constructor is for a status that is neither named constant.
pub data UserStatus : Type 0 where
  active disabled : UserStatus
  other : String → UserStatus

pub record User : Type 0 where
  pub id : ℕ
  pub discord_id : Text
  pub discord_username : Text
  pub display_name : Text
  pub avatar_url : Option Text
  pub handle : Text
  pub location : Option Text
  pub bio : Option Text
  pub status : UserStatus
  pub created_at : ℕ
  pub updated_at : ℕ

-- user.Status == domain.UserStatusDisabled
abbrev pub is_disabled : UserStatus → Bool
is_disabled disabled = true
is_disabled status = false

-- user.Status == domain.UserStatusActive
abbrev pub is_active : UserStatus → Bool
is_active active = true
is_active status = false

pub record DiscordIdentity : Type 0 where
  pub id : Text
  pub username : Text
  pub display_name : Text
  pub avatar_url : Option Text

abbrev pub is_numeral : ℕ → Bool
is_numeral c = leb b'0' c && leb c b'9'

unfoldable pub validate_identity : DiscordIdentity → Option Error
validate_identity i =
    if is_empty i.id
    then some (Error.other "discord identity ID is empty")
    else if every is_numeral i.id
    then if is_empty (trim_space i.username)
      then some (Error.other "discord identity username is empty")
      else if ltb 100 (rune_count i.username)
      then some (Error.other "discord identity username is too long")
      else if is_empty (trim_space i.display_name)
      then some (Error.other "discord identity display name is empty")
      else if ltb 100 (rune_count i.display_name)
      then some (Error.other "discord identity display name is too long")
      else none
    else some (Error.other "discord identity ID is not numeric")
