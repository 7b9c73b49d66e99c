-- ===== src/Domain/User/Identity.antt =====
-- What DiscordIdentity.Validate accepts.
use keebhub.Prelude.{◌≤◌, ◌≡◌, ◌≢◌, ◌↔◌, true, none, [], arith, every, rune_count, Text, trim_space}
use keebhub.Domain.User.{DiscordIdentity, is_numeral, validate_identity}

-- A name with a rune that is no space, of at most 100 runes.
abbrev pub IsName : Text → Type 0
IsName name = (trim_space name ≢ []) × (rune_count name ≤ 100)

-- An identity is accepted exactly when its ID is a nonempty numeral and both names are names.
pub validate_identity_iff :
    (i : DiscordIdentity)
    → (validate_identity i ≡ none)
      ↔ ((i.id ≢ []) × (every is_numeral i.id ≡ true) × IsName i.username × IsName i.display_name)
unfolding validate_identity
validate_identity_iff i = ground arith
