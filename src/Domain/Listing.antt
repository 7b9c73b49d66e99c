-- ===== src/Domain/Listing.antt =====
-- internal/domain/catalog.go: listings, their status machine and the rules on their fields.
use keebhub.Prelude.{
  ℕ, ◌+◌, ◌≤◌, String, ◌≡◌, refl, Bool, true, false, ◌&&◌, ◌||◌, not, Option, none, some, [], ◌∷◌,
  arith, ltb, if◌then◌else◌, is_none, str_eq, eq_iff, ℤ, pos, ltb_ℤ, Text, rune_count, is_empty,
  trim_space,
}
use keebhub.Domain.Errors.{Error, Fields, put, new_validation_error}
pub mod Transitions
pub mod Rules

abbrev pub maximum_category_slug_length : ℕ
maximum_category_slug_length = 50

abbrev pub maximum_listing_title_length : ℕ
maximum_listing_title_length = 120

abbrev pub maximum_description_length : ℕ
maximum_description_length = 5000

abbrev pub minimum_listing_price_idr : ℕ
minimum_listing_price_idr = 1

abbrev pub maximum_listing_price_idr : ℕ
maximum_listing_price_idr = 10_000_000_000

abbrev pub minimum_listing_quantity : ℕ
minimum_listing_quantity = 1

abbrev pub maximum_listing_quantity : ℕ
maximum_listing_quantity = 1_000_000

-- The named string types of the source. The last constructor is for a string that is none of the
-- named constants.
pub data ListingCondition : Type 0 where
  new used : ListingCondition
  other : String → ListingCondition

pub data ListingStatus : Type 0 where
  active reserved sold archived : ListingStatus
  other : String → ListingStatus

pub data ModerationStatus : Type 0 where
  visible removed : ModerationStatus
  other : String → ModerationStatus

-- string(status)
abbrev pub status_text : ListingStatus → String
status_text active = "active"
status_text reserved = "reserved"
status_text sold = "sold"
status_text archived = "archived"
status_text (ListingStatus.other s) = s

abbrev pub condition_text : ListingCondition → String
condition_text new = "new"
condition_text used = "used"
condition_text (ListingCondition.other s) = s

abbrev pub status_eq : ListingStatus → ListingStatus → Bool
status_eq active active = true
status_eq reserved reserved = true
status_eq sold sold = true
status_eq archived archived = true
status_eq (ListingStatus.other s) (ListingStatus.other t) = str_eq s t
status_eq a b = false

pub record Category : Type 0 where
  pub id : ℕ
  pub slug : Text
  pub name : Text
  pub sort_order : ℤ
  pub active : Bool

pub record PublicUser : Type 0 where
  pub id : ℕ
  pub handle : Text
  pub display_name : Text
  pub avatar_url : Option Text
  pub location : Option Text
  pub bio : Option Text

-- A time is its number of nanoseconds.
pub record Listing : Type 0 where
  pub id : ℕ
  pub seller_id : ℕ
  pub category_id : ℕ
  pub title : Text
  pub description : Text
  pub price_idr : ℤ
  pub quantity : ℤ
  pub condition : ListingCondition
  pub status : ListingStatus
  pub moderation_status : ModerationStatus
  pub negotiable : Bool
  pub created_at : ℕ
  pub updated_at : ℕ
  pub category : Category
  pub seller : PublicUser

unfoldable pub normalize_category_slug : Text → Text
normalize_category_slug value = trim_space value

unfoldable pub validate_listing_title : Text → Option Error
validate_listing_title value =
    if is_empty (trim_space value)
    then new_validation_error (("title", "must not be blank") ∷ [])
    else if ltb maximum_listing_title_length (rune_count (trim_space value))
    then new_validation_error (("title", "must be at most 120 characters") ∷ [])
    else none

unfoldable pub validate_description : Text → Option Error
validate_description value =
    if ltb maximum_description_length (rune_count value)
    then new_validation_error (("description", "must be at most 5000 characters") ∷ [])
    else none

-- value < minimum || value > maximum
abbrev pub out_of_range : ℕ → ℕ → ℤ → Bool
out_of_range minimum maximum value = ltb_ℤ value (pos minimum) || ltb_ℤ (pos maximum) value

unfoldable pub validate_price_idr : ℤ → Option Error
validate_price_idr value =
    if out_of_range minimum_listing_price_idr maximum_listing_price_idr value
    then new_validation_error (("price_idr", "must be between 1 and 10000000000") ∷ [])
    else none

unfoldable pub validate_quantity : ℤ → Option Error
validate_quantity value =
    if out_of_range minimum_listing_quantity maximum_listing_quantity value
    then new_validation_error (("quantity", "must be between 1 and 1000000") ∷ [])
    else none

unfoldable pub validate_listing_condition : ListingCondition → Option Error
validate_listing_condition (ListingCondition.other s) =
    new_validation_error (("condition", "must be new or used") ∷ [])
validate_listing_condition value = none

unfoldable pub validate_listing_status : ListingStatus → Option Error
validate_listing_status (ListingStatus.other s) =
    new_validation_error (("status", "must be active, reserved, sold, or archived") ∷ [])
validate_listing_status value = none

unfoldable pub validate_moderation_status : ModerationStatus → Option Error
validate_moderation_status (ModerationStatus.other s) =
    new_validation_error (("moderation_status", "must be visible or removed") ∷ [])
validate_moderation_status value = none

-- The switch of `can_transition_listing_status`, for two different statuses.
abbrev pub can_leave : ListingStatus → ListingStatus → Bool
can_leave active to = status_eq to reserved || status_eq to sold || status_eq to archived
can_leave reserved to = status_eq to active || status_eq to sold || status_eq to archived
can_leave sold to = status_eq to active || status_eq to archived
can_leave archived to = status_eq to active
can_leave (ListingStatus.other s) to = false

unfoldable pub can_transition_listing_status : ListingStatus → ListingStatus → Bool
unfolding validate_listing_status
can_transition_listing_status from to =
    if status_eq from to then is_none (validate_listing_status from) else can_leave from to
