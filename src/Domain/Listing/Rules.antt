-- ===== src/Domain/Listing/Rules.antt =====
-- What the rules on a listing's fields accept.
use keebhub.Prelude.{
  ◌≤◌, ◌≡◌, ◌≢◌, ◌⊎◌, ◌↔◌, none, [], arith, ℤ, pos, negsuc, Within, Text, rune_count, trim_space,
}
use keebhub.Domain.Listing.{
  ListingCondition, new, used, validate_listing_title, validate_description, validate_price_idr,
  validate_quantity, validate_listing_condition,
}

pub validate_listing_title_iff :
    (title : Text)
    → (validate_listing_title title ≡ none)
      ↔ ((trim_space title ≢ []) × (rune_count (trim_space title) ≤ 120))
unfolding validate_listing_title
validate_listing_title_iff title = ground arith

pub validate_description_iff :
    (text : Text) → (validate_description text ≡ none) ↔ (rune_count text ≤ 5000)
unfolding validate_description
validate_description_iff text = ground arith

pub validate_price_idr_iff :
    (price : ℤ) → (validate_price_idr price ≡ none) ↔ Within 1 10_000_000_000 price
unfolding validate_price_idr
validate_price_idr_iff (pos n) = ground arith
validate_price_idr_iff (negsuc n) = ground arith

pub validate_quantity_iff :
    (quantity : ℤ) → (validate_quantity quantity ≡ none) ↔ Within 1 1_000_000 quantity
unfolding validate_quantity
validate_quantity_iff (pos n) = ground arith
validate_quantity_iff (negsuc n) = ground arith

pub validate_listing_condition_iff :
    (c : ListingCondition) → (validate_listing_condition c ≡ none) ↔ ((c ≡ new) ⊎ (c ≡ used))
unfolding validate_listing_condition
validate_listing_condition_iff new = ground arith
validate_listing_condition_iff used = ground arith
validate_listing_condition_iff (ListingCondition.other s) = ground arith
