-- ===== src/App/Catalog/Rules.antt =====
-- What the validation of a new listing accepts, and what it reports.
use keebhub.Prelude.{
  ◌≤◌, ◌≡◌, ◌≢◌, ◌⊎◌, inl, inr, ◌↔◌, refl, Bool, true, false, Option, none, some, [], ◌∷◌, String,
  arith, if◌then◌else◌, ℤ, Within, Text, rune_count, trim_space, is_empty, ltb,
}
use keebhub.Domain.Errors.{
  Error, Fields, validation, new_validation_error, collect_validation, validation_fields,
}
use keebhub.Domain.Listing.{
  ListingCondition, new, used, validate_listing_title, validate_description, validate_price_idr,
  validate_quantity, validate_listing_condition,
}
use keebhub.Domain.Listing.Rules.{
  validate_listing_title_iff, validate_description_iff, validate_price_idr_iff,
  validate_quantity_iff, validate_listing_condition_iff,
}
use keebhub.App.Catalog.{CreateListingInput}
use keebhub.App.Catalog.Validation.{check_category_slug, validate_create_input}

-- The messages that an error carries.
abbrev pub messages : Option Error → Fields
messages none = []
messages (some e) = validation_fields e

-- No error, or one message about the field.
abbrev pub Single : String → Option Error → Type 0
Single name o = (o ≡ none) ⊎ ((m : String) × (o ≡ some (validation ((name, m) ∷ []))))

Single-if :
    (name message : String) (b : Bool) {o : Option Error}
    → Single name o
    → Single name (if b then new_validation_error ((name, message) ∷ []) else o)
Single-if name message true h = inr (message, refl)
Single-if name message false h = h

title-Single : (title : Text) → Single "title" (validate_listing_title title)
unfolding validate_listing_title
title-Single title = Single-if _ "must not be blank" (is_empty (trim_space title)) (
    Single-if _ "must be at most 120 characters" (ltb 120 (rune_count (trim_space title)))
      (inl refl))

description-Single : (text : Text) → Single "description" (validate_description text)
unfolding validate_description
description-Single text = Single-if _ _ _ (inl refl)

price-Single : (price : ℤ) → Single "price_idr" (validate_price_idr price)
unfolding validate_price_idr
price-Single price = Single-if _ _ _ (inl refl)

quantity-Single : (quantity : ℤ) → Single "quantity" (validate_quantity quantity)
unfolding validate_quantity
quantity-Single quantity = Single-if _ _ _ (inl refl)

condition-Single : (c : ListingCondition) → Single "condition" (validate_listing_condition c)
unfolding validate_listing_condition
condition-Single new = inl refl
condition-Single used = inl refl
condition-Single (ListingCondition.other s) = inr (_, refl)

collect_iff :
    (name : String) (o : Option Error) (fields : Fields)
    → Single name o
    → (collect_validation fields o ≡ []) ↔ ((fields ≡ []) × (o ≡ none))
collect_iff name o fields (inl e) = rw e (ground arith)
collect_iff name o fields (inr (m, e)) = rw e (ground arith)

-- A category slug as the program accepts it.
abbrev pub IsSlugText : Text → Type 0
IsSlugText slug = (slug ≢ []) × (rune_count slug ≤ 50)

slug_iff :
    (slug : Text) (fields : Fields)
    → (check_category_slug slug fields ≡ []) ↔ (IsSlugText slug × (fields ≡ []))
unfolding check_category_slug
slug_iff slug fields = ground arith

pub new_validation_error_iff :
    (fields : Fields) → (new_validation_error fields ≡ none) ↔ (fields ≡ [])
new_validation_error_iff [] = ground arith
new_validation_error_iff (f ∷ fields) = ground arith

-- The rules of the domain on a listing.
pub record IsListable (title text slug : Text) (price quantity : ℤ) (c : ListingCondition)
    : Type 0 where
  pub titled : (trim_space title ≢ []) × (rune_count (trim_space title) ≤ 120)
  pub described : rune_count text ≤ 5000
  pub priced : Within 1 10_000_000_000 price
  pub counted : Within 1 1_000_000 quantity
  pub conditioned : (c ≡ new) ⊎ (c ≡ used)
  pub slugged : IsSlugText slug

abbrev pub IsValidInput : CreateListingInput → Type 0
IsValidInput i = IsListable i.title i.description i.category_slug i.price_idr i.quantity i.condition

-- The five checks of the domain on an input, run in turn.
module _ (i : CreateListingInput) where
  abbrev title_check : Option Error
  title_check = validate_listing_title i.title

  abbrev description_check : Option Error
  description_check = validate_description i.description

  abbrev price_check : Option Error
  price_check = validate_price_idr i.price_idr

  abbrev quantity_check : Option Error
  quantity_check = validate_quantity i.quantity

  abbrev condition_check : Option Error
  condition_check = validate_listing_condition i.condition

  abbrev after_title : Fields
  after_title = collect_validation [] title_check

  abbrev after_description : Fields
  after_description = collect_validation after_title description_check

  abbrev after_price : Fields
  after_price = collect_validation after_description price_check

  abbrev after_quantity : Fields
  after_quantity = collect_validation after_price quantity_check

  abbrev after_condition : Fields
  after_condition = collect_validation after_quantity condition_check

  checks_iff : (after_condition ≡ []) ↔ (
      (title_check ≡ none)
      × (description_check ≡ none)
      × (price_check ≡ none)
      × (quantity_check ≡ none)
      × (condition_check ≡ none))
  checks_iff = ground (
    arith,
    collect_iff "title" title_check [] (title-Single i.title),
    collect_iff "description" description_check after_title (description-Single i.description),
    collect_iff "price_idr" price_check after_description (price-Single i.price_idr),
    collect_iff "quantity" quantity_check after_price (quantity-Single i.quantity),
    collect_iff "condition" condition_check after_quantity (condition-Single i.condition),
  )

  -- A new listing passes exactly when its title, description, price, quantity, condition and
  -- category slug all follow the rules.
  pub validate_create_input_iff : (validate_create_input i ≡ none) ↔ IsValidInput i
  unfolding validate_create_input
  validate_create_input_iff = (
    λ h.
        let (slug, empty) =
          (slug_iff i.category_slug after_condition).0 ((new_validation_error_iff _).0 h) in
        let (t, d, p, q, c) = checks_iff.0 empty in
        record {
          titled = (validate_listing_title_iff i.title).0 t;
          described = (validate_description_iff i.description).0 d;
          priced = (validate_price_idr_iff i.price_idr).0 p;
          counted = (validate_quantity_iff i.quantity).0 q;
          conditioned = (validate_listing_condition_iff i.condition).0 c;
          slugged = slug;
        },
    λ v. (new_validation_error_iff _).1 (
        (slug_iff i.category_slug after_condition).1 (
          v.slugged,
          checks_iff.1 (
            (validate_listing_title_iff i.title).1 v.titled,
            (validate_description_iff i.description).1 v.described,
            (validate_price_idr_iff i.price_idr).1 v.priced,
            (validate_quantity_iff i.quantity).1 v.counted,
            (validate_listing_condition_iff i.condition).1 v.conditioned,
          ),
        )),
  )
