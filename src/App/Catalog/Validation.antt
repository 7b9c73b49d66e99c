-- ===== src/App/Catalog/Validation.antt =====
-- internal/app/catalog.go: the validation of inputs and options.
use keebhub.Prelude.{
  ℕ, Bool, true, false, not, ◌||◌, Option, none, some, [], ◌∷◌, String, ltb, if◌then◌else◌, is_some,
  ℤ, pos, ltb_ℤ, eqb_ℤ, Text, rune_count, is_empty, ◌==◌,
}
use keebhub.Domain.Errors.{
  Error, Fields, Result, ok, err, query, put, new_validation_error, collect_validation,
}
use keebhub.Domain.Listing.{
  maximum_category_slug_length, validate_listing_title, validate_description, validate_price_idr,
  validate_quantity, validate_listing_condition, out_of_range, minimum_listing_price_idr,
  maximum_listing_price_idr,
}
use keebhub.App.Catalog.{
  CreateListingInput, UpdateListingInput, SearchFilters, ListingSort, newest, price_asc, price_desc,
  unset,
}

-- The checks of a category slug, after the other fields' messages.
unfoldable pub check_category_slug : Text → Fields → Fields
check_category_slug slug fields =
    if is_empty slug
    then put "category_slug" "must not be blank" fields
    else if ltb maximum_category_slug_length (rune_count slug)
    then put "category_slug" "must be at most 50 characters" fields
    else fields

unfoldable pub validate_create_input : CreateListingInput → Option Error
unfolding check_category_slug
validate_create_input input =
    let fields = collect_validation [] (validate_listing_title input.title) in
    let fields = collect_validation fields (validate_description input.description) in
    let fields = collect_validation fields (validate_price_idr input.price_idr) in
    let fields = collect_validation fields (validate_quantity input.quantity) in
    let fields = collect_validation fields (validate_listing_condition input.condition) in
    new_validation_error (check_category_slug input.category_slug fields)

-- `if field != nil { collectValidation(fields, check(*field)) }`
abbrev pub collect_present {ℓ} : {A : Type ℓ} → (A → Option Error) → Option A → Fields → Fields
collect_present check none fields = fields
collect_present check (some a) fields = collect_validation fields (check a)

abbrev pub check_present_slug : Option Text → Fields → Fields
check_present_slug none fields = fields
check_present_slug (some slug) fields = check_category_slug slug fields

unfoldable pub validate_update_input : UpdateListingInput → Option Error
unfolding check_category_slug
validate_update_input input =
    let fields = collect_present validate_listing_title input.title [] in
    let fields = collect_present validate_description input.description fields in
    let fields = collect_present validate_price_idr input.price_idr fields in
    let fields = collect_present validate_quantity input.quantity fields in
    let fields = collect_present validate_listing_condition input.condition fields in
    new_validation_error (check_present_slug input.category_slug fields)

unfoldable pub has_updates : UpdateListingInput → Bool
has_updates input =
    is_some input.title
    || is_some input.description
    || is_some input.price_idr
    || is_some input.quantity
    || is_some input.category_slug
    || is_some input.condition
    || is_some input.negotiable

abbrev pub default_catalog_page_limit : ℕ
default_catalog_page_limit = 20

abbrev pub maximum_catalog_page_limit : ℕ
maximum_catalog_page_limit = 100

unfoldable pub validate_page_limit : ℤ → Result ℤ
validate_page_limit limit =
    if eqb_ℤ limit (pos 0)
    then ok (pos default_catalog_page_limit)
    else if out_of_range 1 maximum_catalog_page_limit limit
    then err (query (("limit", "must be between 1 and 100") ∷ []))
    else ok limit

unfoldable pub normalized_sort : ListingSort → ListingSort
normalized_sort unset = newest
normalized_sort value = value

unfoldable pub valid_sort : ListingSort → Bool
valid_sort newest = true
valid_sort price_asc = true
valid_sort price_desc = true
valid_sort value = false

abbrev pub price_outside : Option ℤ → Bool
price_outside none = false
price_outside (some price) = out_of_range minimum_listing_price_idr maximum_listing_price_idr price

abbrev pub prices_crossed : Option ℤ → Option ℤ → Bool
prices_crossed (some low) (some high) = ltb_ℤ high low
prices_crossed low high = false

abbrev pub condition_invalid : SearchFilters → Bool
condition_invalid filters = elim filters.condition [
  | none ↦ false
  | some c ↦ is_some (validate_listing_condition c)
]

-- fields[name] = message, if the test holds
abbrev pub put_if : Bool → String → String → Fields → Fields
put_if true name message fields = put name message fields
put_if false name message fields = fields

-- The messages that validateSearchOptions collects.
unfoldable pub search_messages : SearchFilters → Fields
search_messages filters =
    put_if (not (valid_sort (normalized_sort filters.sort))) "sort"
      "must be newest, price_asc, or price_desc"
      (put_if (prices_crossed filters.minimum_price filters.maximum_price) "min_price"
        "must not be greater than max_price"
        (put_if (price_outside filters.maximum_price) "max_price"
          "is outside the allowed price range"
          (put_if (price_outside filters.minimum_price) "min_price"
            "is outside the allowed price range"
            (put_if (condition_invalid filters) "condition" "must be new or used" (
              put_if (ltb 100 (rune_count filters.query)) "q" "must be at most 100 characters"
                [])))))

unfoldable pub validate_search_options : SearchFilters → ℤ → Result ℤ
unfolding search_messages
validate_search_options filters limit = elim (validate_page_limit limit) [
  | err e ↦ err e
  | ok n ↦ elim (search_messages filters) [ [] ↦ ok n | f ∷ rest ↦ err (query (f ∷ rest)) ]
]

unfoldable pub optional_text : Text → Option Text
optional_text [] = none
optional_text (c ∷ s) = some (c ∷ s)

abbrev pub backslash : ℕ
backslash = 0x5c

-- escapeILIKE: three ReplaceAll in turn. Each replaces one rune by itself behind a backslash.
unfoldable pub replace_all : ℕ → Text → Text
replace_all rune [] = []
replace_all rune (c ∷ s) =
    let rest = replace_all rune s in if c == rune then backslash ∷ c ∷ rest else c ∷ rest

unfoldable pub escape_ilike : Text → Text
unfolding replace_all
escape_ilike value = replace_all b'_' (replace_all b'%' (replace_all backslash value))
