-- ===== src/Examples/Listings.antt =====
-- The catalog's operations at concrete inputs.
use keebhub.Prelude.{
  ℕ, suc, ◌≡◌, ◌↔◌, refl, arith, true, none, some, [], ◌∷◌, if◌then◌else◌, str_eq, pos, codes,
}
use keebhub.Domain.Errors.{ok, err}
use keebhub.Domain.Listing.{used, active, sold}
use keebhub.App.Cursor.{plain_codec, plain_clock}
use keebhub.App.Catalog.{
  CreateListingInput, CategoryRepository, ListingRepository, CatalogService, SearchFilters,
  price_asc,
}
use keebhub.App.Catalog.Validation.{
  validate_create_input, validate_search_options, normalized_sort, valid_sort, escape_ilike,
}
use keebhub.App.Catalog.Rules.{IsValidInput, validate_create_input_iff}
use keebhub.App.Catalog.Service.{change_listing_status, create_listing}
use keebhub.App.Catalog.Guards.{Outcome, change_listing_status-Outcome}
use keebhub.App.Catalog.Creation.{Outcome as CreationOutcome, create_listing-Outcome}
use keebhub.App.Catalog.Pages.{IsPage}
use keebhub.App.Catalog.OwnedPages.{
  OwnedCursor, decode_owned_cursor, owned_cursor, owned_listing_page, optional_status_text,
  invalid_cursor_error,
}
use keebhub.App.Catalog.OwnedLaws.{decode_owned_cursor-encode, owned_listing_page-IsPage}
use keebhub.App.Catalog.PublicPages.{PublicCursor, decode_public_cursor, public_cursor}
use keebhub.App.Catalog.Search.{literal, resumes, decode_public_cursor-encode, literal-escape_ilike}
use keebhub.App.Catalog.Options.{AsksFor, IsSearchable, validate_search_options_iff}
use keebhub.Examples.{keyboards, keyboard}

-- The state counts the writes.
abbrev pub listings : ListingRepository ℕ
listings = record {
  create_listing = λ p n. (ok (keyboard active), suc n);
  get_listing = λ id n. (ok (keyboard active), n);
  update_owned_listing = λ p n. (ok (keyboard active), suc n);
  update_owned_listing_status = λ id seller status now n. (ok (keyboard status), suc n);
  list_owned_listings = λ q n. (ok [], n);
  search_listings = λ q n. (ok [], n);
}

abbrev categories : CategoryRepository ℕ
categories = record {
  list_active_categories = λ n. (ok (keyboards ∷ []), n);
  find_active_category_by_slug = λ slug n. (ok keyboards, n);
}

abbrev service : CatalogService ℕ
service = record { categories = some categories; listings = some listings }

change_listing_status-Outcome_example :
    Outcome listings 7 5 sold 500 0 (change_listing_status service 7 5 sold 500 0)
change_listing_status-Outcome_example =
    change_listing_status-Outcome listings 7 5 sold 500 0 service refl

abbrev input : CreateListingInput
input = record {
  title = codes " Tofu65 ";
  description = [];
  price_idr = pos 1_500_000;
  quantity = pos 1;
  category_slug = codes "keyboards";
  condition = used;
  negotiable = true;
}

create_listing-Outcome_example :
    CreationOutcome categories listings 7 input 500 0 (create_listing service 7 input 500 0)
create_listing-Outcome_example =
    create_listing-Outcome categories listings 7 input 500 0 service refl refl

validate_create_input_iff_example : (validate_create_input input ≡ none) ↔ IsValidInput input
validate_create_input_iff_example = validate_create_input_iff input

literal-escape_ilike_example : literal (escape_ilike (codes "50%_\\")) ≡ some (codes "50%_\\")
literal-escape_ilike_example = literal-escape_ilike (codes "50%_\\")

abbrev filters : SearchFilters
filters = record {
  query = codes "tofu";
  category = [];
  condition = some used;
  minimum_price = some (pos 1);
  maximum_price = none;
  sort = price_asc;
}

validate_search_options_iff_example :
    (validate_search_options filters (pos 0) ≡ ok (pos 20))
    ↔ (AsksFor (pos 0) (pos 20) × IsSearchable filters)
validate_search_options_iff_example = validate_search_options_iff filters (pos 0) (pos 20)

decode_public_cursor-encode_example :
    decode_public_cursor
      (plain_codec PublicCursor)
      plain_clock
      (some (public_cursor (plain_codec PublicCursor) plain_clock (keyboard active) filters))
      filters
    ≡ ok (resumes (keyboard active) (normalized_sort price_asc))
unfolding valid_sort normalized_sort
decode_public_cursor-encode_example =
    decode_public_cursor-encode (plain_codec PublicCursor) plain_clock (keyboard active) filters
      (omega arith) (refl, omega arith, omega arith) refl

decode_owned_cursor-encode_example :
    decode_owned_cursor
      (plain_codec OwnedCursor)
      plain_clock
      (some (owned_cursor (plain_codec OwnedCursor) plain_clock (keyboard active) (some sold)))
      none
    ≡ (if str_eq (optional_status_text (some sold)) (optional_status_text none)
        then ok (record { updated_at = some 200; id = some 5 })
        else err invalid_cursor_error)
decode_owned_cursor-encode_example =
    decode_owned_cursor-encode (plain_codec OwnedCursor) plain_clock (keyboard active) (some sold)
      none (omega arith)

owned_listing_page-IsPage_example :
    IsPage
      (λ last. some (owned_cursor (plain_codec OwnedCursor) plain_clock last none))
      (keyboard active ∷ keyboard sold ∷ [])
      1
      (owned_listing_page
        (plain_codec OwnedCursor)
        plain_clock
        (keyboard active ∷ keyboard sold ∷ [])
        1
        none)
owned_listing_page-IsPage_example =
    owned_listing_page-IsPage (plain_codec OwnedCursor) plain_clock
      (keyboard active ∷ keyboard sold ∷ []) 1 none (omega arith)
