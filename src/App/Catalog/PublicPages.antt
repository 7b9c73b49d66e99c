-- ===== src/App/Catalog/PublicPages.antt =====
-- internal/app/catalog.go: the public search, page by page.
use keebhub.Prelude.{
  ℕ, ◌+◌, Bool, true, false, not, ◌&&◌, Option, none, some, List, [], ltb, ◌==◌, if◌then◌else◌,
  String, str_eq, ℤ, pos_part, eqb_ℤ, Text, text_eq, trim_space,
}
use keebhub.Domain.Errors.{Result, ok, err}
use keebhub.Domain.Listing.{
  Listing, ListingCondition, condition_text, normalize_category_slug, out_of_range,
  minimum_listing_price_idr, maximum_listing_price_idr,
}
use keebhub.App.Exec.{Exec, pure, configured, lift, ◌>>=◌}
use keebhub.App.Cursor.{Codec, Clock}
use keebhub.App.Catalog.{
  ListingSort, newest, price_asc, price_desc, SearchFilters, ListingPage, CatalogService,
}
use keebhub.App.Catalog.Pages.{cut_page}
use keebhub.App.Catalog.OwnedPages.{cursor_version, or_blank, invalid_cursor_error}
use keebhub.App.Catalog.Validation.{
  validate_search_options, normalized_sort, valid_sort, optional_text, escape_ilike,
}

abbrev pub cursor_kind_public : String
cursor_kind_public = "public_listings"

-- The encoded fields of publicCursor. A field with omitempty is blank or absent when left out.
pub record PublicCursor : Type 0 where
  pub version : ℕ
  pub kind : String
  pub query : Text
  pub category : Text
  pub condition : Option String
  pub minimum_price : Option ℤ
  pub maximum_price : Option ℤ
  pub sort : ListingSort
  pub created_at : Text
  pub price_idr : Option ℤ
  pub id : ℕ

-- The unencoded fields, which decoding fills in.
pub record PublicPosition : Type 0 where
  pub created_at : Option ℕ
  pub price_idr : Option ℤ
  pub id : Option ℕ

abbrev pub listing_condition_pointer : Option ListingCondition → Option String
listing_condition_pointer none = none
listing_condition_pointer (some c) = some (condition_text c)

-- equalInt64Pointers
abbrev pub equal_int64_pointers : Option ℤ → Option ℤ → Bool
equal_int64_pointers none none = true
equal_int64_pointers (some a) (some b) = eqb_ℤ a b
equal_int64_pointers a b = false

abbrev pub sort_eq : ListingSort → ListingSort → Bool
sort_eq newest newest = true
sort_eq price_asc price_asc = true
sort_eq price_desc price_desc = true
sort_eq ListingSort.unset ListingSort.unset = true
sort_eq (ListingSort.other s) (ListingSort.other t) = str_eq s t
sort_eq a b = false

-- The cursor was made for a request with these filters.
abbrev pub same_filters : PublicCursor → SearchFilters → Bool
same_filters cursor filters =
    text_eq cursor.query filters.query
    && text_eq cursor.category filters.category
    && str_eq (or_blank cursor.condition) (or_blank (listing_condition_pointer filters.condition))
    && equal_int64_pointers cursor.minimum_price filters.minimum_price
    && equal_int64_pointers cursor.maximum_price filters.maximum_price
    && sort_eq cursor.sort (normalized_sort filters.sort)

abbrev pub well_formed : PublicCursor → Bool
well_formed cursor =
    cursor.version == cursor_version
    && str_eq cursor.kind cursor_kind_public
    && not (ltb cursor.id 1)
    && valid_sort cursor.sort

-- The price of a price-ordered cursor.
abbrev pub price_position : PublicCursor → Result PublicPosition
price_position cursor = elim cursor.price_idr [
  | none ↦ err invalid_cursor_error
  | some price ↦
      if out_of_range minimum_listing_price_idr maximum_listing_price_idr price
      then err invalid_cursor_error
      else ok (record { created_at = none; price_idr = some price; id = some cursor.id })
]

module _ (codec : Codec PublicCursor) (clock : Clock) where
  open codec use {Token, is_blank, encode, decode}

  abbrev pub time_position : PublicCursor → Result PublicPosition
  time_position cursor = elim (clock.parse cursor.created_at) [
    | none ↦ err invalid_cursor_error
    | some parsed ↦ ok (record { created_at = some parsed; price_idr = none; id = some cursor.id })
  ]

  -- The switch on the sort; `valid_sort` has ruled the last case out.
  abbrev pub position : ListingSort → PublicCursor → Result PublicPosition
  position newest cursor = time_position cursor
  position price_asc cursor = price_position cursor
  position price_desc cursor = price_position cursor
  position sort cursor = ok (record { created_at = none; price_idr = none; id = some cursor.id })

  unfoldable pub decode_public_cursor : Token → SearchFilters → Result PublicPosition
  unfolding normalized_sort valid_sort
  decode_public_cursor value filters =
      if is_blank value
      then ok (record { created_at = none; price_idr = none; id = none })
      else elim (decode value) [
        | none ↦ err invalid_cursor_error
        | some cursor ↦
            if well_formed cursor && same_filters cursor filters
            then position cursor.sort cursor
            else err invalid_cursor_error
      ]

  abbrev pub is_newest : ListingSort → Bool
  is_newest newest = true
  is_newest sort = false

  unfoldable pub public_cursor : Listing → SearchFilters → PublicCursor
  unfolding normalized_sort
  public_cursor last filters =
      let sort = normalized_sort filters.sort in
      record {
        version = cursor_version;
        kind = cursor_kind_public;
        query = filters.query;
        category = filters.category;
        condition = listing_condition_pointer filters.condition;
        minimum_price = filters.minimum_price;
        maximum_price = filters.maximum_price;
        sort = sort;
        created_at = if is_newest sort then clock.format last.created_at else [];
        price_idr = if is_newest sort then none else some last.price_idr;
        id = last.id;
      }

  unfoldable pub public_listing_page : List Listing → ℕ → SearchFilters → ListingPage Token
  unfolding cut_page public_cursor
  public_listing_page rows limit filters =
      cut_page (λ last. encode (public_cursor last filters)) rows limit

  abbrev pub normalize_filters : SearchFilters → SearchFilters
  normalize_filters raw = record raw {
    query = trim_space raw.query;
    category = normalize_category_slug raw.category;
  }

  unfoldable pub search_listings :
      {S : Type 0} → CatalogService S → SearchFilters → Token → ℤ → Exec S (ListingPage Token)
  unfolding decode_public_cursor public_listing_page validate_search_options
  search_listings service raw cursor limit = do
    listings ← configured service.listings "listing repository is not configured"
    n ← lift (validate_search_options (normalize_filters raw) limit)
    at ← lift (decode_public_cursor cursor (normalize_filters raw))
    rows ← listings.search_listings (record {
      query = optional_text (escape_ilike (normalize_filters raw).query);
      category = optional_text (normalize_filters raw).category;
      condition = raw.condition;
      minimum_price = raw.minimum_price;
      maximum_price = raw.maximum_price;
      sort = normalized_sort raw.sort;
      cursor_created_at = at.created_at;
      cursor_price_idr = at.price_idr;
      cursor_id = at.id;
      limit = pos_part n + 1;
    })
    pure (public_listing_page rows (pos_part n) (normalize_filters raw))
