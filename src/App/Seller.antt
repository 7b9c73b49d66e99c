-- ===== src/App/Seller.antt =====
-- internal/app/seller.go: profiles and the public catalog of a seller.
use keebhub.Prelude.{
  ℕ, ◌+◌, Bool, true, false, not, ◌&&◌, ◌||◌, Option, none, some, List, [], ◌∷◌, ◌++◌, ltb, ◌==◌,
  if◌then◌else◌, String, str_eq, is_none, ℤ, pos_part, Text, text_eq, rune_count,
}
use keebhub.Domain.Errors.{
  Error, Fields, Result, ok, err, validation, query, not_found, user_disabled, validation_fields,
  new_validation_error,
}
use keebhub.Domain.Listing.{
  Listing, ListingStatus, active, reserved, sold, status_text, normalize_category_slug,
  maximum_category_slug_length,
}
use keebhub.Domain.User.{User, is_active}
use keebhub.Domain.Handle.{is_canonical_handle}
use keebhub.Domain.Profile.{SellerProfile, normalize_profile_location, normalize_profile_bio}
use keebhub.App.Exec.{Exec, pure, configured, lift, require, ◌>>=◌, ◌>>◌}
use keebhub.App.Cursor.{Codec, Clock}
use keebhub.App.Catalog.{ListingPage}
use keebhub.App.Catalog.Pages.{cut_page}
use keebhub.App.Catalog.OwnedPages.{
  cursor_version, optional_string, or_blank, optional_status_text, invalid_cursor_error,
}
use keebhub.App.Catalog.Validation.{validate_page_limit, optional_text}
pub mod Profiles
pub mod Laws

abbrev pub cursor_kind_seller : String
cursor_kind_seller = "seller_listings"

-- A field that may be left out, or be given as null.
pub record ProfileField : Type 0 where
  pub present : Bool
  pub value : Option Text

pub record UpdateProfileInput : Type 0 where
  pub location : ProfileField
  pub bio : ProfileField

pub record UpdateProfileParams : Type 0 where
  pub user_id : ℕ
  pub set_location : Bool
  pub location : Option Text
  pub set_bio : Bool
  pub bio : Option Text
  pub updated_at : ℕ

pub record SellerListingQuery : Type 0 where
  pub seller_id : ℕ
  pub statuses : List String
  pub category : Option Text
  pub cursor_status_rank : Option ℕ
  pub cursor_updated_at : Option ℕ
  pub cursor_id : Option ℕ
  pub limit : ℕ

pub record SellerRepository (S : Type 0) : Type 0 where
  pub update_profile : UpdateProfileParams → Exec S User
  pub get_seller_profile : Text → Exec S SellerProfile

pub record SellerService (S : Type 0) : Type 0 where
  pub repository : Option (SellerRepository S)
  -- SellerCatalogRepository has one method.
  pub catalog : Option (SellerListingQuery → Exec S (List Listing))

abbrev pub field_result : Result (Option Text) → Option Text × Fields
field_result (ok v) = (v, [])
field_result (err e) = (none, validation_fields e)

-- The new value of a field and the messages about it; a field that is left out keeps its value.
abbrev pub normalized_field :
    (Option Text → Result (Option Text)) → ProfileField → Option Text → Option Text × Fields
normalized_field normalize field old =
    if field.present then field_result (normalize field.value) else (old, [])

abbrev pub equal_optional_texts : Option Text → Option Text → Bool
equal_optional_texts none none = true
equal_optional_texts (some a) (some b) = text_eq a b
equal_optional_texts a b = false

-- Location and bio after normalisation, each with its messages.
abbrev pub new_location : User → UpdateProfileInput → Option Text × Fields
new_location user input = normalized_field normalize_profile_location input.location user.location

abbrev pub new_bio : User → UpdateProfileInput → Option Text × Fields
new_bio user input = normalized_field normalize_profile_bio input.bio user.bio

abbrev pub profile_messages : User → UpdateProfileInput → Fields
profile_messages user input = (new_bio user input).1 ++ (new_location user input).1

-- locationChanged || bioChanged
abbrev pub profile_changed : User → UpdateProfileInput → Bool
profile_changed user input =
    (input.location.present && not (equal_optional_texts (new_location user input).0 user.location))
    || (input.bio.present && not (equal_optional_texts (new_bio user input).0 user.bio))

abbrev pub profile_params : User → UpdateProfileInput → ℕ → UpdateProfileParams
profile_params user input now = record {
  user_id = user.id;
  set_location = input.location.present;
  location = (new_location user input).0;
  set_bio = input.bio.present;
  bio = (new_bio user input).0;
  updated_at = now;
}

module _ {S : Type 0} where
  unfoldable pub update_profile : SellerService S → User → UpdateProfileInput → ℕ → Exec S User
  update_profile service user input now = do
    repository ← configured service.repository "seller repository is not configured"
    require (if is_active user.status then none else some user_disabled)
    require (
        if input.location.present || input.bio.present
        then none
        else some (validation (("body", "must include location or bio") ∷ [])))
    require (new_validation_error (profile_messages user input))
    if profile_changed user input
        then repository.update_profile (profile_params user input now)
        else pure user

  unfoldable pub get_seller_profile : SellerService S → Text → Exec S SellerProfile
  get_seller_profile service handle = do
    repository ← configured service.repository "seller repository is not configured"
    require (if is_canonical_handle handle then none else some not_found)
    repository.get_seller_profile handle

unfoldable pub seller_catalog_status : ListingStatus → Bool
seller_catalog_status active = true
seller_catalog_status reserved = true
seller_catalog_status sold = true
seller_catalog_status status = false

unfoldable pub seller_catalog_statuses : Option ListingStatus → List String
seller_catalog_statuses none = "active" ∷ "reserved" ∷ []
seller_catalog_statuses (some status) = status_text status ∷ []

unfoldable pub seller_status_rank : ListingStatus → ℕ
seller_status_rank active = 0
seller_status_rank reserved = 1
seller_status_rank status = 2

unfoldable pub valid_seller_cursor_rank : ℕ → Option ListingStatus → Bool
unfolding seller_status_rank
valid_seller_cursor_rank rank none = rank == 0 || rank == 1
valid_seller_cursor_rank rank (some status) = rank == seller_status_rank status

-- The encoded fields of sellerCursor.
pub record SellerCursor : Type 0 where
  pub version : ℕ
  pub kind : String
  pub seller_id : ℕ
  pub status : Option String
  pub category : Text
  pub status_rank : ℕ
  pub updated_at : Text
  pub id : ℕ

pub record SellerPosition : Type 0 where
  pub rank : Option ℕ
  pub updated_at : Option ℕ
  pub id : Option ℕ

abbrev pub seller_cursor_matches : SellerCursor → ℕ → Option ListingStatus → Text → Bool
seller_cursor_matches cursor seller_id status category =
    cursor.version == cursor_version
    && str_eq cursor.kind cursor_kind_seller
    && cursor.seller_id == seller_id
    && not (ltb cursor.id 1)
    && str_eq (or_blank cursor.status) (optional_status_text status)
    && not (is_none status && not (is_none cursor.status))
    && text_eq cursor.category category
    && valid_seller_cursor_rank cursor.status_rank status

module _ (codec : Codec SellerCursor) (clock : Clock) where
  open codec use {Token, is_blank, encode, decode}

  unfoldable pub decode_seller_cursor :
      Token → ℕ → Option ListingStatus → Text → Result SellerPosition
  unfolding valid_seller_cursor_rank
  decode_seller_cursor value seller_id status category =
      if is_blank value
      then ok (record { rank = none; updated_at = none; id = none })
      else elim (decode value) [
        | none ↦ err invalid_cursor_error
        | some cursor ↦
            if seller_cursor_matches cursor seller_id status category
            then elim (clock.parse cursor.updated_at) [
              | none ↦ err invalid_cursor_error
              | some parsed ↦ ok (record {
                rank = some cursor.status_rank;
                updated_at = some parsed;
                id = some cursor.id;
              })
            ]
            else err invalid_cursor_error
      ]

  abbrev pub seller_cursor : ℕ → Option ListingStatus → Text → Listing → SellerCursor
  seller_cursor seller_id status category last = record {
    version = cursor_version;
    kind = cursor_kind_seller;
    seller_id = seller_id;
    status = optional_string (optional_status_text status);
    category = category;
    status_rank = seller_status_rank last.status;
    updated_at = clock.format last.updated_at;
    id = last.id;
  }

  unfoldable pub seller_listing_page :
      List Listing → ℕ → ℕ → Option ListingStatus → Text → ListingPage Token
  unfolding cut_page seller_status_rank
  seller_listing_page rows limit seller_id status category =
      cut_page (λ last. encode (seller_cursor seller_id status category last)) rows limit

  abbrev pub shown : Option ListingStatus → Bool
  shown none = true
  shown (some status) = seller_catalog_status status

  unfoldable pub list_seller_listings :
      {S : Type 0}
      → SellerService S
      → Text
      → Option ListingStatus
      → Text
      → Token
      → ℤ
      → Exec S (ListingPage Token)
  unfolding decode_seller_cursor seller_listing_page get_seller_profile seller_catalog_status
      seller_catalog_statuses
  list_seller_listings service handle status raw_category cursor limit = do
    repository ← configured service.repository "seller repositories are not configured"
    catalog ← configured service.catalog "seller repositories are not configured"
    require (if is_canonical_handle handle then none else some not_found)
    let category = normalize_category_slug raw_category
    n ← lift (validate_page_limit limit)
    require (
        if ltb maximum_category_slug_length (rune_count category)
        then some (query (("category", "must be at most 50 characters") ∷ []))
        else none)
    require (
        if shown status
        then none
        else some (query (("status", "must be active, reserved, or sold") ∷ [])))
    profile ← get_seller_profile service handle
    position ← lift (decode_seller_cursor cursor profile.user.id status category)
    rows ← catalog (record {
      seller_id = profile.user.id;
      statuses = seller_catalog_statuses status;
      category = optional_text category;
      cursor_status_rank = position.rank;
      cursor_updated_at = position.updated_at;
      cursor_id = position.id;
      limit = pos_part n + 1;
    })
    pure (seller_listing_page rows (pos_part n) profile.user.id status category)
