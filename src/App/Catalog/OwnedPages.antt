-- ===== src/App/Catalog/OwnedPages.antt =====
-- internal/app/catalog.go: the seller's own listings, page by page.
use keebhub.Prelude.{
  ℕ, ◌+◌, Bool, not, ◌&&◌, Option, none, some, List, [], ◌∷◌, ltb, ◌==◌, if◌then◌else◌, String,
  str_eq, ℤ, pos_part, Text,
}
use keebhub.Domain.Errors.{Error, Result, ok, err, query}
use keebhub.Domain.Listing.{Listing, ListingStatus, status_text, validate_listing_status}
use keebhub.App.Exec.{Exec, pure, configured, lift, require, ◌>>=◌, ◌>>◌}
use keebhub.App.Cursor.{Codec, Clock}
use keebhub.App.Catalog.{ListingPage, CatalogService}
use keebhub.App.Catalog.Pages.{cut_page}
use keebhub.App.Catalog.Validation.{validate_page_limit}

abbrev pub cursor_version : ℕ
cursor_version = 1

abbrev pub cursor_kind_owned : String
cursor_kind_owned = "owned_listings"

-- optionalString on a string that is no user text
abbrev pub optional_string : String → Option String
optional_string s = if str_eq s "" then none else some s

-- `""` where the pointer is nil
abbrev pub or_blank : Option String → String
or_blank none = ""
or_blank (some s) = s

abbrev pub optional_status_text : Option ListingStatus → String
optional_status_text none = ""
optional_status_text (some status) = status_text status

-- The encoded fields of ownedCursor.
pub record OwnedCursor : Type 0 where
  pub version : ℕ
  pub kind : String
  pub status : Option String
  pub updated_at : Text
  pub id : ℕ

-- The two unencoded fields, which decoding fills in.
pub record Position : Type 0 where
  pub updated_at : Option ℕ
  pub id : Option ℕ

abbrev pub first_page : Position
first_page = record { updated_at = none; id = none }

abbrev pub invalid_cursor_error : Error
invalid_cursor_error = query (("cursor", "is invalid or does not match this request") ∷ [])

module _ (codec : Codec OwnedCursor) (clock : Clock) where
  open codec use {Token, is_blank, encode, decode, decode-encode, encode-is_blank}

  abbrev pub owned_cursor_matches : OwnedCursor → Option ListingStatus → Bool
  owned_cursor_matches cursor status =
      cursor.version == cursor_version
      && str_eq cursor.kind cursor_kind_owned
      && not (ltb cursor.id 1)
      && str_eq (or_blank cursor.status) (optional_status_text status)

  unfoldable pub decode_owned_cursor : Token → Option ListingStatus → Result Position
  decode_owned_cursor value status = if is_blank value then ok first_page else elim (decode value) [
    | none ↦ err invalid_cursor_error
    | some cursor ↦
        if owned_cursor_matches cursor status
        then elim (clock.parse cursor.updated_at) [
          | none ↦ err invalid_cursor_error
          | some parsed ↦ ok (record { updated_at = some parsed; id = some cursor.id })
        ]
        else err invalid_cursor_error
  ]

  abbrev pub owned_cursor : Listing → Option ListingStatus → OwnedCursor
  owned_cursor last status = record {
    version = cursor_version;
    kind = cursor_kind_owned;
    status = optional_string (optional_status_text status);
    updated_at = clock.format last.updated_at;
    id = last.id;
  }

  unfoldable pub owned_listing_page : List Listing → ℕ → Option ListingStatus → ListingPage Token
  unfolding cut_page
  owned_listing_page rows limit status =
      cut_page (λ last. encode (owned_cursor last status)) rows limit

  abbrev owned_status_error : Option ListingStatus → Option Error
  owned_status_error none = none
  owned_status_error (some status) = elim (validate_listing_status status) [
    | none ↦ none
    | some e ↦ some (query (("status", "must be active, reserved, sold, or archived") ∷ []))
  ]

  unfoldable pub list_owned_listings :
      {S : Type 0}
      → CatalogService S
      → ℕ
      → Option ListingStatus
      → Token
      → ℤ
      → Exec S (ListingPage Token)
  unfolding decode_owned_cursor owned_listing_page
  list_owned_listings service seller_id status cursor limit = do
    listings ← configured service.listings "listing repository is not configured"
    n ← lift (validate_page_limit limit)
    require (owned_status_error status)
    position ← lift (decode_owned_cursor cursor status)
    rows ← listings.list_owned_listings (record {
      seller_id = seller_id;
      status = status;
      cursor_updated_at = position.updated_at;
      cursor_id = position.id;
      limit = pos_part n + 1;
    })
    pure (owned_listing_page rows (pos_part n) status)
