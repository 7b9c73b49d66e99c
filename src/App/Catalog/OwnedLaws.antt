-- ===== src/App/Catalog/OwnedLaws.antt =====
-- The pages of owned listings: their size, and that a page's cursor resumes after its last listing
-- for the same filter and for no other.
use keebhub.Prelude.{
  ℕ, ◌<◌, ◌≡◌, sym, inl, inr, Bool-cases, Option, some, List, arith, if◌then◌else◌, String, str_eq,
  eq_iff,
}
use keebhub.Domain.Errors.{ok, err}
use keebhub.Domain.Listing.{Listing, ListingStatus}
use keebhub.App.Cursor.{Codec, Clock}
use keebhub.App.Catalog.Pages.{IsPage, cut_page-IsPage}
use keebhub.App.Catalog.OwnedPages.{
  OwnedCursor, owned_cursor, decode_owned_cursor, owned_listing_page, optional_string, or_blank,
  optional_status_text, invalid_cursor_error,
}

pub or_blank-optional_string : (s : String) → or_blank (optional_string s) ≡ s
or_blank-optional_string s = elim (Bool-cases (str_eq s "")) [
  | inl e ↦ rw e (sym ((eq_iff s "").0 e))
  | inr e ↦ rw e
]

module _ (codec : Codec OwnedCursor) (clock : Clock) where
  open codec use {Token, is_blank, encode, decode, decode-encode, encode-is_blank}

  -- A cursor made for one listing and filter is accepted exactly for a filter with the same status,
  -- where it gives back that listing's update time and identifier.
  pub decode_owned_cursor-encode :
      (last : Listing) (status status' : Option ListingStatus)
      → 0 < last.id
      → decode_owned_cursor codec clock (encode (owned_cursor codec clock last status)) status' ≡ (
          if str_eq (optional_status_text status) (optional_status_text status')
          then ok (record { updated_at = some last.updated_at; id = some last.id })
          else err invalid_cursor_error)
  unfolding decode_owned_cursor
  decode_owned_cursor-encode last status status' h =
      simp (encode-is_blank, decode-encode, or_blank-optional_string, clock.parse-format)
        (ground arith)

  -- A page of the seller's listings, and where its cursor leads when the same filter is asked again.
  pub owned_listing_page-IsPage :
      (rows : List Listing) (limit : ℕ) (status : Option ListingStatus)
      → 0 < limit
      → IsPage
          (λ last. encode (owned_cursor codec clock last status))
          rows
          limit
          (owned_listing_page codec clock rows limit status)
  unfolding owned_listing_page
  owned_listing_page-IsPage rows limit status h = cut_page-IsPage _ rows limit h
