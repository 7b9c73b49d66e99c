-- ===== src/App/Seller/Laws.antt =====
-- The cursors of a seller's public catalog.
use keebhub.Prelude.{
  ℕ, ◌<◌, ◌≡◌, refl, arith, false, ◌&&◌, ==_refl, is_none, not, if◌then◌else◌, Option, none, some,
  str_eq_refl, Text, text_eq_refl,
}
use keebhub.Domain.Errors.{ok, err}
use keebhub.Domain.Listing.{Listing, ListingStatus}
use keebhub.App.Cursor.{Codec, Clock}
use keebhub.App.Catalog.OwnedPages.{optional_string, optional_status_text, invalid_cursor_error}
use keebhub.App.Catalog.OwnedLaws.{or_blank-optional_string}
use keebhub.App.Seller.{
  SellerCursor, decode_seller_cursor, seller_cursor, valid_seller_cursor_rank, seller_status_rank,
}

-- No cursor that the program makes has a status where the request has none.
status_agrees :
    (status : Option ListingStatus)
    → (is_none status && not (is_none (optional_string (optional_status_text status)))) ≡ false
status_agrees none = refl
status_agrees (some status) = refl

module _ (codec : Codec SellerCursor) (clock : Clock) where
  open codec use {encode, decode-encode, encode-is_blank}

  -- A cursor made for a listing with an identifier, sent back for the same seller, status and
  -- category, gives that listing's position when its rank fits the status, and is refused otherwise.
  pub decode_seller_cursor-encode :
      (seller_id : ℕ) (status : Option ListingStatus) (category : Text) (last : Listing)
      → 0 < last.id
      → decode_seller_cursor codec clock
          (encode (seller_cursor codec clock seller_id status category last))
          seller_id
          status
          category
        ≡ (if valid_seller_cursor_rank (seller_status_rank last.status) status
            then ok (record {
              rank = some (seller_status_rank last.status);
              updated_at = some last.updated_at;
              id = some last.id;
            })
            else err invalid_cursor_error)
  unfolding decode_seller_cursor
  decode_seller_cursor-encode seller_id status category last h =
      simp
        (
          encode-is_blank, decode-encode, or_blank-optional_string, status_agrees, ==_refl,
          clock.parse-format, text_eq_refl, str_eq_refl,
        )
        (ground arith)

  -- The cursor of a page is refused for another seller.
  pub decode_seller_cursor-foreign :
      (seller_id other_id : ℕ) (status status' : Option ListingStatus) (category category' : Text)
      (last : Listing)
      → (seller_id ≡ other_id → ⊥)
      → decode_seller_cursor codec clock
          (encode (seller_cursor codec clock seller_id status category last))
          other_id
          status'
          category'
        ≡ err invalid_cursor_error
  unfolding decode_seller_cursor
  decode_seller_cursor-foreign seller_id other_id status status' category category' last h =
      simp (encode-is_blank, decode-encode) (ground arith)
