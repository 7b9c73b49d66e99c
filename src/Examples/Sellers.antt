-- ===== src/Examples/Sellers.antt =====
-- Profiles and the seller's catalog at concrete inputs.
use keebhub.Prelude.{ℕ, suc, ◌≡◌, refl, arith, true, false, none, some, [], if◌then◌else◌, codes}
use keebhub.Domain.Errors.{ok, err}
use keebhub.Domain.Listing.{active}
use keebhub.App.Cursor.{plain_codec, plain_clock}
use keebhub.App.Catalog.OwnedPages.{invalid_cursor_error}
use keebhub.App.Seller.{
  UpdateProfileInput, SellerRepository, SellerService, SellerCursor, update_profile,
  decode_seller_cursor, seller_cursor, valid_seller_cursor_rank, seller_status_rank,
}
use keebhub.App.Seller.Profiles.{Outcome, update_profile-Outcome}
use keebhub.App.Seller.Laws.{decode_seller_cursor-encode}
use keebhub.Domain.Errors.{not_found}
use keebhub.Examples.{siti, keyboard}

abbrev repository : SellerRepository ℕ
repository = record {
  update_profile = λ p n. (ok (record siti { location = p.location; bio = p.bio }), suc n);
  get_seller_profile = λ handle n. (err not_found, n);
}

abbrev service : SellerService ℕ
service = record { repository = some repository; catalog = none }

abbrev input : UpdateProfileInput
input = record {
  location = record { present = true; value = some (codes " Bandung ") };
  bio = record { present = false; value = none };
}

update_profile-Outcome_example :
    Outcome repository siti input 500 0 (update_profile service siti input 500 0)
update_profile-Outcome_example = update_profile-Outcome repository siti input 500 0 service refl

decode_seller_cursor-encode_example :
    decode_seller_cursor
      (plain_codec SellerCursor)
      plain_clock
      (some (seller_cursor (plain_codec SellerCursor) plain_clock 7 none [] (keyboard active)))
      7
      none
      []
    ≡ (if valid_seller_cursor_rank (seller_status_rank active) none
        then ok
            (record { rank = some (seller_status_rank active); updated_at = some 200; id = some 5 })
        else err invalid_cursor_error)
decode_seller_cursor-encode_example =
    decode_seller_cursor-encode (plain_codec SellerCursor) plain_clock 7 none [] (keyboard active)
      (omega arith)
