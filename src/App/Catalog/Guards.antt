-- ===== src/App/Catalog/Guards.antt =====
-- What reaches the repositories: the guards of the catalog's operations.
use keebhub.Prelude.{
  ℕ, ◌≡◌, ◌≢◌, ◌⊎◌, inl, inr, refl, true, false, Bool-cases, Option-cases, some, arith, ◌==◌,
  ==_iff,
}
use keebhub.Domain.Errors.{Error, Result, ok, err, not_found, forbidden}
use keebhub.Domain.Listing.{
  Listing, ListingStatus, status_eq, validate_listing_status, can_transition_listing_status,
}
use keebhub.Domain.Listing.Transitions.{IsLegalMove, can_transition_iff}
use keebhub.App.Exec.{continue}
use keebhub.App.Catalog.{ListingRepository, CatalogService}
use keebhub.App.Catalog.Service.{is_removed, move_listing, change_listing_status}

module _ {S : Type 0} (repository : ListingRepository S) (seller_id listing_id : ℕ)
    (status : ListingStatus) (now : ℕ) (s : S) where
  -- Why a call gives the error e.
  pub data Cause (e : Error) : Type 0 where
    is_unnamed : validate_listing_status status ≡ some e → Cause e
    is_unread : (s' : S) → repository.get_listing listing_id s ≡ (err e, s') → Cause e
    is_gone :
        (existing : Listing) (s' : S)
        → repository.get_listing listing_id s ≡ (ok existing, s')
        → is_removed existing.moderation_status ≡ true
        → e ≡ not_found
        → Cause e
    is_foreign :
        (existing : Listing) (s' : S)
        → repository.get_listing listing_id s ≡ (ok existing, s')
        → existing.seller_id ≢ seller_id
        → e ≡ forbidden
        → Cause e
    is_illegal :
        (existing : Listing) (s' : S)
        → repository.get_listing listing_id s ≡ (ok existing, s')
        → (IsLegalMove existing.status status → ⊥)
        → Cause e

  -- How a call of ChangeListingStatus on the state s can end.
  pub data Outcome (r : Result Listing × S) : Type 0 where
    -- an error, with nothing done but the read
    refused :
        (e : Error)
        → Cause e
        → r.0 ≡ err e
        → (r.1 ≡ s) ⊎ (r.1 ≡ (repository.get_listing listing_id s).1)
        → Outcome r
    -- the status is the present one: the listing as it was read
    kept :
        (existing : Listing) (s' : S)
        → repository.get_listing listing_id s ≡ (ok existing, s')
        → existing.seller_id ≡ seller_id
        → is_removed existing.moderation_status ≡ false
        → status_eq existing.status status ≡ true
        → r ≡ (ok existing, s')
        → Outcome r
    -- a legal move: what the repository's update gives
    written :
        (existing : Listing) (s' : S)
        → repository.get_listing listing_id s ≡ (ok existing, s')
        → existing.seller_id ≡ seller_id
        → is_removed existing.moderation_status ≡ false
        → status_eq existing.status status ≡ false
        → IsLegalMove existing.status status
        → r ≡ repository.update_owned_listing_status listing_id seller_id status now s'
        → Outcome r

  moved :
      (existing : Listing) (s' : S)
      → repository.get_listing listing_id s ≡ (ok existing, s')
      → Outcome (move_listing repository seller_id listing_id status now existing s')
  unfolding move_listing
  moved existing s' e = elim (Bool-cases (is_removed existing.moderation_status)) [
    | inl gone ↦
        simp gone (refused not_found (is_gone existing s' e gone refl) refl (inr (ground arith)))
    | inr seen ↦ simp seen (elim (Bool-cases (existing.seller_id == seller_id)) [
      | inr foreign ↦ simp foreign (
          refused forbidden (is_foreign existing s' e (ground arith) refl) refl
            (inr (ground arith)))
      | inl own ↦ simp own (elim (Bool-cases (status_eq existing.status status)) [
        | inl same ↦ simp same (kept existing s' e ((==_iff _ _).0 own) seen same refl)
        | inr other ↦
            simp other (elim (Bool-cases (can_transition_listing_status existing.status status)) [
              | inl legal ↦ simp legal (
                  written existing s' e ((==_iff _ _).0 own) seen other
                    ((can_transition_iff existing.status status).0 legal) refl)
              | inr illegal ↦ simp illegal (
                  refused _
                    (is_illegal existing s' e (λ m.
                      ground (arith, illegal, (can_transition_iff existing.status status).1 m)))
                    refl (inr (ground arith)))
            ])
      ])
    ])
  ]

  -- A status change is written only for an existing, visible listing of the seller, and only as a
  -- legal move to another status; an equal status returns the listing with no write. A call fails
  -- only for a status without a name, a failing read, a removed listing, one of another seller, or
  -- an illegal move, and has then done nothing beyond the read.
  pub change_listing_status-Outcome :
      (service : CatalogService S)
      → service.listings ≡ some repository
      → Outcome (change_listing_status service seller_id listing_id status now s)
  unfolding change_listing_status
  change_listing_status-Outcome service set_up =
      simp set_up (elim (Option-cases (validate_listing_status status)) [
        | inr (e, bad) ↦ simp bad (refused e (is_unnamed bad) refl (inl refl))
        | inl named ↦ simp named (after (repository.get_listing listing_id s) refl)
      ])
    where
      after :
          (r : Result Listing × S)
          → repository.get_listing listing_id s ≡ r
          → Outcome (continue r.0 (move_listing repository seller_id listing_id status now) r.1)
      after (ok existing, s') e = moved existing s' e
      after (err e, s') p = refused e (is_unread s' p) refl (inr (ground arith))
