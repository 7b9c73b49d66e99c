-- ===== src/Domain/Listing/Transitions.antt =====
-- The status machine of a listing, against its description as a lifecycle.
use keebhub.Prelude.{ℕ, ◌≤◌, ◌≡◌, ◌⊎◌, ◌↔◌, true, arith}
use keebhub.Domain.Listing.{
  ListingStatus, active, reserved, sold, archived, can_transition_listing_status,
}

-- One of the four statuses that the program names.
abbrev pub IsNamed : ListingStatus → Type 0
IsNamed (ListingStatus.other s) = ⊥
IsNamed s = Unit

-- The place of a status in the life of a listing.
abbrev pub stage : ListingStatus → ℕ
stage active = 0
stage reserved = 1
stage sold = 2
stage archived = 3
stage (ListingStatus.other s) = 4

abbrev pub IsLegalMove : ListingStatus → ListingStatus → Type 0
IsLegalMove from to = IsNamed from × IsNamed to × ((to ≡ active) ⊎ (stage from ≤ stage to))

-- A listing may change its status exactly between the four named statuses, forward in its life or
-- back to active: a sold listing is never reserved, and an archived one only becomes active.
pub can_transition_iff :
    (from to : ListingStatus) → (can_transition_listing_status from to ≡ true) ↔ IsLegalMove from to
unfolding can_transition_listing_status
can_transition_iff (ListingStatus.other s) (ListingStatus.other t) = ground arith
can_transition_iff from to = ground arith
