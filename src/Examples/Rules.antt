-- ===== src/Examples/Rules.antt =====
-- The rules of internal/domain at concrete inputs.
use keebhub.Prelude.{◌≡◌, ◌≢◌, ◌↔◌, refl, arith, true, none, codes}
use keebhub.Domain.Listing.{sold, reserved, can_transition_listing_status}
use keebhub.Domain.Listing.Transitions.{IsLegalMove, can_transition_iff}
use keebhub.Domain.Handle.{normalize_handle, is_canonical_handle, handle_candidate}
use keebhub.Domain.Handle.Canonical.{normalize_handle-canonical}
use keebhub.Domain.Handle.Candidates.{handle_candidate-canonical, handle_candidate-distinct}
use keebhub.Domain.User.{DiscordIdentity}

can_transition_iff_example :
    (can_transition_listing_status sold reserved ≡ true) ↔ IsLegalMove sold reserved
can_transition_iff_example = can_transition_iff sold reserved

normalize_handle-canonical_example :
    is_canonical_handle (normalize_handle (codes "  Budi__Santoso!! ")) ≡ true
normalize_handle-canonical_example = normalize_handle-canonical (codes "  Budi__Santoso!! ")

handle_candidate-canonical_example : is_canonical_handle (handle_candidate (codes "budi") 12) ≡ true
unfolding is_canonical_handle
handle_candidate-canonical_example = handle_candidate-canonical (codes "budi") 12 refl (omega arith)

handle_candidate-distinct_example :
    handle_candidate (codes "budi") 12 ≢ handle_candidate (codes "siti") 13
handle_candidate-distinct_example =
    handle_candidate-distinct (codes "budi") (codes "siti") 12 13 (omega arith) (omega arith)
      (omega arith)

abbrev named : DiscordIdentity
named = record {
  id = codes "4242";
  username = codes "budi";
  display_name = codes "Budi";
  avatar_url = none;
}
