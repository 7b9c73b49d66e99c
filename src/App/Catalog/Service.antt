-- ===== src/App/Catalog/Service.antt =====
-- internal/app/catalog.go: the operations of CatalogService that change or read single listings.
use keebhub.Prelude.{
  ℕ, Bool, true, false, not, ◌&&◌, Option, none, some, List, [], ◌∷◌, String, ◌==◌, if◌then◌else◌,
  Text, trim_space,
}
use keebhub.Domain.Errors.{
  Result, ok, err, validation, not_found, forbidden, conflict, wrapped, is_not_found,
}
use keebhub.Domain.Listing.{
  Category, Listing, ListingStatus, ModerationStatus, archived, removed, status_eq,
  normalize_category_slug, validate_listing_status, can_transition_listing_status,
}
use keebhub.App.Exec.{Exec, pure, raise, configured, require, ◌>>=◌, ◌>>◌}
use keebhub.App.Catalog.{
  CreateListingInput, CreateListingParams, UpdateListingInput, CategoryRepository,
  ListingRepository, CatalogService,
}
use keebhub.App.Catalog.Validation.{validate_create_input, validate_update_input, has_updates}

abbrev pub is_removed : ModerationStatus → Bool
is_removed removed = true
is_removed status = false

abbrev pub is_archived : ListingStatus → Bool
is_archived archived = true
is_archived status = false

abbrev pub missing_repositories : String
missing_repositories = "catalog repositories are not configured"

abbrev pub normalize_create_input : CreateListingInput → CreateListingInput
normalize_create_input input = record input {
  title = trim_space input.title;
  category_slug = normalize_category_slug input.category_slug;
}

abbrev pub map_option {ℓ κ} : {A : Type ℓ} {B : Type κ} → (A → B) → Option A → Option B
map_option f none = none
map_option f (some a) = some (f a)

abbrev pub normalize_update_input : UpdateListingInput → UpdateListingInput
normalize_update_input input = record input {
  title = map_option trim_space input.title;
  category_slug = map_option normalize_category_slug input.category_slug;
}

-- viewer_id == nil || *viewer_id != seller_id
abbrev pub is_stranger : Option ℕ → ℕ → Bool
is_stranger none seller_id = true
is_stranger (some viewer_id) seller_id = not (viewer_id == seller_id)

abbrev pub create_params : ℕ → CreateListingInput → ℕ → Category → CreateListingParams
create_params seller_id raw now category = record {
  seller_id = seller_id;
  category_id = category.id;
  title = (normalize_create_input raw).title;
  description = raw.description;
  price_idr = raw.price_idr;
  quantity = raw.quantity;
  condition = raw.condition;
  negotiable = raw.negotiable;
  created_at = now;
  updated_at = now;
}

module _ {S : Type 0} where
  unfoldable pub list_categories : CatalogService S → Exec S (List Category)
  list_categories service = do
    categories ← configured service.categories "category repository is not configured"
    categories.list_active_categories

  -- The translation of FindActiveCategoryBySlug's errors.
  unfoldable pub category_result : Result Category × S → Result Category × S
  category_result (ok category, s) = (ok category, s)
  category_result (err e, s) =
      if is_not_found e
      then (err (validation (("category_slug", "must identify an active category") ∷ [])), s)
      else (err (wrapped "find active category" e), s)

  unfoldable pub find_category : CategoryRepository S → Text → Exec S Category
  unfolding category_result
  find_category categories slug s = category_result (categories.find_active_category_by_slug slug s)

  unfoldable pub create_listing : CatalogService S → ℕ → CreateListingInput → ℕ → Exec S Listing
  unfolding find_category
  create_listing service seller_id raw now = do
    categories ← configured service.categories missing_repositories
    listings ← configured service.listings missing_repositories
    require (validate_create_input (normalize_create_input raw))
    category ← find_category categories (normalize_create_input raw).category_slug
    listings.create_listing (create_params seller_id raw now category)

  -- `existing` may be changed by the seller.
  abbrev pub require_own : Listing → ℕ → Exec S (Unit {0})
  require_own existing seller_id =
      if is_removed existing.moderation_status
      then raise not_found
      else if existing.seller_id == seller_id
      then pure tt
      else raise forbidden

  abbrev pub find_category_id : CategoryRepository S → Option Text → Exec S (Option ℕ)
  find_category_id categories none = pure none
  find_category_id categories (some slug) =
      find_category categories slug >>= λ category. pure (some category.id)

  unfoldable pub update_listing : CatalogService S → ℕ → ℕ → UpdateListingInput → ℕ → Exec S Listing
  unfolding find_category has_updates
  update_listing service seller_id listing_id raw now = do
    categories ← configured service.categories missing_repositories
    listings ← configured service.listings missing_repositories
    require (
        if has_updates raw
        then none
        else some (validation (("body", "must include at least one listing field") ∷ [])))
    require (validate_update_input (normalize_update_input raw))
    existing ← listings.get_listing listing_id
    require_own existing seller_id
    category_id ← find_category_id categories (normalize_update_input raw).category_slug
    listings.update_owned_listing (record {
      listing_id = listing_id;
      seller_id = seller_id;
      category_id = category_id;
      title = (normalize_update_input raw).title;
      description = raw.description;
      price_idr = raw.price_idr;
      quantity = raw.quantity;
      condition = raw.condition;
      negotiable = raw.negotiable;
      updated_at = now;
    })

  -- The part of ChangeListingStatus that follows the read.
  unfoldable pub move_listing :
      ListingRepository S → ℕ → ℕ → ListingStatus → ℕ → Listing → Exec S Listing
  move_listing listings seller_id listing_id status now existing = do
    require_own existing seller_id
    if status_eq existing.status status
        then pure existing
        else if can_transition_listing_status existing.status status
        then listings.update_owned_listing_status listing_id seller_id status now
        else raise (wrapped "cannot transition" conflict)

  unfoldable pub change_listing_status :
      CatalogService S → ℕ → ℕ → ListingStatus → ℕ → Exec S Listing
  unfolding move_listing
  change_listing_status service seller_id listing_id status now = do
    listings ← configured service.listings "listing repository is not configured"
    require (validate_listing_status status)
    existing ← listings.get_listing listing_id
    move_listing listings seller_id listing_id status now existing

  unfoldable pub get_listing : CatalogService S → ℕ → Option ℕ → Exec S Listing
  get_listing service listing_id viewer_id = do
    listings ← configured service.listings "listing repository is not configured"
    listing ← listings.get_listing listing_id
    if is_removed listing.moderation_status
        then raise not_found
        else if is_archived listing.status && is_stranger viewer_id listing.seller_id
        then raise not_found
        else pure listing
