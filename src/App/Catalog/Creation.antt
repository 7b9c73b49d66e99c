-- ===== src/App/Catalog/Creation.antt =====
-- What CreateListing hands to the repository.
use keebhub.Prelude.{
  ℕ, ◌≡◌, inl, inr, none, arith, [], ◌∷◌, if◌then◌else◌, refl, Bool-cases, Option-cases, some,
  trim_space,
}
use keebhub.Domain.Errors.{Error, Result, ok, err, validation, wrapped, is_not_found}
use keebhub.Domain.Listing.{Category, Listing, normalize_category_slug}
use keebhub.App.Exec.{continue}
use keebhub.App.Catalog.{
  CreateListingInput, CreateListingParams, CategoryRepository, ListingRepository, CatalogService,
}
use keebhub.App.Catalog.Validation.{validate_create_input}
use keebhub.App.Catalog.Rules.{IsListable, validate_create_input_iff}
use keebhub.App.Catalog.Service.{
  find_category, category_result, normalize_create_input, create_params, create_listing,
}

-- The error for a category that is not found.
abbrev pub category_error : Error → Error
category_error cause =
    if is_not_found cause
    then validation (("category_slug", "must identify an active category") ∷ [])
    else wrapped "find active category" cause

module _ {S : Type 0} (categories : CategoryRepository S) (listings : ListingRepository S)
    (seller_id : ℕ) (raw : CreateListingInput) (now : ℕ) (s : S) where
  -- The input, trimmed, follows the rules.
  abbrev pub IsAcceptable : Type 0
  IsAcceptable =
      IsListable (trim_space raw.title) raw.description (trim_space raw.category_slug) raw.price_idr
        raw.quantity raw.condition

  -- The listing that is stored: the seller's, in this category, dated now, with the values
  -- of the input, which follow the rules, and a trimmed title.
  pub record IsCreated (category : Category) (p : CreateListingParams) : Type 0 where
    pub seller : p.seller_id ≡ seller_id
    pub categorised : p.category_id ≡ category.id
    pub title : p.title ≡ trim_space raw.title
    pub description : p.description ≡ raw.description
    pub price : p.price_idr ≡ raw.price_idr
    pub quantity : p.quantity ≡ raw.quantity
    pub condition : p.condition ≡ raw.condition
    pub negotiable : p.negotiable ≡ raw.negotiable
    pub created : p.created_at ≡ now
    pub updated : p.updated_at ≡ now
    pub acceptable : IsAcceptable

  -- How a call of CreateListing on the state s can end.
  pub data Outcome (r : Result Listing × S) : Type 0 where
    -- nothing is asked of a repository
    invalid : (e : Error) → ¬ IsAcceptable → r ≡ (err e, s) → Outcome r
    no_category :
        (cause : Error) (s' : S)
        → IsAcceptable
        → categories.find_active_category_by_slug (trim_space raw.category_slug) s ≡ (err cause, s')
        → r ≡ (err (category_error cause), s')
        → Outcome r
    stored :
        (category : Category) (p : CreateListingParams) (s' : S)
        → categories.find_active_category_by_slug (trim_space raw.category_slug) s
          ≡ (ok category, s')
        → IsCreated category p
        → r ≡ listings.create_listing p s'
        → Outcome r

  category_found :
      IsAcceptable
      → (r : Result Category × S)
      → categories.find_active_category_by_slug (trim_space raw.category_slug) s ≡ r
      → Outcome (
          let (found, s') = category_result r in
          continue found
            (λ category. listings.create_listing (create_params seller_id raw now category))
            s')
  unfolding category_result
  category_found v (ok category, s') e =
      stored category (create_params seller_id raw now category) s' e
        (record {
          seller = refl;
          categorised = refl;
          title = refl;
          description = refl;
          price = refl;
          quantity = refl;
          condition = refl;
          negotiable = refl;
          created = refl;
          updated = refl;
          acceptable = v;
        })
        refl
  category_found v (err e, s') p = elim (Bool-cases (is_not_found e)) [
    | inl missing ↦ simp missing (no_category e s' v p (simp missing refl))
    | inr broken ↦ simp broken (no_category e s' v p (simp broken refl))
  ]

  -- The repository is asked to create a listing only for this seller and now, with the values of
  -- the input, its title trimmed, which follow the rules, in the category found for its trimmed slug,
  -- and its answer is the call's. A call fails before that only where a value breaks a rule, and
  -- changes nothing then, or where the category is not found, and changes no more than that lookup.
  pub create_listing-Outcome :
      (service : CatalogService S)
      → service.categories ≡ some categories
      → service.listings ≡ some listings
      → Outcome (create_listing service seller_id raw now s)
  unfolding create_listing find_category normalize_category_slug
  create_listing-Outcome service has_categories has_listings =
      simp (has_categories, has_listings)
        (elim (Option-cases (validate_create_input (normalize_create_input raw))) [
          | inr (e, bad) ↦ simp bad (
              invalid e
                (λ v.
                  let fine = (validate_create_input_iff (normalize_create_input raw)).1 v in
                  let clash : some e ≡ none = cc (bad, fine) in ground arith)
                refl)
          | inl valid ↦ simp valid (
              category_found ((validate_create_input_iff (normalize_create_input raw)).0 valid) _
                refl)
        ])
