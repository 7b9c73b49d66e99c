-- ===== src/App/Catalog/Options.antt =====
-- internal/app/catalog.go: what validateSearchOptions accepts.
use keebhub.Prelude.{
  ◌+◌, ◌≤◌, ◌≡◌, ◌↔◌, ◌⊎◌, refl, Bool, true, false, not, Option, none, some, [], ◌∷◌, arith, ltb,
  String, ℤ, pos, negsuc, pos_part, neg_part, Within, rune_count,
}
use keebhub.Domain.Errors.{Fields, Result, ok, err, query}
use keebhub.Domain.Listing.{ListingCondition, new, used, validate_listing_condition}
use keebhub.App.Catalog.{ListingSort, newest, price_asc, price_desc, unset, SearchFilters}
use keebhub.App.Catalog.Validation.{
  validate_page_limit, validate_search_options, normalized_sort, valid_sort, price_outside,
  prices_crossed, put_if, condition_invalid, search_messages,
}

-- A bound on prices, where it is given, is a price that a listing can have.
abbrev pub IsPriceBound : Option ℤ → Type 0
IsPriceBound none = Unit
IsPriceBound (some price) = Within 1 10_000_000_000 price

-- low ≤ high, where both are given.
abbrev pub AreOrdered : Option ℤ → Option ℤ → Type 0
AreOrdered (some low) (some high) = pos_part low + neg_part high ≤ pos_part high + neg_part low
AreOrdered low high = Unit

-- The number of listings on a page: the limit, from 1 to 100, or 20 for zero.
abbrev pub AsksFor : ℤ → ℤ → Type 0
AsksFor limit n = ((limit ≡ pos 0) × (n ≡ pos 20)) ⊎ (Within 1 100 limit × (n ≡ limit))

-- The rules on a search.
pub record IsSearchable (filters : SearchFilters) : Type 0 where
  pub short : rune_count filters.query ≤ 100
  pub known :
      (filters.condition ≡ none)
      ⊎ ((filters.condition ≡ some new) ⊎ (filters.condition ≡ some used))
  pub minimum : IsPriceBound filters.minimum_price
  pub maximum : IsPriceBound filters.maximum_price
  pub ordered : AreOrdered filters.minimum_price filters.maximum_price
  pub sorted :
      (filters.sort ≡ unset)
      ⊎ ((filters.sort ≡ newest) ⊎ ((filters.sort ≡ price_asc) ⊎ (filters.sort ≡ price_desc)))

put_if_iff :
    {P : Type 0} (b : Bool) (name message : String) (fields : Fields)
    → (fields ≡ []) ↔ P
    → (put_if b name message fields ≡ []) ↔ ((b ≡ false) × P)
put_if_iff true name message fields (f, g) =
    (λ h. absurd (ground arith), λ p. absurd (ground (arith, p.0)))
put_if_iff false name message fields (f, g) = (λ h. (refl, f h), λ p. g p.1)

price_outside_iff : (price : Option ℤ) → (price_outside price ≡ false) ↔ IsPriceBound price
price_outside_iff none = ground arith
price_outside_iff (some (pos n)) = ground arith
price_outside_iff (some (negsuc n)) = ground arith

prices_crossed_iff : (low high : Option ℤ) → (prices_crossed low high ≡ false) ↔ AreOrdered low high
prices_crossed_iff none high = ground arith
prices_crossed_iff (some low) none = ground arith
prices_crossed_iff (some low) (some high) = ground arith

condition_invalid_iff :
    (filters : SearchFilters)
    → (condition_invalid filters ≡ false) ↔ (
        (filters.condition ≡ none)
        ⊎ ((filters.condition ≡ some new) ⊎ (filters.condition ≡ some used)))
unfolding validate_listing_condition
condition_invalid_iff filters = go filters.condition refl
  where
    go :
        (c : Option ListingCondition)
        → filters.condition ≡ c
        → (condition_invalid filters ≡ false) ↔ (
            (filters.condition ≡ none)
            ⊎ ((filters.condition ≡ some new) ⊎ (filters.condition ≡ some used)))
    go none e = ground arith
    go (some new) e = ground arith
    go (some used) e = ground arith
    go (some (ListingCondition.other s)) e = ground arith

valid_sort_iff :
    (sort : ListingSort)
    → (not (valid_sort (normalized_sort sort)) ≡ false)
      ↔ ((sort ≡ unset) ⊎ ((sort ≡ newest) ⊎ ((sort ≡ price_asc) ⊎ (sort ≡ price_desc))))
unfolding valid_sort normalized_sort
valid_sort_iff newest = ground arith
valid_sort_iff price_asc = ground arith
valid_sort_iff price_desc = ground arith
valid_sort_iff unset = ground arith
valid_sort_iff (ListingSort.other s) = ground arith

query_iff :
    (filters : SearchFilters)
    → (put_if (ltb 100 (rune_count filters.query)) "q" "must be at most 100 characters" [] ≡ [])
      ↔ (rune_count filters.query ≤ 100)
query_iff filters = ground arith

search_messages_iff :
    (filters : SearchFilters) → (search_messages filters ≡ []) ↔ IsSearchable filters
unfolding search_messages
search_messages_iff filters =
    let (f, g) = put_if_iff (not (valid_sort (normalized_sort filters.sort))) _ _ _ (
      put_if_iff (prices_crossed filters.minimum_price filters.maximum_price) _ _ _ (
        put_if_iff (price_outside filters.maximum_price) _ _ _ (
          put_if_iff (price_outside filters.minimum_price) _ _ _
            (put_if_iff (condition_invalid filters) _ _ _ (query_iff filters))))) in
    let sort_iff = valid_sort_iff filters.sort in
    let order_iff = prices_crossed_iff filters.minimum_price filters.maximum_price in
    let high_iff = price_outside_iff filters.maximum_price in
    let low_iff = price_outside_iff filters.minimum_price in
    let known_iff = condition_invalid_iff filters in
    (
      λ h.
          let (sorted, (ordered, (high, (low, (known, short))))) = f h in
          record {
            short = short;
            known = known_iff.0 known;
            minimum = low_iff.0 low;
            maximum = high_iff.0 high;
            ordered = order_iff.0 ordered;
            sorted = sort_iff.0 sorted;
          },
      λ v. g (
        sort_iff.1 v.sorted,
        (
          order_iff.1 v.ordered,
          (high_iff.1 v.maximum, (low_iff.1 v.minimum, (known_iff.1 v.known, v.short))),
        ),
      ),
    )

validate_page_limit_iff : (limit n : ℤ) → (validate_page_limit limit ≡ ok n) ↔ AsksFor limit n
unfolding validate_page_limit
validate_page_limit_iff (pos l) n = ground arith
validate_page_limit_iff (negsuc l) n = ground arith

-- Search options are accepted, with a number of listings for the page, exactly when this number is
-- the limit, from 1 to 100, or 20 for a limit of zero, the query has at most 100 characters, the
-- condition is new or used where it is given, each bound on prices is from 1 to 10,000,000,000 and
-- the lower one not above the upper one where they are given, and the order is one of the three that
-- there are, or left out.
pub validate_search_options_iff :
    (filters : SearchFilters) (limit n : ℤ)
    → (validate_search_options filters limit ≡ ok n) ↔ (AsksFor limit n × IsSearchable filters)
unfolding validate_search_options
validate_search_options_iff filters limit n =
    let (f, g) = search_messages_iff filters in
    let limit_iff = validate_page_limit_iff limit n in
    go (validate_page_limit limit) (search_messages filters) limit_iff (f, g)
  where
    go :
        (r : Result ℤ) (fields : Fields)
        → (r ≡ ok n) ↔ AsksFor limit n
        → (fields ≡ []) ↔ IsSearchable filters
        → (elim r [
          | err e ↦ err e
          | ok m ↦ elim fields [ [] ↦ ok m | f ∷ rest ↦ err (query (f ∷ rest)) ]
        ]
            ≡ ok n)
          ↔ (AsksFor limit n × IsSearchable filters)
    go (err e) fields (f, g) q =
        (λ h. absurd (ground arith), λ p. let bad = g p.0 in absurd (ground arith))
    go (ok m) [] (f, g) (f', g') = (λ h. (f h, f' refl), λ p. g p.0)
    go (ok m) (x ∷ rest) p (f', g') =
        (λ h. absurd (ground arith), λ p. let bad = g' p.1 in absurd (ground arith))
