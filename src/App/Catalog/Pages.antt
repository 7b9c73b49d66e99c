-- ===== src/App/Catalog/Pages.antt =====
-- The part that ownedListingPage, publicListingPage and sellerListingPage share: cut the extra row
-- off and name the last listing kept in a cursor.
use keebhub.Prelude.{
  ℕ, zero, suc, ◌≤◌, ◌<◌, ◌≡◌, refl, ◌⊎◌, inl, inr, Bool-cases, none, some, List, [], ◌∷◌, arith,
  leb, leb→le, if◌then◌else◌, length, length-take, take, last?,
}
use keebhub.Domain.Listing.{Listing}
use keebhub.App.Catalog.{ListingPage}

module _ {Token : Type 0} (cursor : Listing → Token) where
  -- The slice rows[:limit] has a last element, since 1 ≤ limit < len(rows).
  unfoldable pub cut_page : List Listing → ℕ → ListingPage Token
  cut_page rows limit =
      if leb (length rows) limit then record { items = rows; next_cursor = none } else record {
        items = take limit rows;
        next_cursor = elim (last? (take limit rows)) [
          | none ↦ none
          | some last ↦ some (cursor last)
        ];
      }

  -- At most `limit` of the rows, from the first on. There is a next cursor exactly when rows are
  -- left over, and it is that of the last listing on the page.
  pub record IsPage (rows : List Listing) (limit : ℕ) (page : ListingPage Token) : Type 0 where
    pub prefix : page.items ≡ take limit rows
    pub size : length page.items ≤ limit
    pub next :
        ((length rows ≤ limit) × (page.next_cursor ≡ none))
        ⊎ ((limit < length rows)
            × ((last : Listing) × (last? page.items ≡ some last)
                × (page.next_cursor ≡ some (cursor last))))

pub take-all {ℓ} : {A : Type ℓ} (n : ℕ) (xs : List A) → length xs ≤ n → take n xs ≡ xs
take-all zero [] h = refl
take-all (suc n) [] h = refl
take-all zero (x ∷ xs) h = absurd (omega arith)
take-all (suc n) (x ∷ xs) h = rw (take-all n xs (omega arith))

pub last?-take {ℓ} :
    {A : Type ℓ} (n : ℕ) (xs : List A)
    → 0 < n
    → n < length xs
    → (a : A) × (last? (take n xs) ≡ some a)
last?-take zero xs h k = absurd (omega arith)
last?-take (suc n) [] h k = absurd (omega arith)
last?-take (suc zero) (x ∷ xs) h k = (x, refl)
last?-take (suc (suc n)) (x ∷ []) h k = absurd (omega arith)
last?-take (suc (suc n)) (x ∷ y ∷ xs) h k = last?-take (suc n) (y ∷ xs) (omega arith) (omega arith)

module _ {Token : Type 0} (cursor : Listing → Token) where
  pub cut_page-IsPage :
      (rows : List Listing) (limit : ℕ)
      → 0 < limit
      → IsPage cursor rows limit (cut_page cursor rows limit)
  unfolding cut_page
  cut_page-IsPage rows limit h = elim (Bool-cases (leb (length rows) limit)) [
    | inl short ↦
        let fits = leb→le (length rows) limit short in
        rw short
          (record { prefix = rw (take-all limit rows fits); size = fits; next = inl (fits, refl) })
    | inr long ↦
        let more : limit < length rows = ground arith in
        let (last, e) = last?-take limit rows h more in
        rw (long) (record {
          prefix = refl;
          size = omega (arith, length-take {0} limit rows);
          next = inr (more, (last, e, rw e));
        })
  ]
