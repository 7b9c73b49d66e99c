-- ===== src/App/Catalog/Search.antt =====
-- The laws of the public search: its cursors resume the same search only, and the
-- pattern that reaches the database matches the query literally.
use keebhub.Prelude.{
  ℕ, ◌<◌, ◌≡◌, refl, inl, inr, Bool, true, false, ◌||◌, Bool-cases, Option, none, some, [], ◌∷◌,
  arith, ◌==◌, if◌then◌else◌, ℤ, Within, eqb_ℤ_iff, Text, text_eq_refl, str_eq_refl,
}
use keebhub.Domain.Errors.{ok}
use keebhub.Domain.Listing.{Listing}
use keebhub.App.Cursor.{Codec, Clock}
use keebhub.App.Catalog.{ListingSort, newest, SearchFilters}
use keebhub.App.Catalog.Validation.{normalized_sort, valid_sort, escape_ilike, backslash}
use keebhub.App.Catalog.PublicPages.{
  PublicCursor, PublicPosition, decode_public_cursor, public_cursor, equal_int64_pointers,
}

equal_int64_pointers_refl : (p : Option ℤ) → equal_int64_pointers p p ≡ true
equal_int64_pointers_refl none = refl
equal_int64_pointers_refl (some a) = (eqb_ℤ_iff a a).1 refl

-- Where the next page of a search starts after a listing.
abbrev pub resumes : Listing → ListingSort → PublicPosition
resumes last newest = record {
  created_at = some last.created_at;
  price_idr = none;
  id = some last.id;
}
resumes last sort = record { created_at = none; price_idr = some last.price_idr; id = some last.id }

module _ (codec : Codec PublicCursor) (clock : Clock) where
  open codec use {encode, decode-encode, encode-is_blank}

  -- The cursor of a page, sent back with the same search, gives the position of the page's last
  -- listing in the search's order, for a listing with an identifier and a price in range.
  pub decode_public_cursor-encode :
      (last : Listing) (filters : SearchFilters)
      → 0 < last.id
      → Within 1 10_000_000_000 last.price_idr
      → valid_sort (normalized_sort filters.sort) ≡ true
      → decode_public_cursor codec clock (encode (public_cursor codec clock last filters)) filters
        ≡ ok (resumes last (normalized_sort filters.sort))
  unfolding decode_public_cursor public_cursor
  decode_public_cursor-encode last filters h k v =
      simp (encode-is_blank, decode-encode, text_eq_refl, str_eq_refl, equal_int64_pointers_refl)
        (ground (arith, clock.parse-format last.created_at))

-- LIKE with the escape character backslash: the texts that a pattern without wildcards stands for,
-- or none if a wildcard stands in it.
abbrev pub literal : Text → Option Text
literal [] = some []
literal (c ∷ []) = if c == backslash || c == b'%' || c == b'_' then none else some (c ∷ [])
literal (c ∷ d ∷ s) =
    let plain = literal (d ∷ s) in
    let escaped = literal s in
    if c == backslash
    then elim escaped [ none ↦ none | some t ↦ some (d ∷ t) ]
    else if c == b'%' || c == b'_'
    then none
    else elim plain [ none ↦ none | some t ↦ some (c ∷ t) ]

abbrev prepend : ℕ → Option Text → Option Text
prepend c none = none
prepend c (some t) = some (c ∷ t)

abbrev is_special : ℕ → Bool
is_special c = c == backslash || c == b'%' || c == b'_'

literal-plain : (c : ℕ) (t : Text) → is_special c ≡ false → literal (c ∷ t) ≡ prepend c (literal t)
literal-plain c [] h = ground arith
literal-plain c (d ∷ t) h = ground arith

literal-escaped : (c : ℕ) (t : Text) → literal (backslash ∷ c ∷ t) ≡ prepend c (literal t)
literal-escaped c t = ground arith

escape_ilike-cons :
    (c : ℕ) (s : Text)
    → escape_ilike (c ∷ s)
      ≡ (if is_special c then backslash ∷ c ∷ escape_ilike s else c ∷ escape_ilike s)
unfolding escape_ilike
escape_ilike-cons c s = ground arith

-- The escaped query is a LIKE pattern with no wildcard left, and it stands for the query itself.
pub literal-escape_ilike : (s : Text) → literal (escape_ilike s) ≡ some s
literal-escape_ilike [] = unfold escape_ilike in refl
literal-escape_ilike (c ∷ s) = elim (Bool-cases (is_special c)) [
  | inl special ↦
      rw (escape_ilike-cons c s, special) (rw literal-escaped (rw (literal-escape_ilike s)))
  | inr plain ↦
      rw (escape_ilike-cons c s, plain)
        (rw (literal-plain c (escape_ilike s) plain) (rw (literal-escape_ilike s)))
]
