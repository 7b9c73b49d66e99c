-- ===== src/Http/Auth/ReturnTo.antt =====
-- internal/adapter/httpapi/auth.go: the addresses that validateReturnTo lets through.
use keebhub.Prelude.{
  ◌≤◌, ◌≡◌, ◌⊎◌, inl, inr, refl, sym, subst, Bool, true, false, not, ◌||◌, Option, none, some, [],
  ◌∷◌, arith, ◌==◌, if◌then◌else◌, every, Text, codes, is_empty, byte_len, ltb→le,
}
use keebhub.Http.Auth.{
  RequestUri, has_prefix, is_control, is_reserved, maximum_return_to, return_to_checked,
  validate_return_to,
}

-- A path of this site: no browser takes it for an address on another one.
pub record IsInternal (value : Text) : Type 0 where
  pub rooted : has_prefix value (codes "/") ≡ true
  pub not_relative : has_prefix value (codes "//") ≡ false
  pub no_backslash : every (λ c. not (c == b'\\')) value ≡ true
  pub no_control : every (λ c. not (is_control c)) value ≡ true
  pub short : byte_len value ≤ 2048

-- What the parser says of an address that is let through.
pub record IsPage (uri : RequestUri) : Type 0 where
  pub relative : uri.is_abs ≡ false
  pub no_host : is_empty uri.host ≡ true
  pub no_user : uri.has_user ≡ false
  pub not_reserved : is_reserved uri.path ≡ false

pub root_IsInternal : IsInternal (codes "/")
root_IsInternal = record {
  rooted = refl;
  not_relative = refl;
  no_backslash = refl;
  no_control = refl;
  short = omega arith;
}

pub if_none :
    {A : Type 0} (b : Bool) (o : Option A) (a : A)
    → (if b then none else o) ≡ some a
    → (b ≡ false) × (o ≡ some a)
if_none true o a h = absurd (ground arith)
if_none false o a h = (refl, h)

pub or_false : (a b : Bool) → (a || b) ≡ false → (a ≡ false) × (b ≡ false)
or_false a b h = ground arith

pub not-false : (b : Bool) → not b ≡ false → b ≡ true
not-false b h = ground arith

module _ (parse_request_uri : Text → Option RequestUri) where
  -- An address that is let through, other than the default.
  abbrev pub LetThrough : Text → Text → Type 0
  LetThrough value target =
      (target ≡ value) × ((uri : RequestUri) × (parse_request_uri value ≡ some uri) × IsPage uri)

  checked_lem :
      (value target : Text) (uri : Option RequestUri)
      → return_to_checked value uri ≡ some target
      → (target ≡ value) × ((u : RequestUri) × (uri ≡ some u) × IsPage u)
  checked_lem value target none h = absurd (ground arith)
  checked_lem value target (some u) h =
      let (plain, h') = if_none _ _ target h in
      let (free, h'') = if_none _ _ target h' in
      let (plain', single) = or_false _ _ plain in
      let (plain'', no_user) = or_false _ _ plain' in
      let (a, b) = or_false _ _ plain'' in
      (
        cc h'',
        (
          u,
          refl,
          record { relative = a; no_host = not-false _ b; no_user = no_user; not_reserved = free },
        ),
      )

  -- What validateReturnTo lets through is a path of this site: it starts with one slash, has
  -- neither a backslash nor a control character and at most 2048 bytes. It is the value itself,
  -- which the parser reads as a path that is none of the backend's, or, for an empty value, the
  -- root.
  pub validate_return_to-IsInternal :
      (value target : Text)
      → validate_return_to parse_request_uri value ≡ some target
      → IsInternal target × (((value ≡ []) × (target ≡ codes "/")) ⊎ LetThrough value target)
  unfolding validate_return_to
  validate_return_to-IsInternal [] target h =
      let e : codes "/" ≡ target = ground arith in
      (subst IsInternal e root_IsInternal, inl (refl, sym e))
  validate_return_to-IsInternal (c ∷ s) target h =
      let (fine, h') = if_none _ _ target h in
      let (clean, h'') = if_none _ _ target h' in
      let (fine', slashes) = or_false _ _ fine in
      let (fine'', single) = or_false _ _ fine' in
      let (short, rooted) = or_false _ _ fine'' in
      let (same, page) = checked_lem (c ∷ s) target (parse_request_uri (c ∷ s)) h'' in
      (
        subst IsInternal (sym same) (record {
          rooted = not-false _ rooted;
          not_relative = single;
          no_backslash = not-false _ slashes;
          no_control = not-false _ clean;
          short = ltb→le maximum_return_to (byte_len (c ∷ s)) short;
        }),
        inr (same, page),
      )
