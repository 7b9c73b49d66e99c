-- ===== src/Domain/Handle/Canonical.antt =====
-- NormalizeHandle always gives a canonical handle.
use keebhub.Prelude.{
  ℕ, ◌≤◌, ◌≡◌, refl, Bool, true, false, ◌&&◌, ◌||◌, not, [], ◌∷◌, ◌++◌, map, arith, ltb,
  if◌then◌else◌, ltb→lt, ltb→le, ◌⊎◌, Bool-cases, inl, inr, length, length-take, take, every,
  every-append, every-take, Text, codes, byte_len, is_empty, trim, trim_right,
}
use keebhub.Domain.Handle.{
  dash, is_dash, is_letter_or_digit, is_handle_rune, starts_with_dash, ends_with_dash, to_lower,
  slug_step, slug_loop, pad_short, cut_long, normalize_handle, is_canonical_handle,
}
use keebhub.Domain.Handle.Slugs.{
  IsSlug, doubles_dash, byte_len-slug, byte_prefix-slug, starts_with_dash-snoc, doubles_dash-snoc,
  ends_with_dash-append, doubles_dash-take, starts_with_dash-take, every-trim_right,
  ends_with_dash-trim_right, starts_with_dash-trim_right, length-trim_right,
  length-trim_right_single, trim_left-slug,
}

-- The loop's invariant: the second component tells whether the first ends with a separator.
record Loop (st : Text × Bool) : Type 0 where
  slug : IsSlug st.0
  separator : ends_with_dash st.0 ≡ st.1

snoc-IsSlug :
    (s : Text) (c : ℕ)
    → IsSlug s
    → is_handle_rune c ≡ true
    → (if is_empty s then is_dash c else ends_with_dash s && is_dash c) ≡ false
    → IsSlug (s ++ c ∷ [])
snoc-IsSlug s c v h k = record {
  runes = ground (arith, v.runes, every-append is_handle_rune s (c ∷ []));
  start = rw starts_with_dash-snoc (ground (arith, v.start));
  single = rw doubles_dash-snoc (last s v k);
}
  where
    last :
        (t : Text)
        → IsSlug t
        → (if is_empty t then is_dash c else ends_with_dash t && is_dash c) ≡ false
        → (doubles_dash t || (ends_with_dash t && is_dash c)) ≡ false
    last [] w k = refl
    last (d ∷ t) w k = ground (arith, w.single)

slug_step-Loop : (st : Text × Bool) (c : ℕ) → Loop st → Loop (slug_step st c)
unfolding slug_step
slug_step-Loop (s, prev) c v = elim (Bool-cases (is_letter_or_digit c)) [
  | inl letter ↦ rw letter (record {
    slug =
        snoc-IsSlug s c v.slug (unfold is_handle_rune in ground arith)
          (unfold is_letter_or_digit in ground arith);
    separator = rw ends_with_dash-append (unfold is_letter_or_digit in ground arith);
  })
  | inr none ↦ rw none (other s prev v)
]
  where
    other :
        (s : Text) (prev : Bool)
        → Loop (s, prev)
        → Loop (if not (is_empty s) && not prev then (s ++ dash ∷ [], true) else (s, prev))
    other [] prev v = v
    other (d ∷ s) true v = v
    other (d ∷ s) false v = record {
      slug =
          snoc-IsSlug (d ∷ s) dash v.slug (unfold is_handle_rune in refl)
            (ground (arith, v.separator));
      separator = ends_with_dash-append (d ∷ s) dash [];
    }

slug_loop-Loop : (st : Text × Bool) (s : Text) → Loop st → Loop (slug_loop st s)
unfolding slug_loop
slug_loop-Loop st [] v = v
slug_loop-Loop st (c ∷ s) v = slug_loop-Loop (slug_step st c) s (slug_step-Loop st c v)

-- What the loop leaves, once its last dash is trimmed.
record IsTrimmed (s : Text) : Type 0 where
  slug : IsSlug s
  stop : ends_with_dash s ≡ false

doubles_dash-trim_right :
    (s : Text) → doubles_dash s ≡ false → doubles_dash (trim_right is_dash s) ≡ false
unfolding trim_right
doubles_dash-trim_right [] h = refl
doubles_dash-trim_right (c ∷ []) h = ground arith
doubles_dash-trim_right (c ∷ d ∷ s) h = ground (arith, doubles_dash-trim_right (d ∷ s))

trim-IsTrimmed : (s : Text) → IsSlug s → IsTrimmed (trim is_dash s)
unfolding trim
trim-IsTrimmed s v = rw (trim_left-slug s v.start) (record {
  slug = record {
    runes = every-trim_right is_handle_rune is_dash s v.runes;
    start = starts_with_dash-trim_right s v.start;
    single = doubles_dash-trim_right s v.single;
  };
  stop = ends_with_dash-trim_right s;
})

-- At least three runes, and no dash at the start.
record IsLong (s : Text) : Type 0 where
  slug : IsSlug s
  stop : ends_with_dash s ≡ false
  size : 3 ≤ length s

keep-IsLong : (s : Text) → IsTrimmed s → 3 ≤ length s → IsLong s
keep-IsLong s v h = record { slug = v.slug; stop = v.stop; size = h }

pad_short-IsLong : (s : Text) → IsTrimmed s → IsLong (pad_short s)
unfolding pad_short is_handle_rune is_letter_or_digit
pad_short-IsLong [] v = record {
  slug = record { runes = refl; start = refl; single = refl };
  stop = refl;
  size = omega arith;
}
pad_short-IsLong (c ∷ s) v =
    rw (byte_len-slug (c ∷ s) v.slug.runes)
      (by_length (c ∷ s) v (Bool-cases (ltb (length (c ∷ s)) 3)))
  where
    by_length :
        (t : Text)
        → IsTrimmed t
        → (ltb (length t) 3 ≡ true) ⊎ (ltb (length t) 3 ≡ false)
        → IsLong (
            if ltb (length t) 3 then if is_empty t then codes "user" else codes "user-" ++ t else t)
    by_length [] v d = record {
      slug = record { runes = refl; start = refl; single = refl };
      stop = refl;
      size = omega arith;
    }
    by_length (c ∷ []) v d = record {
      slug = record {
        runes = ground (arith, v.slug.runes);
        start = refl;
        single = ground (arith, v.slug.start);
      };
      stop = v.stop;
      size = omega arith;
    }
    by_length (c ∷ d ∷ []) v _ = record {
      slug = record {
        runes = ground (arith, v.slug.runes);
        start = refl;
        single = ground (arith, v.slug.start, v.slug.single);
      };
      stop = v.stop;
      size = omega arith;
    }
    by_length (c ∷ d ∷ e ∷ t) v (inl short) = absurd (ground arith)
    by_length (c ∷ d ∷ e ∷ t) v (inr long) = rw long (keep-IsLong _ v (ground arith))

pub canonical_of_parts :
    (s : Text)
    → every is_handle_rune s ≡ true
    → starts_with_dash s ≡ false
    → ends_with_dash s ≡ false
    → 3 ≤ length s
    → length s ≤ 40
    → is_canonical_handle s ≡ true
unfolding is_canonical_handle
canonical_of_parts s runes start stop low high = rw (byte_len-slug s runes) (ground arith)

pub parts_of_canonical :
    (s : Text)
    → is_canonical_handle s ≡ true
    → (every is_handle_rune s ≡ true)
      × (starts_with_dash s ≡ false)
      × (ends_with_dash s ≡ false)
      × (3 ≤ length s)
      × (length s ≤ 40)
unfolding is_canonical_handle
parts_of_canonical s h =
    let runes : every is_handle_rune s ≡ true = ground arith in
    ground (arith, runes, byte_len-slug s runes)

cut_long-canonical : (s : Text) → IsLong s → is_canonical_handle (cut_long s) ≡ true
unfolding cut_long
cut_long-canonical s v = elim (Bool-cases (ltb 40 (byte_len s))) [
  | inl long ↦
      rw (long, byte_prefix-slug 40 s v.slug.runes)
        (canonical_of_parts _
          (every-trim_right is_handle_rune is_dash _ (every-take is_handle_rune 40 s v.slug.runes))
          (starts_with_dash-trim_right _ (starts_with_dash-take 40 s v.slug.start))
          (ends_with_dash-trim_right _)
          (omega (
            arith,
            ltb→lt _ _ long,
            byte_len-slug s v.slug.runes,
            length-take {0} 40 s,
            length-trim_right_single (take 40 s) (doubles_dash-take 40 s v.slug.single),
          ))
          (omega (arith, length-trim_right (take 40 s), length-take {0} 40 s)))
  | inr short ↦ rw short (
      canonical_of_parts s v.slug.runes v.slug.start v.stop v.size
        (omega (arith, ltb→le _ _ short, byte_len-slug s v.slug.runes)))
]

-- Whatever the Discord user name, the normalised handle is canonical: 3 to 40 bytes of lower-case
-- ASCII letters, digits and dashes, with no dash at either end.
pub normalize_handle-canonical :
    (username : Text) → is_canonical_handle (normalize_handle username) ≡ true
unfolding normalize_handle
normalize_handle-canonical username =
    let start : Loop ([], false) = record {
      slug = record { runes = refl; start = refl; single = refl };
      separator = refl;
    } in
    cut_long-canonical _ (
      pad_short-IsLong _
        (trim-IsTrimmed _ (slug_loop-Loop ([], false) (map to_lower username) start).slug))
