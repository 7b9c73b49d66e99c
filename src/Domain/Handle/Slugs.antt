-- ===== src/Domain/Handle/Slugs.antt =====
-- Lists of handle runes with no leading and no doubled dash, and what trimming and cutting do to them.
use keebhub.Prelude.{
  ℕ, zero, suc, ◌+◌, ◌≤◌, ◌≡◌, refl, Bool, true, false, ◌&&◌, ◌||◌, [], ◌∷◌, ◌++◌, arith,
  if◌then◌else◌, length, take, every, Text, byte_len, byte_prefix, utf8_width, is_empty, trim_left,
  trim_right,
}
use keebhub.Domain.Handle.{is_dash, is_handle_rune, starts_with_dash, ends_with_dash}

abbrev pub doubles_dash : Text → Bool
doubles_dash [] = false
doubles_dash (c ∷ s) = (is_dash c && starts_with_dash s) || doubles_dash s

pub record IsSlug (s : Text) : Type 0 where
  pub runes : every is_handle_rune s ≡ true
  pub start : starts_with_dash s ≡ false
  pub single : doubles_dash s ≡ false

pub utf8_width-handle_rune : (c : ℕ) → is_handle_rune c ≡ true → utf8_width c ≡ 1
unfolding is_handle_rune
utf8_width-handle_rune c h = ground arith

-- Handles are ASCII: their bytes are their runes.
pub byte_len-slug : (s : Text) → every is_handle_rune s ≡ true → byte_len s ≡ length s
byte_len-slug [] h = refl
byte_len-slug (c ∷ s) h = ground (arith, utf8_width-handle_rune c, byte_len-slug s)

pub byte_prefix-slug :
    (n : ℕ) (s : Text) → every is_handle_rune s ≡ true → byte_prefix n s ≡ take n s
byte_prefix-slug zero [] h = refl
byte_prefix-slug (suc n) [] h = refl
byte_prefix-slug zero (c ∷ s) h = ground (arith, utf8_width-handle_rune c)
byte_prefix-slug (suc n) (c ∷ s) h = ground (arith, utf8_width-handle_rune c, byte_prefix-slug n s)

pub ends_with_dash-append :
    (s : Text) (c : ℕ) (t : Text) → ends_with_dash (s ++ c ∷ t) ≡ ends_with_dash (c ∷ t)
ends_with_dash-append [] c t = refl
ends_with_dash-append (d ∷ []) c t = refl
ends_with_dash-append (d ∷ e ∷ s) c t = ends_with_dash-append (e ∷ s) c t

pub starts_with_dash-snoc :
    (s : Text) (c : ℕ)
    → starts_with_dash (s ++ c ∷ []) ≡ (if is_empty s then is_dash c else starts_with_dash s)
starts_with_dash-snoc [] c = refl
starts_with_dash-snoc (d ∷ s) c = refl

pub doubles_dash-snoc :
    (s : Text) (c : ℕ)
    → doubles_dash (s ++ c ∷ []) ≡ (doubles_dash s || (ends_with_dash s && is_dash c))
doubles_dash-snoc [] c = ground arith
doubles_dash-snoc (d ∷ []) c = ground arith
doubles_dash-snoc (d ∷ e ∷ s) c = ground (arith, doubles_dash-snoc (e ∷ s) c)

pub doubles_dash-take :
    (n : ℕ) (s : Text) → doubles_dash s ≡ false → doubles_dash (take n s) ≡ false
doubles_dash-take zero s h = refl
doubles_dash-take (suc n) [] h = refl
doubles_dash-take (suc zero) (c ∷ s) h = ground arith
doubles_dash-take (suc (suc n)) (c ∷ []) h = ground arith
doubles_dash-take (suc (suc n)) (c ∷ d ∷ s) h = ground (arith, doubles_dash-take (suc n) (d ∷ s))

pub starts_with_dash-take :
    (n : ℕ) (s : Text) → starts_with_dash s ≡ false → starts_with_dash (take n s) ≡ false
starts_with_dash-take zero s h = refl
starts_with_dash-take (suc n) [] h = refl
starts_with_dash-take (suc n) (c ∷ s) h = h

pub every-trim_right :
    (p q : ℕ → Bool) (s : Text) → every p s ≡ true → every p (trim_right q s) ≡ true
unfolding trim_right
every-trim_right p q [] h = refl
every-trim_right p q (c ∷ s) h = ground (arith, every-trim_right p q s)

pub ends_with_dash-trim_right : (s : Text) → ends_with_dash (trim_right is_dash s) ≡ false
unfolding trim_right
ends_with_dash-trim_right [] = refl
ends_with_dash-trim_right (c ∷ s) = step (trim_right is_dash s) (ends_with_dash-trim_right s)
  where
    step :
        (t : Text)
        → ends_with_dash t ≡ false
        → ends_with_dash (if is_dash c && is_empty t then [] else c ∷ t) ≡ false
    step [] h = ground arith
    step (d ∷ t) h = ground arith

pub starts_with_dash-trim_right :
    (s : Text) → starts_with_dash s ≡ false → starts_with_dash (trim_right is_dash s) ≡ false
unfolding trim_right
starts_with_dash-trim_right [] h = refl
starts_with_dash-trim_right (c ∷ s) h = ground arith

pub length-trim_right : (s : Text) → length (trim_right is_dash s) ≤ length s
unfolding trim_right
length-trim_right [] = omega arith
length-trim_right (c ∷ s) = ground (arith, length-trim_right s)

-- With no doubled dash at most one rune goes.
pub length-trim_right_single :
    (s : Text) → doubles_dash s ≡ false → length s ≤ length (trim_right is_dash s) + 1
unfolding trim_right
length-trim_right_single [] h = omega arith
length-trim_right_single (c ∷ []) h = ground arith
length-trim_right_single (c ∷ d ∷ s) h = ground (arith, length-trim_right_single (d ∷ s))

pub trim_left-slug : (s : Text) → starts_with_dash s ≡ false → trim_left is_dash s ≡ s
unfolding trim_left
trim_left-slug [] h = refl
trim_left-slug (c ∷ s) h = ground arith
