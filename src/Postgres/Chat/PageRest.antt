-- ===== src/Postgres/Chat/PageRest.antt =====
-- internal/generated/db/chat.sql.go: what a page of messages leaves for the next one.
use keebhub.Prelude.{
  ℕ, zero, suc, ◌≤◌, ◌≡◌, ◌∙◌, refl, sym, ap, Bool, true, false, none, some, List, [], ◌∷◌, ◌++◌,
  arith, keep, every, every-take, last?, take, ltb, length, length-append, if◌then◌else◌,
}
use keebhub.Prelude.Rows.{rising}
use keebhub.Domain.Chat.{Message}

abbrev pub newer : ℕ → Message → Bool
newer after_id m = ltb after_id m.id

pub keep-every : (p : Message → Bool) (ms : List Message) → every p ms ≡ true → keep p ms ≡ ms
keep-every p [] h = refl
keep-every p (m ∷ ms) h = ground (arith, keep-every p ms)

keep_first :
    (x : Message) (xs : List Message)
    → every (newer x.id) xs ≡ true
    → keep (newer x.id) (x ∷ xs) ≡ xs
keep_first x xs h = ground (arith, keep-every (newer x.id) xs h)

pub every-last? :
    (p : Message → Bool) (ms : List Message) (m : Message)
    → every p ms ≡ true
    → last? ms ≡ some m
    → p m ≡ true
every-last? p [] m h e = absurd (ground arith)
every-last? p (x ∷ []) m h e = ground arith
every-last? p (x ∷ y ∷ ys) m h e = every-last? p (y ∷ ys) m (ground arith) e

-- What a page leaves are the messages after its last one.
pub page_rest :
    (n : ℕ) (ms : List Message) (m : Message)
    → rising Message.id ms ≡ true
    → last? (take n ms) ≡ some m
    → ms ≡ take n ms ++ keep (newer m.id) ms
page_rest zero ms m h e = absurd (ground arith)
page_rest (suc n) [] m h e = absurd (ground arith)
page_rest (suc zero) (x ∷ xs) m h e = ground (arith, keep_first x xs (ground arith))
page_rest (suc (suc n)) (x ∷ []) m h e = ground arith
page_rest (suc (suc n)) (x ∷ y ∷ ys) m h e =
    let above : every (newer x.id) (y ∷ ys) ≡ true = ground arith in
    let later =
      every-last? (newer x.id) (take (suc n) (y ∷ ys)) m
        (every-take (newer x.id) (suc n) (y ∷ ys) above) e in
    let rest = page_rest (suc n) (y ∷ ys) m (ground arith) e in
    let old : newer m.id x ≡ false = ground arith in
    let left = keep (newer m.id) (y ∷ ys) in
    ap (λ ns. x ∷ ns) rest
    ∙ ap (λ b. x ∷ (take (suc n) (y ∷ ys) ++ (if b then x ∷ left else left))) (sym old)

pub page_empty : (n : ℕ) (ms : List Message) → 1 ≤ n → last? (take n ms) ≡ none → ms ≡ []
page_empty zero ms h e = absurd (omega arith)
page_empty (suc n) [] h e = refl
page_empty (suc zero) (x ∷ xs) h e = absurd (ground arith)
page_empty (suc (suc n)) (x ∷ []) h e = absurd (ground arith)
page_empty (suc (suc n)) (x ∷ y ∷ ys) h e =
    absurd (ground (arith, page_empty (suc n) (y ∷ ys) (omega arith) e))

pub newer-newer :
    (a b : ℕ) (ms : List Message) → a ≤ b → keep (newer b) (keep (newer a) ms) ≡ keep (newer b) ms
newer-newer a b [] h = refl
newer-newer a b (m ∷ ms) h = ground (arith, newer-newer a b ms h)

pub every-newer : (a : ℕ) (ms : List Message) → every (newer a) (keep (newer a) ms) ≡ true
every-newer a [] = refl
every-newer a (m ∷ ms) = ground (arith, every-newer a ms)

pub length-pos_last : (ms : List Message) (m : Message) → last? ms ≡ some m → 1 ≤ length ms
length-pos_last [] m e = absurd (ground arith)
length-pos_last (x ∷ xs) m e = omega arith

pub empty_of : (ms : List Message) → length ms ≤ 0 → [] ≡ ms
empty_of [] h = refl
empty_of (m ∷ ms) h = absurd (omega arith)

take_all : (ms : List Message) → take (length ms) ms ≡ ms
take_all [] = refl
take_all (m ∷ ms) = ap (λ ns. m ∷ ns) (take_all ms)

-- Nothing comes after the last message.
pub newer_last :
    (ms : List Message) (m : Message)
    → rising Message.id ms ≡ true
    → last? ms ≡ some m
    → keep (newer m.id) ms ≡ []
newer_last ms m h e =
    let split = page_rest (length ms) ms m h (ap last? (take_all ms) ∙ e) in
    let sizes = ap length split ∙ length-append (take (length ms) ms) (keep (newer m.id) ms) in
    let same = ap length (take_all ms) in sym (empty_of (keep (newer m.id) ms) (omega arith))
