-- ===== src/Postgres/Accounts/Attempts.antt =====
-- The login of the store: which handle it takes, and what its attempts leave.
use keebhub.Prelude.{
  ℕ, zero, suc, ◌+◌, ◌<◌, ◌≡◌, ◌⊎◌, inl, inr, refl, arith, true, false, Bool-cases, Text,
}
use keebhub.Domain.User.{User}
use keebhub.Domain.Handle.{handle_candidate}
use keebhub.App.Auth.{LoginParams}
use keebhub.Postgres.Answers.{DatabaseError, Answer, row, fault}
use keebhub.Postgres.Accounts.{
  StoreError, database, exhausted, Reply, done, failed, AccountQueries, is_retryable_user_conflict,
  answered, ended, begun, or_retry, login_attempt, attempts, login,
}

-- The database failed while it committed. Whether the transaction took effect is not known then.
pub data AtCommit : StoreError → Type 0 where
  at_commit : (e : DatabaseError) → AtCommit (database "commit authentication transaction" e)

module _ {Hash S V : Type 0} (queries : AccountQueries Hash S) (params : LoginParams Hash)
    (view : S → V) where
  abbrev tried : ℕ → S → Reply User × S
  tried attempt s = login_attempt queries params (handle_candidate params.handle_base attempt) s

  -- What is seen of the database is as it was, or its commit failed.
  abbrev pub Kept : S → StoreError → S → Type 0
  Kept s e t = (view t ≡ view s) ⊎ AtCommit e

  -- The attempts from one on up to another, each of which failed on a handle or an account that
  -- somebody else has just taken, and the states they led through.
  pub data Conflicts : ℕ → ℕ → S → S → Type 0 where
    none_yet : {first last : ℕ} {s : S} → first ≡ last → Conflicts first last s s
    conflict :
        {first last : ℕ} {s t u : S} (e : StoreError)
        → tried first s ≡ (failed e, t)
        → is_retryable_user_conflict e ≡ true
        → Kept s e t
        → Conflicts (first + 1) last t u
        → Conflicts first last s u

  -- How the attempts from `first` on, `left` of them, can end.
  pub data LoopOutcome (first left : ℕ) (s : S) (r : Reply User × S) : Type 0 where
    -- every attempt met a conflict
    all_taken :
        (t : S)
        → Conflicts first (first + left) s t
        → r ≡ (failed exhausted, t)
        → LoopOutcome first left s r
    -- an attempt failed for another reason
    broken :
        (attempt : ℕ) (e : StoreError) (t u : S)
        → attempt < first + left
        → Conflicts first attempt s t
        → tried attempt t ≡ (failed e, u)
        → is_retryable_user_conflict e ≡ false
        → Kept t e u
        → r ≡ (failed e, u)
        → LoopOutcome first left s r
    committed :
        (attempt : ℕ) (user : User) (t u v : S)
        → attempt < first + left
        → Conflicts first attempt s t
        → tried attempt t ≡ (done user, v)
        → queries.commit u ≡ (row tt, v)
        → r ≡ (done user, v)
        → LoopOutcome first left s r

  -- What follows an attempt that met a conflict is how the loop ends.
  later :
      (left first : ℕ) {s t : S} {r : Reply User × S} (e : StoreError)
      → tried first s ≡ (failed e, t)
      → is_retryable_user_conflict e ≡ true
      → Kept s e t
      → LoopOutcome (first + 1) left t r
      → LoopOutcome first (suc left) s r
  later left first e p taken kept (all_taken u before q) =
      all_taken u (conflict e p taken kept (moved before)) q
    where
      moved :
          {a b : S}
          → Conflicts (first + 1) (first + 1 + left) a b
          → Conflicts (first + 1) (first + suc left) a b
      moved c = let same : first + 1 + left ≡ first + suc left = omega arith in rw (← same) c
  later left first e p taken kept (broken attempt e' u v low before q final kept' end) =
      broken attempt e' u v (omega arith) (conflict e p taken kept before) q final kept' end
  later left first e p taken kept (committed attempt user u v w low before q c end) =
      committed attempt user u v w (omega arith) (conflict e p taken kept before) q c end

  module _ (restores : (before s : S) → view (queries.rollback before s) ≡ view before)
      (begin_keeps : (s t : S) (e : DatabaseError)
        → queries.begin_transaction s ≡ (fault e, t)
        → view t ≡ view s) where
    -- How one attempt ends.
    pub data Attempted (s : S) : Reply User × S → Type 0 where
      gave_up : (e : StoreError) (t : S) → Kept s e t → Attempted s (failed e, t)
      went_through :
          (user : User) (t u : S) → queries.commit t ≡ (row tt, u) → Attempted s (done user, u)

    answered-Attempted :
        (s t : S) (user : User) (r : Answer (Unit {0}) × S)
        → queries.commit t ≡ r
        → Attempted s (answered "commit authentication transaction" (λ _ u. (done user, u)) r)
    answered-Attempted s t user (row tt, u) e = went_through user t u e
    answered-Attempted s t user (fault e, u) p = gave_up _ u (inr (at_commit e))

    ended-Attempted : (s : S) (r : Reply User × S) → Attempted s (ended queries params s r)
    ended-Attempted s (failed e, t) = gave_up e _ (inl (restores s t))
    ended-Attempted s (done user, t) = answered-Attempted s t user (queries.commit t) refl

    begun-Attempted :
        (handle : Text) (s : S) (r : Answer (Unit {0}) × S)
        → queries.begin_transaction s ≡ r
        → Attempted s (begun queries params handle s r)
    begun-Attempted handle s (fault e, t) p = gave_up _ t (inl (begin_keeps s t e p))
    begun-Attempted handle s (row b, t) p = ended-Attempted s _

    login_attempt-Attempted :
        (handle : Text) (s : S) → Attempted s (login_attempt queries params handle s)
    unfolding login_attempt
    login_attempt-Attempted handle s = begun-Attempted handle s (queries.begin_transaction s) refl

    attempts_lem :
        (left first : ℕ) (s : S) → LoopOutcome first left s (attempts queries params left first s)
    unfolding attempts
    attempts_lem zero first s = all_taken s (none_yet (omega arith)) refl
    attempts_lem (suc left) first s =
        go (tried first s) refl
          (login_attempt-Attempted (handle_candidate params.handle_base first) s)
          (attempts_lem left (first + 1))
      where
        go :
            (r : Reply User × S)
            → tried first s ≡ r
            → Attempted s r
            → ((t : S)
                → LoopOutcome (first + 1) left t (attempts queries params left (first + 1) t))
            → LoopOutcome first
                (suc left)
                s
                (or_retry queries params r (attempts queries params left (first + 1) r.1))
        go r e (went_through user t u c) rest =
            committed first user s t u (omega arith) (none_yet refl) e c refl
        go r p (gave_up e t kept) rest = elim (Bool-cases (is_retryable_user_conflict e)) [
          | inr final ↦
              simp final (broken first e s t (omega arith) (none_yet refl) p final kept refl)
          | inl taken ↦ simp taken (later left first e p taken kept (rest t))
        ]

    -- A login is the first of a thousand attempts, each with the next handle, that does not meet a
    -- conflict with another account: it commits, or fails for another reason, or all attempts met
    -- one. An attempt that fails leaves what is seen of the database as it was, unless it failed at
    -- its commit; it is what a rollback restores, and a transaction that does not begin leaves it.
    pub login-LoopOutcome : (s : S) → LoopOutcome 1 1000 s (login queries params s)
    unfolding login
    login-LoopOutcome s = attempts_lem 1000 1 s
