-- ===== src/Postgres/Accounts.antt =====
-- internal/adapter/postgres/auth.go. The queries, and the beginning and the end of a transaction, are
-- parameters.
use keebhub.Prelude.{
  ℕ, zero, suc, ◌+◌, Bool, true, false, ◌&&◌, ◌||◌, Option, none, some, if◌then◌else◌, String,
  str_eq, Text,
}
use keebhub.Domain.Errors.{Error, user_disabled, invalid_session}
use keebhub.Domain.User.{User, is_disabled, DiscordIdentity}
use keebhub.Domain.Handle.{handle_candidate}
use keebhub.App.Auth.{LoginParams}
use keebhub.Postgres.Answers.{DatabaseError, no_rows, postgres_error, Answer, row, fault}
pub mod Attempts

abbrev pub maximum_handle_attempts : ℕ
maximum_handle_attempts = 1000

-- What a method of the store returns: an error of the domain, a database error with its context, or
-- that all handles were taken.
pub data StoreError : Type 0 where
  domain : Error → StoreError
  database : String → DatabaseError → StoreError
  exhausted : StoreError

pub data Reply (A : Type 0) : Type 0 where
  done : A → Reply A
  failed : StoreError → Reply A

-- The generated queries, the beginning, the commit and the rollback.
pub record AccountQueries (Hash S : Type 0) : Type 0 where
  pub begin_transaction : S → Answer (Unit {0}) × S
  pub get_user_by_discord_id : Text → S → Answer User × S
  pub update_discord_identity : ℕ → DiscordIdentity → ℕ → S → Answer User × S
  pub create_user : DiscordIdentity → Text → S → Answer User × S
  pub delete_session_by_hash : Hash → S → Answer (Unit {0}) × S
  pub create_session : ℕ → Hash → ℕ → ℕ → S → Answer (Unit {0}) × S
  pub commit : S → Answer (Unit {0}) × S
  -- the state before the transaction, and the one it is in
  pub rollback : S → S → S
  pub touch_and_get_session_user : Hash → ℕ → S → Answer User × S

unfoldable pub is_retryable_user_conflict : StoreError → Bool
is_retryable_user_conflict (database context (postgres_error code constraint)) =
    str_eq code "23505"
    && (str_eq constraint "users_handle_lower_key" || str_eq constraint "users_discord_id_key")
is_retryable_user_conflict e = false

module _ {S A B : Type 0} where
  abbrev pub answered : String → (A → S → Reply B × S) → Answer A × S → Reply B × S
  answered context next (row a, s) = next a s
  answered context next (fault e, s) = (failed (database context e), s)

module _ {Hash S : Type 0} (queries : AccountQueries Hash S) (params : LoginParams Hash) where
  abbrev pub finish : User → S → Reply User × S
  finish user s =
      answered "create session" (λ _ t. (done user, t))
        (queries.create_session user.id params.token_hash params.expires_at params.created_at s)

  abbrev pub replace_session : User → S → Reply User × S
  replace_session user s = elim params.previous_token_hash [
    | none ↦ finish user s
    | some hash ↦
        answered "replace previous session" (λ _. finish user)
          (queries.delete_session_by_hash hash s)
  ]

  -- The switch on the result of GetUserByDiscordID.
  abbrev pub admit_user : Text → Answer User × S → Reply User × S
  admit_user handle (row user, s) =
      if is_disabled user.status
      then (failed (domain user_disabled), s)
      else answered "update Discord identity" replace_session
          (queries.update_discord_identity user.id params.identity params.created_at s)
  admit_user handle (fault no_rows, s) =
      answered "create user" replace_session (queries.create_user params.identity handle s)
  admit_user handle (fault e, s) = (failed (database "find Discord user" e), s)

  -- `defer tx.Rollback(ctx)` on a return before the commit. After the call of Commit the transaction
  -- is closed, and the deferred Rollback does nothing, whatever Commit answered.
  abbrev pub ended : S → Reply User × S → Reply User × S
  ended before (failed e, s) = (failed e, queries.rollback before s)
  ended before (done user, s) =
      answered "commit authentication transaction" (λ _ t. (done user, t)) (queries.commit s)

  -- loginAttempt once the transaction has begun.
  abbrev pub begun : Text → S → Answer (Unit {0}) × S → Reply User × S
  begun handle before (fault e, s) = (failed (database "begin authentication transaction" e), s)
  begun handle before (row _, s) =
      ended before (admit_user handle (queries.get_user_by_discord_id params.identity.id s))

  unfoldable pub login_attempt : Text → S → Reply User × S
  login_attempt handle s = begun handle s (queries.begin_transaction s)

  -- One round of the loop, given what the rounds after it give.
  abbrev pub or_retry : Reply User × S → Reply User × S → Reply User × S
  or_retry (done user, s) rest = (done user, s)
  or_retry (failed e, s) rest = if is_retryable_user_conflict e then rest else (failed e, s)

  -- The loop from an attempt on; the fuel counts the attempts that are left.
  unfoldable pub attempts : ℕ → ℕ → S → Reply User × S
  unfolding login_attempt is_retryable_user_conflict
  attempts zero attempt s = (failed exhausted, s)
  attempts (suc left) attempt s =
      or_retry (login_attempt (handle_candidate params.handle_base attempt) s) (
        attempts left (attempt + 1)
          (login_attempt (handle_candidate params.handle_base attempt) s).1)

  unfoldable pub login : S → Reply User × S
  unfolding attempts
  login s = attempts maximum_handle_attempts 1 s

module _ {Hash S : Type 0} (queries : AccountQueries Hash S) where
  -- The end of Authenticate.
  abbrev pub session_user : Answer User × S → Reply User × S
  session_user (row user, s) =
      if is_disabled user.status then (failed (domain user_disabled), s) else (done user, s)
  session_user (fault no_rows, s) = (failed (domain invalid_session), s)
  session_user (fault e, s) = (failed (database "authenticate session" e), s)

  unfoldable pub authenticate_session : Hash → ℕ → S → Reply User × S
  authenticate_session hash now s = session_user (queries.touch_and_get_session_user hash now s)

  unfoldable pub delete_session : Hash → S → Reply (Unit {0}) × S
  delete_session hash s =
      answered "delete session" (λ _ t. (done tt, t)) (queries.delete_session_by_hash hash s)
