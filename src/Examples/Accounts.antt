-- ===== src/Examples/Accounts.antt =====
-- The login of the store at a concrete input.
use keebhub.Prelude.{ℕ, suc, ◌≡◌, refl, arith, none, some, codes, if◌then◌else◌, text_eq}
use keebhub.App.Auth.{LoginParams}
use keebhub.Postgres.Answers.{DatabaseError, row, fault, no_rows, postgres_error}
use keebhub.Postgres.Accounts.{AccountQueries, login}
use keebhub.Postgres.Accounts.Attempts.{LoopOutcome, login-LoopOutcome}
use keebhub.Examples.{siti}

-- The account is new and the handle "siti" is somebody else's.
abbrev queries : AccountQueries ℕ ℕ
queries = record {
  begin_transaction = λ n. (row tt, n);
  get_user_by_discord_id = λ id n. (fault no_rows, n);
  update_discord_identity = λ id identity now n. (row siti, suc n);
  create_user = λ identity handle n.
      if text_eq handle (codes "siti")
      then (fault (postgres_error "23505" "users_handle_lower_key"), n)
      else (row (record siti { handle = handle }), suc n);
  delete_session_by_hash = λ hash n. (row tt, suc n);
  create_session = λ user hash expires now n. (row tt, suc n);
  commit = λ n. (row tt, n);
  rollback = λ before n. before;
  touch_and_get_session_user = λ hash now n. (row siti, n);
}

abbrev params : LoginParams ℕ
params = record {
  identity = record {
    id = codes "42";
    username = codes "siti";
    display_name = codes "Siti";
    avatar_url = none;
  };
  handle_base = codes "siti";
  token_hash = 1;
  previous_token_hash = some 2;
  created_at = 500;
  expires_at = 600;
}

begin_keeps : (s t : ℕ) (e : DatabaseError) → queries.begin_transaction s ≡ (fault e, t) → t ≡ s
begin_keeps s t e h = absurd (ground arith)

login-LoopOutcome_example : LoopOutcome queries params (λ n. n) 1 1000 0 (login queries params 0)
login-LoopOutcome_example =
    login-LoopOutcome queries params (λ n. n) (λ before n. refl) begin_keeps 0
