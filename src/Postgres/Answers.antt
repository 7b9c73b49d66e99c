-- ===== src/Postgres/Answers.antt =====
-- What a query of pgx answers.
use keebhub.Prelude.{String}

-- pgx.ErrNoRows, a pgconn.PgError by its code and constraint, and any other failure.
pub data DatabaseError : Type 0 where
  no_rows : DatabaseError
  postgres_error : String → String → DatabaseError
  unexpected : String → DatabaseError

pub data Answer (A : Type 0) : Type 0 where
  row : A → Answer A
  fault : DatabaseError → Answer A
