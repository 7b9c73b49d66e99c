-- ===== src/App/Exec.antt =====
-- Calls that read and change the outside world (the database, the event broker) and may fail.
use keebhub.Prelude.{Option, none, some, String}
use keebhub.Domain.Errors.{Error, Result, ok, err}

-- What a failing call has changed stays changed.
abbrev pub Exec : Type 0 → Type 0 → Type 0
Exec S A = S → Result A × S

module _ {S A : Type 0} where
  abbrev pub pure : A → Exec S A
  pure a s = (ok a, s)

  abbrev pub raise : Error → Exec S A
  raise e s = (err e, s)

  abbrev pub lift : Result A → Exec S A
  lift r s = (r, s)

  -- A dependency that may be nil: `if s.dependency == nil { return errors.New(…) }`
  abbrev pub configured : Option A → String → Exec S A
  configured none message s = (err (Error.other message), s)
  configured (some a) message s = (ok a, s)

module _ {S A B : Type 0} where
  abbrev pub continue : Result A → (A → Exec S B) → Exec S B
  continue (ok a) f s = f a s
  continue (err e) f s = (err e, s)

  infixl 5 ◌>>=◌ ◌>>◌
  abbrev pub ◌>>=◌ : Exec S A → (A → Exec S B) → Exec S B
  ◌>>=◌ m f s = let (r, s') = m s in continue r f s'

  abbrev pub ◌>>◌ : Exec S A → Exec S B → Exec S B
  m >> n = m >>= λ _. n

-- `if err := check; err != nil { return err }`
abbrev pub require : {S : Type 0} → Option Error → Exec S (Unit {0})
require none s = (ok tt, s)
require (some e) s = (err e, s)
