-- ===== src/Http/Errors/Answers.antt =====
-- internal/adapter/httpapi: which of an error's texts a client sees.
use keebhub.Prelude.{◌≤◌, ◌<◌, ◌≡◌, ◌∙◌, Bool, true, false, refl, sym, arith}
use keebhub.Domain.Errors.{
  Error, validation, query, not_found, forbidden, conflict, user_disabled, invalid_session,
  authentication_unavailable, discord_unavailable, listing_unavailable, self_conversation,
  invalid_read_target, wrapped,
}
use keebhub.Http.Errors.{
  ErrorBody, api, internal_body, root, chat_error_by, chat_error, classify_error,
}

-- The errors that a user of the chat can cause.
abbrev pub is_expected : Error → Bool
is_expected (validation fields) = true
is_expected (query fields) = true
is_expected not_found = true
is_expected forbidden = true
is_expected self_conversation = true
is_expected listing_unavailable = true
is_expected invalid_read_target = true
is_expected user_disabled = true
is_expected (wrapped context e) = is_expected e
is_expected e = false

-- How the response to an error is: expected errors have a status of the client's, and all others
-- the same body, without a text of theirs.
pub data Shown (e : Error) (body : ErrorBody) : Type 0 where
  expected : is_expected e ≡ true → 400 ≤ body.status → body.status < 500 → Shown e body
  hidden : is_expected e ≡ false → body ≡ internal_body → Shown e body

chat_error_by-Shown :
    (e r : Error) → Shown (root r) (classify_error (api (chat_error_by e (root r))))
unfolding classify_error
chat_error_by-Shown e (validation fields) = expected refl (omega arith) (omega arith)
chat_error_by-Shown e (query fields) = expected refl (omega arith) (omega arith)
chat_error_by-Shown e not_found = expected refl (omega arith) (omega arith)
chat_error_by-Shown e forbidden = expected refl (omega arith) (omega arith)
chat_error_by-Shown e self_conversation = expected refl (omega arith) (omega arith)
chat_error_by-Shown e listing_unavailable = expected refl (omega arith) (omega arith)
chat_error_by-Shown e invalid_read_target = expected refl (omega arith) (omega arith)
chat_error_by-Shown e user_disabled = expected refl (omega arith) (omega arith)
chat_error_by-Shown e (wrapped context r) = chat_error_by-Shown e r
chat_error_by-Shown e conflict = hidden refl refl
chat_error_by-Shown e invalid_session = hidden refl refl
chat_error_by-Shown e authentication_unavailable = hidden refl refl
chat_error_by-Shown e discord_unavailable = hidden refl refl
chat_error_by-Shown e (Error.other text) = hidden refl refl

is_expected-root : (e : Error) → is_expected (root e) ≡ is_expected e
is_expected-root (wrapped context e) = is_expected-root e
is_expected-root e = refl

root-Shown : (e : Error) (body : ErrorBody) → Shown (root e) body → Shown e body
root-Shown e body (expected h low high) = expected (sym (is_expected-root e) ∙ h) low high
root-Shown e body (hidden h same) = hidden (sym (is_expected-root e) ∙ h) same

-- The response to an error of the chat has a status from 400 to 499 where the error is one that a
-- user can cause, however often it was wrapped; any other error is answered with status 500 and
-- the same body, which has none of its text.
pub chat_error-Shown : (e : Error) → Shown e (classify_error (api (chat_error e)))
unfolding chat_error
chat_error-Shown e = root-Shown e (classify_error (api (chat_error e))) (chat_error_by-Shown e e)
