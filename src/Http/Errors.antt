-- ===== src/Http/Errors.antt =====
-- internal/adapter/httpapi/error.go, and chatError of internal/adapter/httpapi/chat.go.
use keebhub.Prelude.{ℕ, ◌==◌, if◌then◌else◌, Option, none, some, [], ◌∷◌, String}
use keebhub.Domain.Errors.{
  Error, validation, query, not_found, forbidden, self_conversation, listing_unavailable,
  invalid_read_target, user_disabled, wrapped, Fields,
}
pub mod Answers

-- Error of error.go; the cause is not shown to the client.
pub record HttpError : Type 0 where
  pub status : ℕ
  pub code : String
  pub message : String
  pub fields : Fields
  pub cause : Option Error

-- What a handler returns in place of a response: an error of this package, or one of echo by its status.
pub data Failure : Type 0 where
  api : HttpError → Failure
  echo : ℕ → Failure

-- The status and the body of an error's response, but for the identifier of the request.
pub record ErrorBody : Type 0 where
  pub status : ℕ
  pub code : String
  pub message : String
  pub fields : Fields

abbrev pub plain : ℕ → String → String → ErrorBody
plain status code message = record { status = status; code = code; message = message; fields = [] }

abbrev pub internal_body : ErrorBody
internal_body = plain 500 "internal_error" "An unexpected server error occurred."

-- The switch of classifyError.
abbrev pub echo_body : ℕ → ErrorBody
echo_body status =
    if status == 400
    then plain 400 "bad_request" "The request was malformed."
    else if status == 401
    then plain 401 "authentication_required" "Authentication is required."
    else if status == 403
    then plain 403 "forbidden" "This operation is not allowed."
    else if status == 404
    then plain 404 "not_found" "The requested resource was not found."
    else if status == 405
    then plain 405 "method_not_allowed" "The request method is not allowed."
    else if status == 413
    then plain 413 "request_too_large" "The request body is too large."
    else if status == 415
    then plain 415 "unsupported_media_type" "The request content type is not supported."
    else if status == 429
    then plain 429 "rate_limited" "Too many requests."
    else if status == 502
    then plain 502 "upstream_failure" "An external service request failed."
    else if status == 503
    then plain 503 "service_unavailable" "The service is temporarily unavailable."
    else internal_body

unfoldable pub classify_error : Failure → ErrorBody
classify_error (api e) = record {
  status = e.status;
  code = e.code;
  message = e.message;
  fields = e.fields;
}
classify_error (echo status) = echo_body status

abbrev pub unauthorized : Failure
unauthorized = echo 401

abbrev pub caused : ℕ → String → String → Fields → Error → HttpError
caused status code message fields e = record {
  status = status;
  code = code;
  message = message;
  fields = fields;
  cause = some e;
}

abbrev pub internal_error : Error → HttpError
internal_error e = caused 500 "internal_error" "An unexpected server error occurred." [] e

abbrev pub conversation_not_found_error : HttpError
conversation_not_found_error = record {
  status = 404;
  code = "conversation_not_found";
  message = "Conversation was not found.";
  fields = [];
  cause = none;
}

abbrev pub listing_not_found_error : HttpError
listing_not_found_error = record {
  status = 404;
  code = "listing_not_found";
  message = "Listing was not found.";
  fields = [];
  cause = none;
}

abbrev pub malformed_query_error : String → String → HttpError
malformed_query_error field message = record {
  status = 400;
  code = "bad_request";
  message = "The request was malformed.";
  fields = (field, message) ∷ [];
  cause = none;
}

-- What errors.Is and errors.As find at the end of the chain of wrapped errors.
abbrev pub root : Error → Error
root (wrapped context e) = root e
root e = e

abbrev pub chat_error_by : Error → Error → HttpError
chat_error_by e (validation fields) =
    caused 422 "validation_failed" "Request validation failed." fields e
chat_error_by e (query fields) = caused 400 "bad_request" "The request was malformed." fields e
chat_error_by e not_found = conversation_not_found_error
chat_error_by e forbidden = conversation_not_found_error
chat_error_by e self_conversation =
    caused 409 "conversation_unavailable" "A conversation cannot be started for this listing." [] e
chat_error_by e listing_unavailable =
    caused 409 "conversation_unavailable" "A conversation cannot be started for this listing." [] e
chat_error_by e invalid_read_target =
    caused 422 "validation_failed" "Request validation failed."
      (("last_read_message_id", "must belong to this conversation") ∷ []) e
chat_error_by e user_disabled = caused 403 "account_disabled" "This account is disabled." [] e
chat_error_by e cause = internal_error e

unfoldable pub chat_error : Error → HttpError
chat_error e = chat_error_by e (root e)
