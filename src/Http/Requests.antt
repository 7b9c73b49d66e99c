-- ===== src/Http/Requests.antt =====
-- internal/adapter/httpapi/json.go, and the parameters of a request in chat.go and catalog.go.
use keebhub.Prelude.{
  ℕ, zero, suc, ◌+◌, ◌-◌, ◌*◌, ◌<◌, Bool, true, false, not, ◌&&◌, ◌||◌, Option, none, some, List,
  [], ◌∷◌, ltb, leb, ◌==◌, if◌then◌else◌, String, ℤ, pos, negsuc, ltb_ℤ, Text,
}
use keebhub.Domain.Errors.{Error, Result, ok, err, validation, Fields}
use keebhub.Domain.Handle.{decimal}
use keebhub.Http.Errors.{
  HttpError, Failure, api, echo, conversation_not_found_error, listing_not_found_error,
  malformed_query_error,
}
pub mod Identifiers

-- 2^63
abbrev pub int64_bound : ℕ
int64_bound = 9_223_372_036_854_775_808

-- The digits of strconv.ParseInt in base 10.
abbrev pub parse_digits : ℕ → Text → Option ℕ
parse_digits acc [] = some acc
parse_digits acc (c ∷ s) =
    let rest = parse_digits (acc * 10 + (c - b'0')) s in
    if leb b'0' c && leb c b'9' then rest else none

abbrev pub parse_number : Text → Option ℕ
parse_number [] = none
parse_number (c ∷ s) = parse_digits 0 (c ∷ s)

abbrev pub positive_int64 : Option ℕ → Option ℤ
positive_int64 none = none
positive_int64 (some n) = if ltb n int64_bound then some (pos n) else none

abbrev pub negated : ℕ → ℤ
negated zero = pos 0
negated (suc n) = negsuc n

abbrev pub negative_int64 : Option ℕ → Option ℤ
negative_int64 none = none
negative_int64 (some n) = if leb n int64_bound then some (negated n) else none

-- strconv.ParseInt(s, 10, 64), and strconv.Atoi where an int has 64 bits.
unfoldable pub parse_int : Text → Option ℤ
parse_int [] = none
parse_int (c ∷ s) =
    if c == b'-'
    then negative_int64 (parse_number s)
    else if c == b'+'
    then positive_int64 (parse_number s)
    else positive_int64 (parse_number (c ∷ s))

-- `err != nil || value < 1`
abbrev pub at_least_one : Option ℤ → Option ℕ
at_least_one none = none
at_least_one (some (pos n)) = if ltb n 1 then none else some n
at_least_one (some (negsuc n)) = none

unfoldable pub parse_id : Text → Option ℕ
unfolding parse_int
parse_id s = at_least_one (parse_int s)

unfoldable pub id_string : ℕ → Text
unfolding decimal
id_string value = decimal value

-- A value, or the failure that ends the request.
pub data Checked (A : Type 0) : Type 0 where
  valid : A → Checked A
  rejected : Failure → Checked A

abbrev pub or_reject : {A : Type 0} → HttpError → Option A → Checked A
or_reject e none = rejected (api e)
or_reject e (some a) = valid a

unfoldable pub conversation_id_from_path : Text → Checked ℕ
unfolding parse_id
conversation_id_from_path param = or_reject conversation_not_found_error (parse_id param)

unfoldable pub listing_id_from_path : Text → Checked ℕ
unfolding parse_id
listing_id_from_path param = or_reject listing_not_found_error (parse_id param)

abbrev pub given : {A : Type 0} → HttpError → Option A → Checked (Option A)
given e none = rejected (api e)
given e (some a) = valid (some a)

-- The argument holds the values that the query has for the name, none where it does not stand there.
unfoldable pub optional_positive_query_id : String → List Text → Checked (Option ℕ)
unfolding parse_id
optional_positive_query_id name [] = valid none
optional_positive_query_id name (value ∷ values) =
    given (malformed_query_error name "must be a positive integer") (parse_id value)

unfoldable pub optional_query_int : String → List Text → Checked ℤ
unfolding parse_int
optional_query_int name [] = valid (pos 0)
optional_query_int name (value ∷ values) =
    or_reject (malformed_query_error name "must be an integer") (parse_int value)

-- A field of a JSON request: it is not there, is null, or has a value.
pub data JsonField (A : Type 0) : Type 0 where
  absent null : JsonField A
  value : A → JsonField A

-- requiredFieldErrors and appendNullFieldErrors on one field.
abbrev pub required : {A : Type 0} → String → JsonField A → Result A
required name absent = err (validation ((name, "is required") ∷ []))
required name null = err (validation ((name, "must not be null") ∷ []))
required name (value a) = ok a

-- What the JSON decoder of a body answers; encoding/json and http.MaxBytesReader are parameters.
pub data JsonRead (A : Type 0) : Type 0 where
  json : A → JsonRead A
  null_value : JsonRead A
  end too_large malformed : JsonRead A

-- A body as decodeJSONRequest sees it: whether its media type is application/json, its length, the
-- first value and what stands after it, and the strict decoding of the first value.
pub record RequestBody (A : Type 0) : Type 0 where
  pub is_json : Bool
  pub content_length : ℤ
  pub first_value : JsonRead (Option A)
  pub trailer : JsonRead (Unit {0})

abbrev pub maximum_json_request_bytes : ℕ
maximum_json_request_bytes = 32768

abbrev pub malformed_json_body_error : HttpError
malformed_json_body_error = record {
  status = 400;
  code = "bad_request";
  message = "The request was malformed.";
  fields = [];
  cause = none;
}

module _ {A : Type 0} where
  abbrev pub after_trailer : Option A → JsonRead (Unit {0}) → Checked A
  after_trailer a end = or_reject malformed_json_body_error a
  after_trailer a too_large = rejected (echo 413)
  after_trailer a read = rejected (api malformed_json_body_error)

  abbrev pub after_value : JsonRead (Option A) → JsonRead (Unit {0}) → Checked A
  after_value (json a) trailer = after_trailer a trailer
  after_value too_large trailer = rejected (echo 413)
  after_value read trailer = rejected (api malformed_json_body_error)

  unfoldable pub decode_json_request : RequestBody A → Checked A
  decode_json_request body =
      if not body.is_json
      then rejected (echo 415)
      else if ltb_ℤ (pos maximum_json_request_bytes) body.content_length
      then rejected (echo 413)
      else after_value body.first_value body.trailer
