-- ===== src/Http/Errors.antt =====
-- src/errors.js: `HttpError`, its constructors and the error handler of the Express application.
use twexthub.Shared.{
  ℕ, String, Bool, true, false, ◌&&◌, Option, none, some, List, [], ltb, leb, if◌then◌else◌, ◌==◌,
  string_eq, nat_eq,
}

-- One entry of a 422 body: the field and what is wrong with it.
pub record FieldError : Type 0 where
  pub field : String
  pub message : String

pub record HttpError : Type 0 where
  pub status : ℕ
  pub title : String
  pub detail : Option String
  pub errors : List FieldError
  pub retry_after : Option ℕ
  pub build_log : Option String
  pub build_error : Option String

-- `defaultTitles[status] ?? 'Error'`
unfoldable pub default_title : ℕ → String
default_title n =
    if n == 400
    then "Bad Request"
    else if n == 401
    then "Unauthorized"
    else if n == 403
    then "Forbidden"
    else if n == 404
    then "Not Found"
    else if n == 409
    then "Conflict"
    else if n == 413
    then "Payload Too Large"
    else if n == 415
    then "Unsupported Media Type"
    else if n == 422
    then "Unprocessable Entity"
    else if n == 429
    then "Too Many Requests"
    else if n == 500
    then "Internal Server Error"
    else "Error"

-- `x ?? fallback`
abbrev pub or_else {ℓ} : {A : Type ℓ} → Option A → A → A
or_else none d = d
or_else (some x) d = x

-- new HttpError(status, { title, detail })
unfoldable pub make : ℕ → Option String → Option String → HttpError
unfolding default_title
make status title detail = record {
  status = status;
  title = or_else title (default_title status);
  detail = detail;
  errors = [];
  retry_after = none;
  build_log = none;
  build_error = none;
}

unfoldable pub field_errors : List FieldError → HttpError
unfolding make
field_errors errors =
    record (make 422 (some "Validation Error") (some "One or more fields failed validation.")) {
      errors = errors;
    }

unfoldable pub unauthorized : HttpError
unfolding make
unauthorized = make 401 (some "Unauthorized") (some "Missing or invalid bearer token")

unfoldable pub forbidden : String → HttpError
unfolding make
forbidden detail = make 403 (some "Forbidden") (some detail)

unfoldable pub not_found : String → HttpError
unfolding make
not_found detail = make 404 (some "Not Found") (some detail)

unfoldable pub conflict : String → HttpError
unfolding make
conflict detail = make 409 (some "Conflict") (some detail)

unfoldable pub payload_too_large : String → HttpError
unfolding make
payload_too_large detail = make 413 (some "Payload Too Large") (some detail)

unfoldable pub unsupported_media_type : String → HttpError
unfolding make
unsupported_media_type detail = make 415 (some "Unsupported Media Type") (some detail)

unfoldable pub too_many_requests : ℕ → HttpError
unfolding make
too_many_requests seconds =
    record (make 429 (some "Too Many Requests") (some "Rate limit exceeded. Try again later.")) {
      retry_after = some seconds;
    }

-- The JSON body; an absent key is `none` (for `errors`, the empty list stands for an absent key).
pub record Problem : Type 0 where
  pub type : String
  pub title : String
  pub status : ℕ
  pub detail : Option String
  pub errors : List FieldError
  pub build_log : Option String
  pub build_error : Option String

-- `if (text) body.key = text`: the empty string is not written.
unfoldable pub truthy : Option String → Option String
truthy none = none
truthy (some s) = if s == "" then none else some s

unfoldable pub to_json : HttpError → Problem
unfolding truthy
to_json e = record {
  type = "about:blank";
  title = e.title;
  status = e.status;
  detail = truthy e.detail;
  errors = e.errors;
  build_log = truthy e.build_log;
  build_error = truthy e.build_error;
}

-- A `status` property of a foreign error: an integer, or anything else.
pub data StatusValue : Type 0 where
  whole : ℕ → StatusValue
  other : StatusValue

-- What reaches the handler: an `HttpError`, or an error of a library, of which the handler reads
-- `type`, `status` and `statusCode`.
pub data Thrown : Type 0 where
  http : HttpError → Thrown
  foreign : (type : String) (status status_code : Option StatusValue) → Thrown

pub record Answer : Type 0 where
  pub status : ℕ
  pub retry_header : Option ℕ
  pub body : Problem

-- `if (error.retryAfter)`: a zero sets no header.
unfoldable pub retry_header : Option ℕ → Option ℕ
retry_header none = none
retry_header (some n) = if n == 0 then none else some n

unfoldable pub answer : HttpError → Answer
unfolding to_json retry_header
answer e = record { status = e.status; retry_header = retry_header e.retry_after; body = to_json e }

-- The answer to a library's error by its status: a client error keeps it, all else is a 500.
unfoldable pub answer_status : Option StatusValue → HttpError
unfolding make
answer_status (some (whole n)) =
    if leb 400 n && ltb n 500
    then make n none none
    else make 500 (some "Internal Server Error") none
answer_status _ = make 500 (some "Internal Server Error") none

abbrev pub coalesce {ℓ} : {A : Type ℓ} → Option A → Option A → Option A
coalesce none b = b
coalesce (some a) b = some a

-- The handler; `none` is `next(error)`, taken when the headers are out already.
unfoldable pub error_handler : (headers_sent : Bool) → Thrown → Option Answer
unfolding answer answer_status make
error_handler true e = none
error_handler false (http e) = some (answer e)
error_handler false (foreign type status status_code) =
    if type == "entity.parse.failed"
    then some (answer (make 400 (some "Bad Request") (some "Invalid JSON body.")))
    else if type == "entity.too.large"
    then some (answer (make 413 (some "Payload Too Large") none))
    else some (answer (answer_status (coalesce status status_code)))
