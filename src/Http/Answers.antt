-- ===== src/Http/Answers.antt =====
-- What the error handler of src/errors.js answers.
use twexthub.Shared.{String, false, ◌≡◌, ◌≤◌, ◌⊎◌, Option, none, some, arith, refl}
use twexthub.Http.Errors.{
  foreign, Answer, StatusValue, whole, error_handler, answer_status, coalesce,
}

answer_status_range :
    (s : Option StatusValue)
    → (400 ≤ (answer_status s).status)
      × ((answer_status s).status ≤ 500)
      × ((answer_status s).detail ≡ none)
unfolding answer_status
answer_status_range none = (omega arith, omega arith, refl)
answer_status_range (some StatusValue.other) = (omega arith, omega arith, refl)
answer_status_range (some (whole n)) = ground arith

-- An error of a library is answered with a status from 400 to 500 that the body repeats, without
-- a retry header; its body has a detail only for the JSON parser's error, where the detail is a
-- constant text. So no text of a foreign error reaches the client.
pub error_handler-foreign :
    (type : String) (status status_code : Option StatusValue) (a : Answer)
    → error_handler false (foreign type status status_code) ≡ some a
    → (400 ≤ a.status)
      × (a.status ≤ 500)
      × (a.body.status ≡ a.status)
      × (a.retry_header ≡ none)
      × ((a.body.detail ≡ none) ⊎ (a.body.detail ≡ some "Invalid JSON body."))
unfolding error_handler
error_handler-foreign type status status_code a h =
    ground (arith, answer_status_range (coalesce status status_code))
