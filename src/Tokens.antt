-- ===== src/Tokens.antt =====
-- src/routes/tokens.js: minting, editing and revoking automation tokens.
-- A token's name and its secret are not kept: the name is only shown, and the secret is random, so
-- the hash of a new one is an argument, like the id that the table's sequence gives its row.
pub mod Grants
pub mod Revocation
use twexthub.Shared.{
  ℕ, ◌+◌, ◌*◌, String, Bool, true, false, ◌&&◌, ◌||◌, not, Option, none, some, List, [], ◌∷◌, ◌++◌,
  ◌==◌, string_eq, nat_eq, keep, find, sum_by, ltb, leb, if◌then◌else◌, ok, err, refuse, require,
  present, ◌>>=◌, ◌>>◌,
}
use twexthub.Shared.Rows.{delete, update}
use twexthub.Util.Regex.{codes}
use twexthub.Util.Text.{is_blank}
use twexthub.Http.Errors.{FieldError, HttpError, field_errors, make, not_found, forbidden}
use twexthub.Db.{is_admin_role}
use twexthub.Notify.{concat}
use twexthub.Access.Credentials.{
  Auth, Credential, Credentials, TokenType, session, automation, includes, scopes_known,
}
use twexthub.Access.Guards.{Answered, require_auth, require_scope}
use twexthub.Packages.Requests.{Field, text, absent, null, other, field_error, object_body}
use twexthub.Transfer.Offers.{is_empty}

-- An item of the body's array of scopes: a string, or another value with the text it is printed as.
pub data Item : Type 0 where
  string printed : String → Item

-- The body's `scopes`: left out, an array, or no array.
pub data Scopes : Type 0 where
  missing : Scopes
  array : List Item → Scopes
  no_array : Scopes

abbrev scope_error : List String → FieldError
scope_error pieces = record { field = "scopes"; message = concat pieces }

abbrev unknown_scope : String → FieldError
unknown_scope s = scope_error ("Unknown scope \"" ∷ s ∷ "\"." ∷ [])

-- The body of the loop of `validateScopes`: what one item adds to the errors.
unfoldable pub item_errors : List String → Item → List FieldError
item_errors caller_scopes (printed s) = unknown_scope s ∷ []
item_errors caller_scopes (string s) =
    if not (includes scopes_known s)
    then unknown_scope s ∷ []
    else if not (includes caller_scopes s)
    then scope_error ("This token is missing the \"" ∷ s ∷ "\" scope." ∷ []) ∷ []
    else []

unfoldable pub scope_errors : List String → List Item → List FieldError
unfolding item_errors
scope_errors caller_scopes [] = []
scope_errors caller_scopes (x ∷ xs) = item_errors caller_scopes x ++ scope_errors caller_scopes xs

abbrev pub item_text : Item → String
item_text (string s) = s
item_text (printed s) = s

-- [...new Set(scopes)]
unfoldable pub unique : List Item → List String
unique [] = []
unique (x ∷ xs) = item_text x ∷ keep (λ s. not (s == item_text x)) (unique xs)

unfoldable pub validate_scopes : Scopes → List String → Answered (List String)
unfolding scope_errors unique
validate_scopes (array (x ∷ xs)) caller_scopes = do
  require (is_empty (scope_errors caller_scopes (x ∷ xs)))
      (field_errors (scope_errors caller_scopes (x ∷ xs)))
  ok (unique (x ∷ xs))
validate_scopes _ caller_scopes = err (field_error "scopes" "At least one scope is required.")

-- name.length: a character beyond the basic plane counts twice
unfoldable pub utf16_length : String → ℕ
utf16_length s = sum_by (λ c. if ltb 65535 c then 2 else 1) (codes s)

-- typeof name !== 'string' || name.trim().length === 0 || name.length > 80
unfoldable pub is_token_name : Field → Bool
unfolding is_blank utf16_length
is_token_name (text s) = not (is_blank s) && leb (utf16_length s) 80
is_token_name _ = false

abbrev name_error : FieldError
name_error = record {
  field = "name";
  message = "Name must be a non-empty string of at most 80 characters.";
}

-- The body's `expiresInDays`: left out, an integer, or anything else.
pub data Days : Type 0 where
  forever : Days
  days : ℕ → Days
  no_days : Days

abbrev days_error : String → FieldError
days_error message = record { field = "expiresInDays"; message = message }

abbrev pub expiry : ℕ → ℕ → ℕ
expiry now n = now + n * 86400000

-- A date ends at 8.64e15 milliseconds after the epoch.
unfoldable pub day_errors : ℕ → Days → List FieldError
day_errors now forever = []
day_errors now (days n) =
    if n == 0
    then days_error "Must be a positive integer when provided." ∷ []
    else if ltb 8640000000000000 (expiry now n)
    then days_error "Expiration is too far in the future." ∷ []
    else []
day_errors now no_days = days_error "Must be a positive integer when provided." ∷ []

abbrev pub expires_at : ℕ → Days → Option ℕ
expires_at now (days n) = some (expiry now n)
expires_at now _ = none

unfoldable pub create_errors : ℕ → Field → Days → List FieldError
unfolding is_token_name day_errors
create_errors now name lifetime =
    (if is_token_name name then [] else name_error ∷ []) ++ day_errors now lifetime

abbrev pub new_row : (id now : ℕ) → Auth → String → List String → Days → Credential
new_row id now auth hash scopes lifetime = record {
  id = id;
  user_id = auth.user.id;
  token_hash = hash;
  expires_at = expires_at now lifetime;
  last_used_at = none;
  scopes = scopes;
}

-- POST /tokens
unfoldable pub create_token :
    (id now : ℕ)
    → (hash : String) → Option Auth
    → (is_object : Bool) → Field
    → Scopes
    → Days
    → Credentials
    → Answered Credentials
unfolding require_scope create_errors validate_scopes
create_token id now hash caller is_object name scopes lifetime creds = do
  auth ← require_scope "manage:tokens" caller
  object_body is_object
  require (is_empty (create_errors now name lifetime))
      (field_errors (create_errors now name lifetime))
  clean ← validate_scopes scopes auth.scopes
  ok (record creds {
    automation_tokens = creds.automation_tokens ++ new_row id now auth hash clean lifetime ∷ [];
  })

-- The token of an id: `none` is a parameter that is no positive safe integer.
unfoldable pub find_token : Option ℕ → Credentials → Option Credential
find_token none creds = none
find_token (some id) creds = find (λ c. c.id == id) creds.automation_tokens

abbrev pub may_manage : Auth → Credential → Bool
may_manage auth row = row.user_id == auth.user.id || is_admin_role auth.user.role

abbrev pub is_missing : Scopes → Bool
is_missing missing = true
is_missing _ = false

abbrev pub is_absent_name : Field → Bool
is_absent_name absent = true
is_absent_name _ = false

-- The scopes that an edit writes.
unfoldable pub patched_scopes : Scopes → Auth → Credential → Answered (List String)
unfolding validate_scopes
patched_scopes scopes auth row =
    if is_missing scopes then ok row.scopes else validate_scopes scopes auth.scopes

-- PATCH /tokens/:id
unfoldable pub patch_token :
    Option ℕ
    → Option Auth
    → (is_object : Bool) → Field
    → Scopes
    → Credentials
    → Answered Credentials
unfolding require_scope find_token patched_scopes is_token_name
patch_token target caller is_object name scopes creds = do
  auth ← require_scope "manage:tokens" caller
  object_body is_object
  refuse (is_absent_name name && is_missing scopes)
      (field_error "body" "Provide at least name or scopes.")
  row ← present (find_token target creds) (not_found "Not found.")
  require (may_manage auth row) (forbidden "Only an admin can modify another account's tokens.")
  require (is_absent_name name || is_token_name name) (field_errors (name_error ∷ []))
  written ← patched_scopes scopes auth row
  ok (record creds {
    automation_tokens =
        update (λ c. c.id == row.id)
          (λ c. if is_missing scopes then c else record c { scopes = written })
          creds.automation_tokens;
  })

-- DELETE /tokens/:id
unfoldable pub delete_token : Option ℕ → Option Auth → Credentials → Answered Credentials
unfolding require_scope find_token
delete_token target caller creds = do
  auth ← require_scope "manage:tokens" caller
  row ← present (find_token target creds) (not_found "Not found.")
  require (may_manage auth row) (forbidden "Only an admin can revoke another account's tokens.")
  ok (record creds { automation_tokens = delete (λ c. c.id == row.id) creds.automation_tokens })

abbrev pub is_automation : TokenType → Bool
is_automation automation = true
is_automation session = false

-- DELETE /tokens/current
unfoldable pub delete_current_token : Option Auth → Credentials → Answered Credentials
unfolding require_auth
delete_current_token caller creds = do
  auth ← require_auth caller
  require (is_automation auth.token_type)
      (forbidden "This is a session; use DELETE /sessions/current to end it.")
  ok (record creds {
    automation_tokens = delete (λ c. c.id == auth.token_id) creds.automation_tokens;
  })
