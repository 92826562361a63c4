-- ===== src/Accounts/Signing.antt =====
-- POST of src/routes/users.js and the routes of src/routes/sessions.js that write, with `createSession`
-- of src/routes/shared.js. The hash of a password and its check, and the new token with its hash, are
-- parameters (src/password.js, node:crypto).
use twexthub.Shared.{
  ℕ, ◌+◌, String, Bool, true, false, not, ◌&&◌, ◌||◌, Option, none, some, List, [], ◌∷◌, ◌++◌, ◌==◌,
  nat_eq, string_eq, if◌then◌else◌, ltb, any, find, ok, err, refuse, require, present, ◌>>=◌, ◌>>◌,
}
use twexthub.Shared.Rows.{delete}
use twexthub.Util.Names.{is_valid_namespace}
use twexthub.Http.Errors.{FieldError, HttpError, field_errors, make, conflict, forbidden, not_found}
use twexthub.Db.{Db, User, user, normal, admin, is_organization, is_admin_role}
use twexthub.Notify.{concat}
use twexthub.Access.Credentials.{Auth, Credential, Credentials}
use twexthub.Access.Guards.{Answered, require_session, require_scope}
use twexthub.Access.Terms.{gate_with}
use twexthub.Transfer.Offers.{is_empty}
use twexthub.Packages.Requests.{Field, absent, text, object_body}
use twexthub.Tokens.{utf16_length}
use twexthub.Accounts.Profile.{profile_error, when}

-- The two parts of the state that an account's routes write.
pub record Store : Type 0 where
  pub db : Db
  pub creds : Credentials
  pub next_session_id : ℕ

-- createSession: the row keeps the hash of the new token
unfoldable pub create_session : (now ttl_ms : ℕ) → (hash : String) → (user_id : ℕ) → Store → Store
create_session now ttl_ms hash user_id s = record s {
  creds = record s.creds {
    sessions =
        s.creds.sessions
        ++ record {
          id = s.next_session_id;
          user_id = user_id;
          token_hash = hash;
          expires_at = some (now + ttl_ms);
          last_used_at = none;
          scopes = [];
        }
          ∷ [];
  };
  next_session_id = s.next_session_id + 1;
}

abbrev pub field_text : Field → String
field_text (text s) = s
field_text _ = ""

abbrev pub is_namespace_text : Field → Bool
is_namespace_text (text s) = is_valid_namespace s
is_namespace_text _ = false

abbrev pub namespace_error : FieldError
namespace_error =
    profile_error "namespace"
      "Must be lowercase letters, digits and hyphens; no leading/trailing hyphen."

unfoldable pub password_errors : Field → List FieldError
unfolding utf16_length
password_errors (text s) =
    when (ltb (utf16_length s) 8)
      (profile_error "password" "Password must be at least 8 characters.")
password_errors _ = profile_error "password" "Password is required." ∷ []

unfoldable pub display_name_errors : Field → List FieldError
unfolding utf16_length
display_name_errors absent = []
display_name_errors (text s) =
    when (ltb 80 (utf16_length s))
      (profile_error "displayName" "Display name must be at most 80 characters.")
display_name_errors _ = profile_error "displayName" "Must be a string." ∷ []

unfoldable pub sign_up_errors : (namespace password display_name : Field) → List FieldError
unfolding is_valid_namespace password_errors display_name_errors
sign_up_errors namespace password display_name =
    when (not (is_namespace_text namespace)) namespace_error
    ++ password_errors password
    ++ display_name_errors display_name

-- typeof displayName === 'string' && displayName.length > 0 ? displayName : namespace
abbrev pub effective_name : Field → String → String
effective_name (text s) namespace = if s == "" then namespace else s
effective_name _ namespace = namespace

abbrev pub new_user : Db → String → String → Option String → User
new_user db namespace display_name password_hash = record {
  id = db.next_user_id;
  namespace = namespace;
  display_name = display_name;
  kind = user;
  role = normal;
  has_published = false;
  terms_accepted_version = none;
  blob_bytes = 0;
  max_blob_bytes = none;
  password_hash = password_hash;
  bio = "";
  website = none;
  github = none;
  avatar_url = none;
  banner_url = none;
  avatar_blob = none;
  banner_blob = none;
}

-- INSERT INTO users; a name that is taken breaks the unique index.
abbrev pub add_user : User → Db → Db
add_user u db = record db { users = db.users ++ u ∷ []; next_user_id = db.next_user_id + 1 }

-- POST /users: `window` is what the rate limiter answers.
unfoldable pub sign_up :
    (hash_password : String → String)
    → (now ttl_ms : ℕ) → (token_hash : String) → Answered (Unit {0})
    → (is_object : Bool) → (namespace password display_name : Field) → Store
    → Answered (User × Store)
unfolding sign_up_errors create_session
sign_up hash_password now ttl_ms token_hash window is_object namespace password display_name s = do
  object_body is_object
  require (is_empty (sign_up_errors namespace password display_name))
      (field_errors (sign_up_errors namespace password display_name))
  window
  refuse (any (λ u. u.namespace == field_text namespace) s.db.users)
      (conflict "That namespace is already taken.")
  let base : User =
      new_user s.db (field_text namespace) (effective_name display_name (field_text namespace))
        (some (hash_password (field_text password)))
  let u : User = record base { role = if is_empty s.db.users then admin else normal }
  ok (u, create_session now ttl_ms token_hash u.id (record s { db = add_user u s.db }))

abbrev invalid_login : HttpError
invalid_login = make 401 (some "Unauthorized") (some "Invalid namespace or password.")

-- The password's check against the account's hash; an organization has none.
unfoldable pub verified : (verify : String → Option String → Bool) → String → Option User → Bool
verified verify password none = false
verified verify password (some u) = verify password u.password_hash

unfoldable pub check_login :
    (verify : String → Option String → Bool) → String → Option User → Answered User
unfolding verified concat
check_login verify password none = err invalid_login
check_login verify password (some u) = do
  refuse (is_organization u.kind)
      (forbidden (concat ("@" ∷ u.namespace ∷ " is an organization, which cannot sign in." ∷ [])))
  require (verified verify password (some u)) invalid_login
  ok u

abbrev is_text : Field → Bool
is_text (text s) = true
is_text _ = false

-- POST /sessions: `windows` is what the two login windows answer; a failure is recorded in them.
unfoldable pub sign_in :
    (verify : String → Option String → Bool)
    → (now ttl_ms : ℕ) → (token_hash : String) → Answered (Unit {0})
    → (is_object : Bool) → (namespace password : Field) → Store
    → Answered (User × Store)
unfolding is_valid_namespace check_login create_session
sign_in verify now ttl_ms token_hash windows is_object namespace password s = do
  object_body is_object
  require (is_namespace_text namespace && is_text password) invalid_login
  windows
  u ←
      check_login verify (field_text password)
        (find (λ u. u.namespace == field_text namespace) s.db.users)
  ok (u, create_session now ttl_ms token_hash u.id s)

-- DELETE FROM sessions WHERE id = ..
abbrev pub end_session : ℕ → Store → Store
end_session id s = record s {
  creds = record s.creds { sessions = delete (λ (c : Credential). c.id == id) s.creds.sessions };
}

-- DELETE /sessions/current
unfoldable pub delete_current_session : Option Auth → Store → Answered Store
unfolding require_session
delete_current_session caller s = do auth ← require_session caller; ok (end_session auth.token_id s)

abbrev find_session : Option ℕ → Credentials → Option Credential
find_session none creds = none
find_session (some id) creds = find (λ (c : Credential). c.id == id) creds.sessions

-- DELETE /sessions/:id: `none` is an id that is no positive safe integer.
unfoldable pub delete_session :
    Option ℕ → Option Auth → (target : Option ℕ) → Store → Answered Store
unfolding require_scope gate_with
delete_session terms caller target s = do
  auth ← require_scope "manage:sessions" caller
  gated ← gate_with terms caller
  row ← present (find_session target s.creds) (not_found "Not found.")
  require (row.user_id == auth.user.id || is_admin_role auth.user.role)
      (forbidden "Only an admin can revoke another account's sessions.")
  ok (end_session row.id s)
