-- ===== src/Accounts/Updates.antt =====
-- PATCH /users/:namespace of src/routes/users.js.
pub mod Authority
pub mod Writes
use twexthub.Shared.{
  ℕ, String, Bool, true, false, not, ◌&&◌, ◌||◌, Option, none, some, List, [], ◌∷◌, ◌++◌, ◌==◌,
  nat_eq, string_eq, if◌then◌else◌, ltb, any, find, ok, err, refuse, require, present, ◌>>=◌, ◌>>◌,
}
use twexthub.Shared.Rows.{update, delete}
use twexthub.Util.Names.{is_valid_namespace}
use twexthub.Http.Errors.{FieldError, field_errors, forbidden, not_found}
use twexthub.Db.{Db, User, Role, admin, normal, is_organization}
use twexthub.Db
use twexthub.Notify.{concat, notify_user, audit}
use twexthub.Access.Credentials.{Auth, Credential, Credentials}
use twexthub.Access.Guards.{Answered, require_scope, is_admin}
use twexthub.Access.Terms.{gate_with}
use twexthub.Transfer.Offers.{is_empty}
use twexthub.Packages.Requests.{Field, absent, null, text, other, object_body, field_error}
use twexthub.Tokens.{utf16_length}
use twexthub.Webhooks.Targets.{Url}
use twexthub.Accounts.Profile.{
  Body, profile_field_errors, profile_patch, profile_columns, profile_error, when, is_given,
}
use twexthub.Accounts.Signing.{Store, field_text}

-- loadUserOr404
unfoldable pub load_user : Db → String → Answered User
unfolding is_valid_namespace
load_user db namespace = do
  require (is_valid_namespace namespace) (not_found "Not found.")
  present (find (λ u. u.namespace == namespace) db.users) (not_found "Not found.")

-- The body's `termsAcceptedVersion`, as its text where it is an integer or a text of digits.
pub record Update : Type 0 where
  pub profile : Body
  pub password : Field
  pub current_password : Field
  pub role : Field
  pub terms_accepted_version : Field

abbrev pub names_nothing : Update → Bool
names_nothing body = is_empty (profile_columns body.profile) && not (is_given body.role)

-- skipTermsForAcceptance: a body of a password or an acceptance alone, and no other field
unfoldable pub skip_terms :
    Option ℕ → Option Auth → Update → (has_more : Bool) → Answered (Unit {0})
unfolding gate_with profile_columns
skip_terms terms caller body has_more =
    if (is_given body.password || is_given body.terms_accepted_version)
      && names_nothing body
      && not has_more
    then ok tt
    else (do gated ← gate_with terms caller; ok tt)

abbrev new_role : Field → Option Role
new_role (text s) = if s == "admin" then some admin else if s == "normal" then some normal else none
new_role _ = none

abbrev short_password : Field → Bool
short_password absent = false
short_password (text s) = ltb (utf16_length s) 8
short_password _ = true

abbrev no_role : Field → Bool
no_role absent = false
no_role value = elim (new_role value) [ none ↦ true | some r ↦ false ]

-- An acceptance names the current version in the spelling of a number.
unfoldable pub terms_errors : (print : ℕ → String) → ℕ → Field → List FieldError
unfolding concat
terms_errors print version value = when (not (field_text value == print version)) (
    profile_error "termsAcceptedVersion" (
      concat (
        "Must be the current terms version "
        ∷ print version
        ∷ ". Read GET /v1/terms to see it."
        ∷ [])))

-- The version that an acceptance records, and the errors it adds.
unfoldable pub accepted :
    (print : ℕ → String) → Option ℕ → Field → Answered (Option ℕ × List FieldError)
unfolding terms_errors
accepted print terms absent = ok (none, [])
accepted print terms value = do
  version ← present terms (not_found "There are no terms to accept yet.")
  ok (some version, terms_errors print version value)

unfoldable pub update_errors : (parse_url : String → Option Url) → Update → List FieldError
unfolding profile_field_errors utf16_length
update_errors parse_url body =
    profile_field_errors parse_url body.profile
    ++ when (short_password body.password)
        (profile_error "password" "Password must be at least 8 characters.")
    ++ when (no_role body.role) (profile_error "role" "Role must be \"admin\" or \"normal\".")

-- The confirmation of the current password, which an admin need not give.
unfoldable pub confirm :
    (verify : String → Option String → Bool) → Option Auth → Update → User → Answered (Unit {0})
unfolding is_admin
confirm verify caller body target =
    if not (is_given body.password) || is_admin caller then ok tt else (do
      require (not (field_text body.current_password == "")) (
          field_error "currentPassword" "Current password is required when changing your password.")
      require (verify (field_text body.current_password) target.password_hash)
          (forbidden "Current password is incorrect."))

abbrev role_or : Field → Role → Role
role_or value before = elim (new_role value) [ none ↦ before | some r ↦ r ]

abbrev terms_or : Option ℕ → Option ℕ → Option ℕ
terms_or none before = before
terms_or (some version) before = some version

-- UPDATE users SET ..
unfoldable pub patched :
    (hash_password : String → String) → Update → (version : Option ℕ) → User → User
unfolding profile_patch
patched hash_password body version u =
    let u' = profile_patch body.profile u in
    record u' {
      role = role_or body.role u.role;
      terms_accepted_version = terms_or version u.terms_accepted_version;
      password_hash =
          if is_given body.password
          then some (hash_password (field_text body.password))
          else u.password_hash;
    }

abbrev pub without_credentials : ℕ → Credentials → Credentials
without_credentials id creds = record {
  sessions = delete (λ (c : Credential). c.user_id == id) creds.sessions;
  automation_tokens = delete (λ (c : Credential). c.user_id == id) creds.automation_tokens;
}

abbrev role_text : Role → String
role_text admin = "admin"
role_text normal = "normal"

-- A new password signs the account out everywhere; one that another account set is told.
unfoldable pub after_password : User → User → Store → Store
unfolding notify_user concat
after_password actor target s = record s {
  creds = without_credentials target.id s.creds;
  db =
      if actor.id == target.id
      then s.db
      else notify_user target.id "tokens.revoked"
          (concat (
            "Your password was reset by an admin (@" ∷ actor.namespace
            ∷ "); all sessions and automation tokens were revoked." ∷ []))
          (("actor", Db.text actor.namespace) ∷ []) s.db;
}

unfoldable pub after_role : User → User → Field → Db → Db
unfolding notify_user audit concat
after_role actor target value db =
    audit actor "role.change" (some target.namespace) none none
      (("role", Db.text (field_text value))
        ∷ ("previousRole", Db.text (role_text target.role))
        ∷ [])
      (notify_user target.id "role.changed"
        (concat ("Your account role changed to \"" ∷ field_text value ∷ "\"." ∷ []))
        (("role", Db.text (field_text value)) ∷ []) db)

-- The statements of the transaction.
unfoldable pub write_update :
    (hash_password : String → String) → User → User → Update → (version : Option ℕ) → Store → Store
unfolding patched after_password after_role
write_update hash_password actor target body version s =
    let s1 : Store = record s {
      db = record s.db {
        users = update (λ u. u.id == target.id) (patched hash_password body version) s.db.users;
      };
    } in
    let s2 = if is_given body.password then after_password actor target s1 else s1 in
    record s2 { db = if is_given body.role then after_role actor target body.role s2.db else s2.db }

-- PATCH /users/:namespace
unfoldable pub update_account :
    (parse_url : String → Option Url)
    → (print : ℕ → String) → (hash_password : String → String)
    → (verify : String → Option String → Bool) → Option ℕ
    → Option Auth
    → (is_object has_more : Bool) → (namespace : String) → Update
    → Store
    → Answered Store
unfolding require_scope skip_terms load_user is_admin accepted update_errors confirm write_update
    concat
update_account parse_url print hash_password verify terms caller is_object has_more namespace body
      s =
    do
      auth ← require_scope "manage:account" caller
      skip_terms terms caller body has_more
      target ← load_user s.db namespace
      refuse (is_organization target.kind) (
          forbidden (
            concat ("@" ∷ target.namespace ∷ " is an organization; change it through /orgs." ∷ [])))
      require (auth.user.namespace == target.namespace || is_admin caller)
          (forbidden "Only an admin can update another account.")
      object_body is_object
      refuse
          (names_nothing body
            && not (is_given body.password)
            && not (is_given body.terms_accepted_version))
          (field_error "body" "Provide at least one field to update.")
      (version, unaccepted) ← accepted print terms body.terms_accepted_version
      require (is_empty (update_errors parse_url body ++ unaccepted))
          (field_errors (update_errors parse_url body ++ unaccepted))
      require (not (is_given body.role) || is_admin caller)
          (forbidden "Only an admin can change a role.")
      confirm verify caller body target
      ok (write_update hash_password auth.user target body version s)
