-- ===== src/Admin.antt =====
-- The routes of src/routes/admin.js that write the terms, the privacy policy, broadcasts and quotas. An
-- error brings no state back, so that a version which the gate read on the way is read again.
pub mod Terms
use twexthub.Shared.{
  ℕ, ◌+◌, ◌-◌, String, Bool, true, false, not, ◌&&◌, ◌||◌, Option, none, some, List, [], ◌∷◌, ◌==◌,
  nat_eq, string_eq, if◌then◌else◌, ltb, leb, find, keep, length, ok, err, refuse, require, present,
  ◌>>=◌, ◌>>◌,
}
use twexthub.Shared.Rows.{update}
use twexthub.Util.Text.{trim, is_blank}
use twexthub.Http.Errors.{not_found}
use twexthub.Db.{Db, User, number}
use twexthub.Db
use twexthub.Notify.{concat, notify_users_matching, audit}
use twexthub.Access.Credentials.{Auth}
use twexthub.Access.Guards.{Answered, assert_admin}
use twexthub.Access.Terms.{TermsCache, require_terms, invalidate}
use twexthub.Packages.Requests.{Field, absent, null, text, other, object_body, field_error}
use twexthub.Tokens.{utf16_length}
use twexthub.Accounts.Signing.{field_text}

-- A row of legal_documents.
pub record Document : Type 0 where
  pub version : ℕ
  pub body : String

-- The tables, the two documents and the cache of the gate.
pub record Site : Type 0 where
  pub db : Db
  pub terms : Option Document
  pub privacy : Option Document
  pub cache : TermsCache

abbrev pub version_of : Option Document → Option ℕ
version_of none = none
version_of (some d) = some d.version

-- [requireAdmin, termsGate]
unfoldable pub admin_chain : (now : ℕ) → Option Auth → Site → Answered Auth
unfolding assert_admin require_terms
admin_chain now caller s = do
  admin ← assert_admin caller
  (require_terms (version_of s.terms) now caller s.cache).1

-- ON CONFLICT (kind) DO UPDATE SET version = version + 1
abbrev pub next_document : Option Document → String → Document
next_document none body = record { version = 1; body = body }
next_document (some d) body = record { version = d.version + 1; body = body }

abbrev is_accepted : User → Bool
is_accepted u = elim u.terms_accepted_version [ none ↦ false | some v ↦ true ]

module _ (print : ℕ → String) where
  -- A first version is no bump.
  unfoldable pub after_terms : ℕ → Db → Db
  unfolding notify_users_matching concat
  after_terms version db =
      if ltb 1 version
      then notify_users_matching is_accepted "terms.bumped"
          (concat (
            "The Terms of Service were updated to version "
            ∷ print version
            ∷ ". Accept the new version before publishing again."
            ∷ []))
          (("version", number version) ∷ ("previousVersion", number (version - 1)) ∷ []) db
      else db

  -- PATCH /admin/terms
  unfoldable pub patch_terms :
      (now : ℕ) → Option Auth → (is_object : Bool) → (body : Field) → Site → Answered Site
  unfolding admin_chain after_terms invalidate
  patch_terms now caller is_object body s = do
    auth ← admin_chain now caller s
    object_body is_object
    refuse (field_text body == "") (field_error "body" "Terms body is required.")
    let document = next_document s.terms (field_text body)
    ok (record s {
      terms = some document;
      db = after_terms document.version s.db;
      cache = invalidate s.cache;
    })

-- PATCH /admin/privacy
unfoldable pub patch_privacy :
    (now : ℕ) → Option Auth → (is_object : Bool) → (body : Field) → Site → Answered Site
unfolding admin_chain invalidate
patch_privacy now caller is_object body s = do
  auth ← admin_chain now caller s
  object_body is_object
  refuse (field_text body == "") (field_error "body" "Privacy body is required.")
  ok (record s {
    privacy = some (next_document s.privacy (field_text body));
    cache = invalidate s.cache;
  })

unfoldable pub is_broadcast : Field → Bool
unfolding is_blank utf16_length
is_broadcast (text message) = not (is_blank message) && leb (utf16_length message) 280
is_broadcast _ = false

-- POST /admin/notifications, with the number of notifications
unfoldable pub broadcast :
    (now : ℕ) → Option Auth → (is_object : Bool) → (message : Field) → Site → Answered (ℕ × Site)
unfolding admin_chain is_broadcast notify_users_matching trim
broadcast now caller is_object message s = do
  auth ← admin_chain now caller s
  object_body is_object
  require (is_broadcast message)
      (field_error "message" "A message is required, at most 280 characters.")
  ok (
    length s.db.users,
    record s {
      db = notify_users_matching (λ u. true) "broadcast" (trim (field_text message)) [] s.db;
    },
  )

-- The body's maxBlobBytes: null, a positive integer, or anything else.
pub data Quota : Type 0 where
  no_quota wrong_quota : Quota
  quota : ℕ → Quota

abbrev quota_value : Quota → Option ℕ
quota_value (quota n) = some n
quota_value _ = none

abbrev is_quota : Quota → Bool
is_quota no_quota = true
is_quota wrong_quota = false
is_quota (quota n) = ltb 0 n

abbrev quota_datum : Option ℕ → Db.Datum
quota_datum none = Db.text "null"
quota_datum (some n) = number n

-- PATCH /admin/users/:namespace/quota
unfoldable pub set_quota :
    (now : ℕ)
    → Option Auth
    → (is_object : Bool) → (namespace : String) → Quota
    → Site
    → Answered Site
unfolding admin_chain audit
set_quota now caller is_object namespace value s = do
  auth ← admin_chain now caller s
  object_body is_object
  u ← present (find (λ v. v.namespace == namespace) s.db.users) (not_found "No such account.")
  require (is_quota value)
      (field_error "maxBlobBytes" "Must be a positive integer, or null for the default.")
  ok (record s {
    db =
        audit auth.user "quota.set" (some u.namespace) none none
          (("maxBlobBytes", quota_datum (quota_value value))
            ∷ ("previousMaxBlobBytes", quota_datum u.max_blob_bytes)
            ∷ [])
          (record s.db {
            users =
                update (λ v. v.id == u.id) (λ v. record v { max_blob_bytes = quota_value value })
                  s.db.users;
          });
  })
