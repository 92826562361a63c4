-- ===== src/Packages/Review.antt =====
-- The edits of a version in src/routes/packages.js: review, deprecation and yank.
use twexthub.Shared.{
  ℕ, String, Bool, true, false, ◌&&◌, ◌||◌, not, Option, none, some, List, [], ◌∷◌, ◌++◌, ◌==◌,
  string_eq, nat_eq, any, find, if◌then◌else◌, ok, err, refuse, require, present, ◌>>=◌, ◌>>◌,
}
use twexthub.Shared.Rows.{update}
use twexthub.Util.Text.{is_blank, trim}
use twexthub.Util.Versions.{Semver}
use twexthub.Http.Errors.{forbidden, not_found, conflict}
use twexthub.Db.{
  Db, User, Row, Version, Tag, Address, Datum, nothing, published, rejected, yanked, deprecated,
  is_at, is_listed, is_pending, is_published,
}
use twexthub.Db
use twexthub.Notify.{audit, notify_user, review_approved_message, review_rejected_message}
use twexthub.Access.Credentials.{Auth, includes}
use twexthub.Access.Guards.{Answered, assert_admin, missing_scope}
use twexthub.Packages.Requests.{
  Field, absent, null, text, Effect, silent, announce, field_error, owner_chain, object_body,
  scope_chain, valid_address, is_extension_owner,
}
use twexthub.Packages.Resolve.{load_version, resolve_version}
use twexthub.Packages.Publish.{set_version, crash}

-- UPDATE versions SET .. WHERE id = .. AND status = 'pending'
abbrev pub set_pending : ℕ → (Version → Version) → Db → Db
set_pending id f db = record db {
  versions =
      update (λ r. r.cols.id == id && is_pending r.cols.status) (λ r. record r { cols = f r.cols })
        db.versions;
}

-- The UPDATE returned a row.
abbrev pub still_pending : ℕ → Db → Bool
still_pending id db = any (λ r. r.cols.id == id && is_pending r.cols.status) db.versions

abbrev pub reject_row : String → Version → Version
reject_row reason v = record v { status = rejected; rejection_reason = some reason }

abbrev pub approve_row : ℕ → Version → Version
approve_row now v = record v { status = published; published_at = some now }

abbrev pub payload : Row Version → List (String × Datum)
payload row =
    ("namespace", Db.text row.address.namespace)
    ∷ ("id", Db.text row.address.id)
    ∷ ("version", Db.text row.cols.version)
    ∷ []

-- The transaction of a rejection.
unfoldable pub reject : User → Row Version → String → Db → Db
unfolding audit notify_user
reject actor row reason db =
    audit actor "version.reject" (some row.address.namespace) (some row.address.id)
      (some row.cols.version) (("reason", Db.text reason) ∷ [])
      (notify_user row.cols.owner_id "review.rejected"
        (review_rejected_message row.address.id row.cols.version (trim reason))
        (payload row ++ ("reason", Db.text reason) ∷ [])
        (set_pending row.cols.id (reject_row reason) db))

-- UPDATE users SET has_published = true WHERE namespace = ..
abbrev pub mark_published : String → Db → Db
mark_published namespace db = record db {
  users = update (λ u. u.namespace == namespace) (λ u. record u { has_published = true }) db.users;
}

-- The transaction of an approval.
unfoldable pub approve : ℕ → User → Row Version → Db → Db
unfolding audit notify_user
approve now actor row db =
    audit actor "version.approve" (some row.address.namespace) (some row.address.id)
      (some row.cols.version) []
      (notify_user row.cols.owner_id "review.approved"
        (review_approved_message row.address.namespace row.address.id row.cols.version)
        (payload row)
        (mark_published row.address.namespace (set_pending row.cols.id (approve_row now) db)))

-- typeof reason !== 'string' || reason.trim().length === 0
unfoldable pub filled_text : Field → Option String
unfolding is_blank
filled_text (text s) = if is_blank s then none else some s
filled_text _ = none

-- The two branches on the body's `status`, and the error for any other.
unfoldable pub judge : ℕ → Auth → Address → Row Version → Field → Field → Db → Answered Effect
unfolding reject approve filled_text
judge now auth a row (text s) reason db =
    if s == "rejected"
    then (do
      why ←
          present (filled_text reason) (field_error "reason" "A reason is required when rejecting.")
      require (still_pending row.cols.id db) (conflict "That version is no longer pending review.")
      ok (announce a "version.rejected" (reject auth.user row why db)))
    else if s == "approved"
    then (do
      require (still_pending row.cols.id db) (conflict "That version is no longer pending review.")
      ok (announce a "version.published" (approve now auth.user row db)))
    else err (field_error "status" "Must be \"approved\" or \"rejected\".")
judge now auth a row _ reason db =
    err (field_error "status" "Must be \"approved\" or \"rejected\".")

unfoldable pub review_version : ℕ → Auth → Address → String → Field → Field → Db → Answered Effect
unfolding assert_admin valid_address judge
review_version now auth a version status reason db = do
  admin ← assert_admin (some auth)
  valid_address a
  row ←
      present
        (find (λ r. is_at a r && r.cols.version == version && is_pending r.cols.status) db.versions)
        (not_found "No pending version matches that address.")
  judge now auth a row status reason db

-- `none` is an explicit null, which puts the version back.
abbrev pub deprecate_row : Option String → Version → Version
deprecate_row none v = record v { status = published; deprecation_message = none }
deprecate_row (some m) v = record v { status = deprecated; deprecation_message = some m }

abbrev pub deprecate_action : Option String → String
deprecate_action none = "version.undeprecate"
deprecate_action (some m) = "version.deprecate"

abbrev pub optional_text : Option String → Datum
optional_text none = nothing
optional_text (some m) = Db.text m

abbrev pub deprecate_effect : Option String → Address → Db → Effect
deprecate_effect none a db = silent db
deprecate_effect (some m) a db = announce a "version.deprecated" db

unfoldable pub deprecate_version : Auth → Address → String → Option String → Db → Answered Effect
unfolding valid_address is_extension_owner load_version audit
deprecate_version auth a version message db = do
  require (includes auth.scopes "publish") (missing_scope "publish")
  valid_address a
  row ← present (load_version db a version) (not_found "Not found.")
  require (is_listed row.cols.status) (not_found "Not found.")
  require (is_extension_owner db auth.user a)
      (forbidden "Only an owner or an admin can deprecate this version.")
  ok (
      deprecate_effect message a (
        audit auth.user (deprecate_action message) (some a.namespace) (some a.id)
          (some row.cols.version) (("message", optional_text message) ∷ [])
          (set_version row.cols.id (deprecate_row message) db)))

abbrev pub is_absent : Field → Bool
is_absent absent = true
is_absent _ = false

-- A null clears the notice; anything else has to be a text that is not blank.
unfoldable pub parse_message : Field → Answered (Option String)
unfolding filled_text
parse_message null = ok none
parse_message field = do
  m ←
      present (filled_text field)
        (field_error "deprecationMessage" "Must be a non-empty string, or null to clear.")
  ok (some m)

abbrev pub both_or_neither : Field → Field → Bool
both_or_neither status message =
    (is_absent status && is_absent message) || (not (is_absent status) && not (is_absent message))

-- PATCH /@:namespace/:id/versions/:version
unfoldable pub patch_version :
    ℕ
    → Option ℕ
    → Option Auth
    → (is_object : Bool) → Address
    → String
    → (status message reason : Field) → Db
    → Answered Effect
unfolding owner_chain review_version deprecate_version parse_message
patch_version now terms caller is_object a version status message reason db = do
  auth ← owner_chain terms caller
  object_body is_object
  refuse (both_or_neither status message) (
      field_error "status"
        "Provide \"status\" to review or \"deprecationMessage\" to deprecate, not both or neither.")
  if not (is_absent status)
      then review_version now auth a version status reason db
      else (do notice ← parse_message message; deprecate_version auth a version notice db)

abbrev pub yank_row : Version → Version
yank_row v = record v { status = yanked }

-- DELETE /@:namespace/:id/versions/:version. A dangling tag resolves to no row, whose status is then
-- read.
unfoldable pub yank : Semver → Option ℕ → Option Auth → Address → String → Db → Answered Effect
unfolding scope_chain valid_address resolve_version is_extension_owner audit
yank sv terms caller a version db = do
  auth ← scope_chain "yank" terms caller
  valid_address a
  found ← resolve_version sv db (some auth.user) a version
  row ← present found crash
  require (is_listed row.cols.status) (not_found "Not found.")
  require (is_extension_owner db auth.user a) (forbidden "You can only yank your own extensions.")
  ok (
      announce a "version.yanked" (
        audit auth.user "version.yank" (some a.namespace) (some a.id) (some row.cols.version) []
          (set_version row.cols.id yank_row db)))
