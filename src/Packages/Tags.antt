-- ===== src/Packages/Tags.antt =====
-- The dist-tags of src/routes/packages.js: naming a published version and taking the name back.
pub mod Lookup
use twexthub.Shared.{
  ℕ, String, Bool, true, false, ◌&&◌, ◌||◌, not, Option, none, some, List, [], ◌∷◌, ◌++◌, ◌==◌,
  string_eq, nat_eq, any, find, if◌then◌else◌, ok, err, refuse, require, present, ◌>>=◌, ◌>>◌,
}
use twexthub.Shared.Rows.{update, upsert, delete}
use twexthub.Util.Regex.{test}
use twexthub.Util.Text.{is_blank, trim}
use twexthub.Util.Versions.{Semver}
use twexthub.Http.Errors.{forbidden, not_found, conflict}
use twexthub.Db.{
  Db, User, Row, Version, Tag, Address, Datum, nothing, is_at, is_listed, is_pending, is_published,
}
use twexthub.Db
use twexthub.Notify.{audit, notify_user, review_approved_message, review_rejected_message}
use twexthub.Access.Credentials.{Auth, includes}
use twexthub.Access.Guards.{Answered, assert_admin, missing_scope}
use twexthub.Packages.Requests.{
  Field, absent, null, text, Effect, silent, announce, field_error, owner_chain, object_body,
  scope_chain, valid_address, is_extension_owner,
}
use twexthub.Packages.Resolve.{load_version, resolve_version, tag_pattern}
use twexthub.Packages.Publish.{set_version, crash}

abbrev pub is_tag : Address → String → Row Tag → Bool
is_tag a tag r = is_at a r && r.cols.tag == tag

abbrev pub normalized : Semver → Field → Option String
normalized sv (text s) = sv.valid s
normalized sv _ = none

-- The version of that address is published.
abbrev pub is_released : Db → Address → String → Bool
is_released db a v =
    any (λ r. is_at a r && r.cols.version == v && is_published r.cols.status) db.versions

abbrev pub tag_row : Auth → Address → String → String → Row Tag
tag_row auth a tag v = record {
  address = a;
  cols = record { owner_id = auth.user.id; tag = tag; version = v };
}

abbrev pub retag : Auth → String → Row Tag → Row Tag
retag auth v r = record r { cols = record r.cols { version = v; owner_id = auth.user.id } }

-- PUT /@:namespace/:id/tags/:tag
unfoldable pub set_tag :
    Semver
    → Option ℕ
    → Option Auth
    → (is_object : Bool) → Address
    → String
    → Field
    → Db
    → Answered Effect
unfolding scope_chain valid_address test tag_pattern is_extension_owner audit
set_tag sv terms caller is_object a tag version db = do
  auth ← scope_chain "publish" terms caller
  valid_address a
  refuse (tag == "latest" || not (test tag_pattern tag))
      (field_error "tag" "Must be 1-30 letters, digits, or hyphens; \"latest\" is reserved.")
  require (is_extension_owner db auth.user a) (forbidden "Only an owner or an admin can set tags.")
  object_body is_object
  v ← present (normalized sv version) (field_error "version" "Must be a valid SemVer string.")
  require (is_released db a v) (not_found "Tagged versions must be published.")
  ok (
      silent (
        audit auth.user "tag.set" (some a.namespace) (some a.id) (some v)
          (("tag", Db.text tag) ∷ [])
          (record db {
            dist_tags = upsert (is_tag a tag) (retag auth v) (tag_row auth a tag v) db.dist_tags;
          })))

-- DELETE /@:namespace/:id/tags/:tag
unfoldable pub remove_tag : Option ℕ → Option Auth → Address → String → Db → Answered Effect
unfolding scope_chain valid_address is_extension_owner audit
remove_tag terms caller a tag db = do
  auth ← scope_chain "publish" terms caller
  valid_address a
  refuse (tag == "latest") (field_error "tag" "\"latest\" is reserved.")
  require (is_extension_owner db auth.user a)
      (forbidden "Only an owner or an admin can remove tags.")
  require (any (is_tag a tag) db.dist_tags) (not_found "Not found.")
  ok (
      silent (
        audit auth.user "tag.remove" (some a.namespace) (some a.id) none (("tag", Db.text tag) ∷ [])
          (record db { dist_tags = delete (is_tag a tag) db.dist_tags })))
