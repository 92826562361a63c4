-- ===== src/Packages/Publish/Route.antt =====
-- The publishing route of src/routes/packages.js. The tarball's extraction, the YAML parser and the
-- compiler are outside: what they make of an upload is a parameter of the route.
use twexthub.Shared.{
  ℕ, ◌+◌, Option, none, some, List, [], ◌∷◌, ◌==◌, string_eq, nat_eq, ltb, if◌then◌else◌, ok, err,
  refuse, require, present, ◌>>=◌, ◌>>◌,
}
use twexthub.Util.Versions.{Semver}
use twexthub.Util.Names.{is_valid_namespace, is_valid_extension_id}
use twexthub.Http.Errors.{make, not_found, unauthorized, forbidden, conflict, or_else}
use twexthub.Db.{Db, User, Row, Version, Address, published, Visibility, public, private}
use twexthub.Access.Credentials.{Auth}
use twexthub.Access.Guards.{Answered}
use twexthub.Transfer.Offers.{Limits, load_namespace_account}
use twexthub.Transfer.Move.{redirect_for}
use twexthub.Packages.Requests.{
  Field, Effect, Scheduled, absent, null, silent, announce, field_error, scope_chain,
  is_extension_owner,
}
use twexthub.Packages.Requests
use twexthub.Packages.Publish.{Manifest, Artifacts, Disk, is_some, over_quota, publish_version}

-- The query parameter `visibility`: `asString(..) ?? 'public'`.
unfoldable pub parse_visibility : Field → Answered Visibility
parse_visibility (Requests.text v) =
    if v == "public"
    then ok public
    else if v == "private"
    then ok private
    else err (field_error "visibility" "Must be \"public\" or \"private\".")
parse_visibility _ = ok public

-- The request's body: its length, where the parser left a buffer.
abbrev pub upload_length : Option ℕ → ℕ
upload_length none = 0
upload_length (some n) = n

-- What the extraction, the manifest and the build of an upload came to.
pub record Built : Type 0 where
  pub manifest : Manifest
  pub artifacts : Artifacts

abbrev pub default_source : ℕ
default_source = 1048576

abbrev pub default_blob : ℕ
default_blob = 2097152

-- The checks of the route ahead of the build.
unfoldable pub before_build :
    Limits → Option ℕ → Option Auth → Address → Option ℕ → Field → Db → Answered (User × Visibility)
unfolding scope_chain is_extension_owner load_namespace_account parse_visibility
before_build limits terms caller a upload visibility db = do
  auth ← scope_chain "publish" terms caller
  require (is_valid_extension_id a.id) (field_error "id" "Invalid extension id.")
  require (is_valid_namespace a.namespace) (not_found "Not found.")
  shown ← parse_visibility visibility
  require (ltb 0 (upload_length upload))
      (make 415 (some "Unsupported Media Type") (some "Publish a gzip tarball."))
  owner ← present (load_namespace_account db a.namespace) (not_found "No such publishing account.")
  require (is_extension_owner db auth.user a)
      (forbidden "You can only publish to an extension you own.")
  refuse (is_some (redirect_for db a))
      (conflict "This extension address has been transferred away.")
  refuse (ltb (or_else limits.max_source_bytes default_source) (upload_length upload))
      (make 413 (some "Payload Too Large") (some "The source tarball is too large."))
  ok (owner, shown)

-- The size and quota checks behind the build.
unfoldable pub after_build : Limits → User → Artifacts → Answered (Unit {0})
unfolding over_quota
after_build limits owner art = do
  refuse (ltb (or_else limits.max_blob_bytes default_blob) art.code_length)
      (make 413 (some "Payload Too Large") (some "The compiled output is too large."))
  refuse (over_quota limits (art.code_length + art.source_length) (some owner))
      (make 413 (some "Payload Too Large") (some "Publishing would exceed the storage quota."))

abbrev pub published_effect : Address → Db × Answered (Row Version) → Db × Answered (List Scheduled)
published_effect a (db, err e) = (db, err e)
published_effect a (db, ok row) = (
  db,
  ok (elim row.cols.status [
    | published ↦ record { address = a; event = "version.published" } ∷ []
    | _ ↦ []
  ]),
)

-- What comes before `publishVersion`.
unfoldable pub prepared :
    Limits
    → Option ℕ
    → Auth
    → Address
    → Option ℕ
    → Field
    → Answered Built
    → Db
    → Answered (User × Visibility × Built)
unfolding before_build after_build
prepared limits terms auth a upload visibility build db = do
  (owner, shown) ← before_build limits terms (some auth) a upload visibility db
  built ← build
  after_build limits owner built.artifacts
  ok (owner, shown, built)

-- The rest of the route: an error ahead of `publishVersion` writes nothing.
unfoldable pub publish_built :
    Semver
    → Limits
    → Disk
    → ℕ
    → Auth
    → Address
    → Db
    → Answered (User × Visibility × Built)
    → Db × Answered (List Scheduled)
unfolding publish_version
publish_built sv limits disk now auth a db (err e) = (db, err e)
publish_built sv limits disk now auth a db (ok (owner, shown, built)) =
    published_effect a
      (publish_version sv limits disk now owner auth.user a built.manifest built.artifacts shown db)

-- The whole route behind its rate limit. `build` is the outside's answer for this upload.
unfoldable pub publish :
    Semver
    → Limits
    → Disk
    → ℕ
    → Option ℕ
    → Option Auth
    → Address
    → Option ℕ
    → Field
    → Answered Built
    → Db
    → Db × Answered (List Scheduled)
unfolding prepared publish_built
publish sv limits disk now terms none a upload visibility build db = (db, err unauthorized)
publish sv limits disk now terms (some auth) a upload visibility build db =
    publish_built sv limits disk now auth a db
      (prepared limits terms auth a upload visibility build db)
