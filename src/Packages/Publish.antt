-- ===== src/Packages/Publish.antt =====
-- `publishVersion` of src/routes/packages.js. Whether a write to the disk succeeds is a parameter.
pub mod Staging
pub mod Growth
pub mod Outcome
pub mod Route
use twexthub.Shared.{
  ℕ, ◌+◌, String, Bool, true, false, ◌&&◌, ◌||◌, not, Option, none, some, List, [], ◌∷◌, ◌++◌, ◌==◌,
  string_eq, nat_eq, any, find, keep, map, ltb, if◌then◌else◌, Result, ok, err, refuse, require,
  present, ◌>>=◌, ◌>>◌,
}
use twexthub.Shared.Rows.{update, insert_new}
use twexthub.Util.Versions.{Semver, max_version_by_semver}
use twexthub.Util.Names.{is_valid_namespace, is_valid_extension_id}
use twexthub.Http.Errors.{
  HttpError, make, not_found, unauthorized, forbidden, conflict, or_else, coalesce,
}
use twexthub.Db.{
  Db, User, Row, Version, Owner, Address, Status, staging, pending, published, Visibility, public,
  private, Datum, text, number, is_at, is_unreviewed, status_text, visibility_text,
}
use twexthub.Notify.{audit}
use twexthub.Access.Credentials.{Auth}
use twexthub.Access.Guards.{Answered}
use twexthub.Transfer.Offers.{Limits, quota_for, load_namespace_account}
use twexthub.Transfer.Move.{redirect_for, add_owner}
use twexthub.Packages.Requests.{
  Field, Effect, Scheduled, absent, null, silent, announce, field_error, scope_chain,
  is_extension_owner,
}
use twexthub.Packages.Requests

-- The manifest of a project, as far as the row keeps it.
pub record Manifest : Type 0 where
  pub version : String
  pub name : String
  pub license : String
  pub description : String
  pub author : Option String

-- The compiled code and the source: their sizes and digests.
pub record Artifacts : Type 0 where
  pub code_length : ℕ
  pub code_digest : String
  pub source_length : ℕ
  pub source_digest : String

abbrev pub crash : HttpError
crash = make 500 none none

abbrev pub is_some {ℓ} : {A : Type ℓ} → Option A → Bool
is_some none = false
is_some (some a) = true

-- ceiling && !semver.gt(version, ceiling)
unfoldable pub too_low : Semver → String → Option String → Bool
too_low sv version none = false
too_low sv version (some ceiling) = not (sv.gt version ceiling)

-- `name.length > 0 ? name : id`
abbrev pub name_or_id : String → String → String
name_or_id name id = if name == "" then id else name

unfoldable pub staged_row :
    ℕ → User → Address → String → Manifest → Artifacts → Visibility → Row Version
staged_row id credential a version manifest art visibility = record {
  address = a;
  cols = record {
    id = id;
    owner_id = credential.id;
    version = version;
    status = staging;
    name = name_or_id manifest.name a.id;
    license = manifest.license;
    description = manifest.description;
    author = manifest.author;
    blob_digest = some art.code_digest;
    blob_size = some art.code_length;
    source_digest = none;
    source_size = some art.source_length;
    visibility = visibility;
    published_at = none;
    deprecation_message = none;
    rejection_reason = none;
  };
}

abbrev pub charge_account : ℕ → ℕ → List User → List User
charge_account id bytes users =
    update (λ u. u.id == id) (λ u. record u { blob_bytes = u.blob_bytes + bytes }) users

-- The writes of the first transaction.
unfoldable pub insert_staged : User → Row Version → ℕ → Db → Db
unfolding add_owner
insert_staged owner row bytes db = add_owner row.address owner.id owner.id (record db {
  versions = db.versions ++ row ∷ [];
  users = charge_account owner.id bytes db.users;
  next_version_id = db.next_version_id + 1;
})

-- `if (account) { .. > accountQuota .. }`: an account that is gone is not checked.
unfoldable pub over_quota : Limits → ℕ → Option User → Bool
unfolding quota_for
over_quota limits bytes none = false
over_quota limits bytes (some account) = ltb (quota_for limits account) (account.blob_bytes + bytes)

abbrev pub already_published : ℕ → String → String → Row Version → Bool
already_published owner_id id version r =
    r.cols.owner_id == owner_id && r.address.id == id && r.cols.version == version

module _ (sv : Semver) (limits : Limits) where
  -- The first transaction of `publishVersion`, under the advisory lock of the extension. A violated
  -- key of the table is the 409 of the handler around it.
  unfoldable pub stage :
      User → User → Address → Manifest → Artifacts → Visibility → Db → Answered (Db × Row Version)
  unfolding too_low staged_row insert_staged over_quota
  stage owner credential a manifest art visibility db = do
    version ← present (sv.valid manifest.version) crash
    refuse (is_some (redirect_for db a))
        (conflict "This extension address has been transferred away.")
    refuse (any (λ r. r.cols.owner_id == credential.id && is_unreviewed r.cols.status) db.versions)
        (forbidden "The owner already has a version awaiting review.")
    refuse
        (too_low sv version
          (max_version_by_semver sv (map (λ r. r.cols.version) (keep (is_at a) db.versions))))
        (make 422 none
          (some "The version is not strictly greater than the current highest version."))
    refuse (any (already_published credential.id a.id version) db.versions)
        (make 409 none (some "The version already exists for this extension."))
    let row = staged_row db.next_version_id credential a version manifest art visibility
    let bytes = art.code_length + art.source_length
    refuse (over_quota limits bytes (find (λ u. u.id == owner.id) db.users))
        (make 413 (some "Payload Too Large") (some "Publishing would exceed the storage quota."))
    ok (insert_staged owner row bytes db, row)

-- UPDATE versions SET .. WHERE id = ..
abbrev pub set_version : ℕ → (Version → Version) → Db → Db
set_version id f db = record db {
  versions = update (λ r. r.cols.id == id) (λ r. record r { cols = f r.cols }) db.versions;
}

unfoldable pub store_source : Row Version → Artifacts → Db → Db
store_source row art db =
    set_version row.cols.id (λ v. record v { source_digest = some art.source_digest }) db

-- owner.has_published ? 'published' : 'pending'
abbrev pub final_status : User → Status
final_status owner = if owner.has_published then published else pending

abbrev pub published_time : User → ℕ → Option ℕ
published_time owner now = if owner.has_published then some now else none

unfoldable pub promote : ℕ → User → User → Row Version → Artifacts → Db → Db
unfolding audit
promote now owner actor row art db =
    audit actor "version.publish" (some row.address.namespace) (some row.address.id)
      (some row.cols.version)
      (("status", text (status_text (final_status owner)))
        ∷ ("visibility", text (visibility_text row.cols.visibility))
        ∷ ("bytes", number art.code_length)
        ∷ ("sourceBytes", number art.source_length)
        ∷ [])
      (set_version row.cols.id
        (λ v. record v { status = final_status owner; published_at = published_time owner now }) db)

-- Whether each of the two files could be written.
pub record Disk : Type 0 where
  pub source_stored : Bool
  pub blob_stored : Bool

-- The two later transactions, each behind a write to the disk. The first stays committed if one
-- fails, so the tables come back beside an error too.
unfoldable pub finish :
    Disk
    → ℕ
    → User
    → User
    → Artifacts
    → Db
    → Answered (Db × Row Version)
    → Db × Answered (Row Version)
unfolding store_source promote
finish disk now owner credential art db (err e) = (db, err e)
finish disk now owner credential art db (ok (staged_db, row)) =
    if not disk.source_stored
    then (staged_db, err crash)
    else if not disk.blob_stored
    then (store_source row art staged_db, err crash)
    else (let db' = promote now owner credential row art (store_source row art staged_db) in
        (
          db',
          present (find (λ r. r.cols.id == row.cols.id) db'.versions)
              (make 409 none (some "Version row disappeared before promotion.")),
        ))

unfoldable pub publish_version :
    Semver
    → Limits
    → Disk
    → ℕ
    → User
    → User
    → Address
    → Manifest
    → Artifacts
    → Visibility
    → Db
    → Db × Answered (Row Version)
unfolding stage finish
publish_version sv limits disk now owner credential a manifest art visibility db =
    finish disk now owner credential art db
      (stage sv limits owner credential a manifest art visibility db)
