-- ===== src/Storage/Images.antt =====
-- src/profile-images.js, and the routes of src/routes/profile-images.js that write. The library sharp,
-- the hash of a content and the clock are parameters. A body is the list of its bytes.
use twexthub.Notify.{concat}
use twexthub.Shared.{
  ℕ, ◌/◌, ◌*◌, String, Bool, true, ◌&&◌, ◌||◌, Option, none, some, List, [], ◌∷◌, ◌==◌, nat_eq,
  string_eq, if◌then◌else◌, leb, ltb, length, ok, refuse, require, present, ◌>>=◌, ◌>>◌,
}
use twexthub.Shared.Rows.{update}
use twexthub.Http.Errors.{HttpError, forbidden, payload_too_large, unsupported_media_type}
use twexthub.Db.{Db, User, Upload}
use twexthub.Access.Credentials.{Auth}
use twexthub.Access.Guards.{Answered, require_scope}
use twexthub.Accounts.Updates.{load_user}
use twexthub.Organizations.{load_org, is_org_owner}
use twexthub.Storage.{File, store_blob, remove_blob_if_unused}
use twexthub.Storage.Sniff.{sniff_image_type}

pub data Image : Type 0 where
  avatar banner : Image

-- config.limits
pub record ImageLimits : Type 0 where
  pub max_avatar_bytes : Option ℕ
  pub max_banner_bytes : Option ℕ
  pub max_profile_image_bytes : Option ℕ

abbrev own_limit : ImageLimits → Image → Option ℕ
own_limit limits avatar = limits.max_avatar_bytes
own_limit limits banner = limits.max_banner_bytes

abbrev or_else : Option ℕ → Option ℕ → Option ℕ
or_else none other = other
or_else (some n) other = some n

abbrev or_zero : Option ℕ → ℕ → ℕ
or_zero none n = n
or_zero (some m) n = m

-- limitFor
unfoldable pub limit_for : ImageLimits → Image → ℕ
limit_for limits kind =
    or_zero (or_else (own_limit limits kind) limits.max_profile_image_bytes) (2 * 1024 * 1024)

abbrev pub upload_of : Image → User → Option Upload
upload_of avatar u = u.avatar_blob
upload_of banner u = u.banner_blob

abbrev pub set_upload : Image → Option Upload → User → User
set_upload avatar upload u = record u { avatar_blob = upload }
set_upload banner upload u = record u { banner_blob = upload }

-- The declared type without its parameters, trimmed and in lower case: an argument here, where `none`
-- is one that is empty.
unfoldable pub agrees : Option String → String → Bool
agrees none sniffed = true
agrees (some declared) sniffed = declared == "application/octet-stream" || declared == sniffed

abbrev declared_text : Option String → String
declared_text none = ""
declared_text (some declared) = declared

-- validateProfileImage: the type of the bytes
unfoldable pub validate_profile_image :
    (print : ℕ → String)
    → ImageLimits
    → Image
    → List ℕ
    → (declared : Option String) → Answered String
unfolding limit_for sniff_image_type agrees concat
validate_profile_image print limits kind buffer declared = do
  refuse (length buffer == 0) (payload_too_large "Image body is empty.")
  refuse (ltb (limit_for limits kind) (length buffer)) (
      payload_too_large (
        concat (
          "Image is larger than the "
          ∷ print (limit_for limits kind / 1024)
          ∷ " KiB limit for this field."
          ∷ [])))
  sniffed ← present (sniff_image_type buffer) (
      unsupported_media_type
        "Unsupported image type. Upload a PNG, JPEG, GIF, WebP, or AVIF file (image/png, image/jpeg, image/gif, image/webp, image/avif).")
  require (agrees declared sniffed) (
      unsupported_media_type (
        concat (
          "Image content type "
          ∷ declared_text declared
          ∷ " does not match the uploaded data, which is "
          ∷ sniffed
          ∷ "."
          ∷ [])))
  ok sniffed

pub record Size : Type 0 where
  pub width : ℕ
  pub height : ℕ

pub record Resized : Type 0 where
  pub pixels : List ℕ
  pub info : Size

-- sharp: the size of an image, and the image scaled for its kind; `none` is a thrown error.
pub record Sharp : Type 0 where
  pub metadata : List ℕ → Option Size
  pub resize : (animated : Bool) → Image → List ℕ → Option Resized

-- width, height and fit of PROFILE_IMAGES
abbrev is_settled : Image → Size → Bool
is_settled avatar size = leb size.width 2000 && leb size.height 2000
is_settled banner size = size.width == 3000 && size.height == 1000

abbrev unreadable : HttpError
unreadable = unsupported_media_type "The uploaded file is not a readable image."

abbrev sniffed_or : String → List ℕ → String
sniffed_or content_type buffer = elim (sniff_image_type buffer) [ none ↦ content_type | some t ↦ t ]

unfoldable pub scaled : Sharp → Image → List ℕ → String → Size → Answered (List ℕ × String)
unfolding sniff_image_type
scaled sharp kind buffer content_type source = do
  resized ← present (sharp.resize (content_type == "image/gif") kind buffer) unreadable
  ok (
      if resized.info.width == source.width && resized.info.height == source.height
      then (buffer, content_type)
      else (resized.pixels, sniffed_or content_type resized.pixels))

-- fitProfileImage
unfoldable pub fit_profile_image : Sharp → Image → List ℕ → String → Answered (List ℕ × String)
unfolding scaled
fit_profile_image sharp kind buffer content_type = do
  source ← present (sharp.metadata buffer) unreadable
  if is_settled kind source
      then ok (buffer, content_type)
      else scaled sharp kind buffer content_type source

-- The tables and the directory of the blobs.
pub record Hub : Type 0 where
  pub db : Db
  pub files : List File

module _ (sha256 : List ℕ → String) (now : ℕ) where
  -- The transaction of storeProfileImage.
  unfoldable pub set_image : Image → User → List ℕ → String → Hub → Hub
  unfolding store_blob
  set_image kind u buffer content_type s =
      let (files, digest) = store_blob sha256 now buffer s.files in
      record {
        db = record s.db {
          users =
              update (λ v. v.id == u.id)
                (set_upload kind (
                  some (record {
                    digest = digest;
                    content_type = content_type;
                    bytes = length buffer;
                  })))
                s.db.users;
        };
        files = files;
      }

abbrev pub digest_of : Option Upload → Option String
digest_of none = none
digest_of (some upload) = some upload.digest

-- removeProfileImageBlob of the replaced image, where there was another one
unfoldable pub release : Option String → Hub → Hub
unfolding remove_blob_if_unused
release digest s = record s { files = (remove_blob_if_unused digest none s.db s.files).0 }

abbrev pub replaced : Option String → String → Option String
replaced none digest = none
replaced (some previous) digest = if previous == digest then none else some previous

-- DELETE /:namespace/avatar and /banner
unfoldable pub clear :
    (load : Db → String → Answered User)
    → (may_write : Db → User → User → Bool) → Image
    → Option Auth
    → (namespace : String) → Hub
    → Answered Hub
unfolding require_scope release
clear load may_write kind caller namespace s = do
  auth ← require_scope "manage:account" caller
  target ← load s.db namespace
  require (may_write s.db auth.user target)
      (forbidden "You can only change your own profile images.")
  ok (
      release (digest_of (upload_of kind target)) (record s {
        db = record s.db {
          users = update (λ v. v.id == target.id) (set_upload kind none) s.db.users;
        };
      }))

-- The mayWrite of an account's routes.
abbrev pub is_self : Db → User → User → Bool
is_self db account target = account.id == target.id

unfoldable pub clear_account_image : Image → Option Auth → (namespace : String) → Hub → Answered Hub
unfolding clear load_user
clear_account_image = clear load_user is_self

unfoldable pub clear_organization_image :
    Image → Option Auth → (namespace : String) → Hub → Answered Hub
unfolding clear load_org is_org_owner
clear_organization_image = clear load_org is_org_owner

module _ (print : ℕ → String) (sha256 : List ℕ → String) (now : ℕ) (sharp : Sharp)
    (limits : ImageLimits) where
  -- storeProfileImage: the bytes that were stored, and the state
  unfoldable pub store_profile_image :
      Image → User → List ℕ → (declared : Option String) → Hub → Answered (List ℕ × Hub)
  unfolding validate_profile_image fit_profile_image set_image
  store_profile_image kind u buffer declared s = do
    content_type ← validate_profile_image print limits kind buffer declared
    (fitted, fitted_type) ← fit_profile_image sharp kind buffer content_type
    ok (fitted, set_image sha256 now kind u fitted fitted_type s)

  -- PUT /:namespace/avatar and /banner: `load` and `may_write` are the mounting router's
  unfoldable pub upload :
      (load : Db → String → Answered User)
      → (may_write : Db → User → User → Bool) → Image
      → Option Auth
      → (namespace : String) → List ℕ
      → (declared : Option String) → Hub
      → Answered Hub
  unfolding require_scope store_profile_image release
  upload load may_write kind caller namespace buffer declared s = do
    auth ← require_scope "manage:account" caller
    target ← load s.db namespace
    require (may_write s.db auth.user target)
        (forbidden "You can only change your own profile images.")
    (fitted, stored) ← store_profile_image kind target buffer declared s
    ok (release (replaced (digest_of (upload_of kind target)) (sha256 fitted)) stored)

  unfoldable pub upload_account_image :
      Image
      → Option Auth
      → (namespace : String) → List ℕ
      → (declared : Option String) → Hub
      → Answered Hub
  unfolding upload load_user
  upload_account_image = upload load_user is_self

  unfoldable pub upload_organization_image :
      Image
      → Option Auth
      → (namespace : String) → List ℕ
      → (declared : Option String) → Hub
      → Answered Hub
  unfolding upload load_org is_org_owner
  upload_organization_image = upload load_org is_org_owner
