-- ===== src/Storage/Uploads.antt =====
-- The writes of profile images, and the images that are served.
use twexthub.Shared.{
  ℕ, ◌≡◌, refl, ap, String, Bool, true, Option, none, some, List, ◌==◌, nat_eq, string_eq, ==_refl,
  any, arith, All, All-imp, ok, require-ok, >>=-eq-ok, ok-injective,
}
use twexthub.Shared.Rows.{update, All-update}
use twexthub.Db.{Db, User, Upload}
use twexthub.Access.Credentials.{Auth}
use twexthub.Access.Guards.{Answered, require_scope}
use twexthub.Storage.{File, is_file, store_blob}
use twexthub.Storage.Images.{
  Image, avatar, banner, Hub, Sharp, ImageLimits, set_image, set_upload, upload_of,
  store_profile_image, release, upload, clear, validate_profile_image, fit_profile_image, digest_of,
  replaced,
}
use twexthub.Storage.Served.{is_stored, IsShown, IsServed, removed-IsServed, store_blob-any}

-- A store that has more in it.

-- A store that has more in it.
more-IsShown :
    (files files' : List File) (users : List User)
    → ((d : String) → any (is_file d) files ≡ true → any (is_file d) files' ≡ true)
    → All (IsShown files) users
    → All (IsShown files') users
more-IsShown files files' users more h =
    All-imp _ _ (λ (u : User) p. (still u.avatar_blob p.0, still u.banner_blob p.1)) users h
  where
    still : (image : Option Upload) → is_stored files image ≡ true → is_stored files' image ≡ true
    still none k = refl
    still (some image) k = more image.digest k

set_upload-IsShown :
    (kind : Image) (files : List File) (image : Option Upload) (u : User)
    → is_stored files image ≡ true
    → IsShown files u
    → IsShown files (set_upload kind image u)
set_upload-IsShown avatar files image u there h = (there, h.1)
set_upload-IsShown banner files image u there h = (h.0, there)

release-IsServed : (digest : Option String) (s : Hub) → IsServed s → IsServed (release digest s)
unfolding release
release-IsServed digest s h = removed-IsServed digest none s.db s.files h

module _ (sha256 : List ℕ → String) where
  stored_more :
      (now : ℕ) (buffer : List ℕ) (files : List File) (d : String)
      → any (is_file d) files ≡ true
      → any (is_file d) (store_blob sha256 now buffer files).0 ≡ true
  stored_more now buffer files d h = rw (store_blob-any sha256 now buffer d files, h) refl

  pub stored-IsServed :
      (now : ℕ) (buffer : List ℕ) (s : Hub)
      → IsServed s
      → IsServed (record s { files = (store_blob sha256 now buffer s.files).0 })
  stored-IsServed now buffer s h =
      more-IsShown s.files (store_blob sha256 now buffer s.files).0 s.db.users
        (stored_more now buffer s.files) h

  set_image-IsServed :
      (now : ℕ) (kind : Image) (u : User) (buffer : List ℕ) (content_type : String) (s : Hub)
      → IsServed s
      → IsServed (set_image sha256 now kind u buffer content_type s)
  unfolding set_image store_blob
  set_image-IsServed now kind u buffer content_type s h =
      let files = (store_blob sha256 now buffer s.files).0 in
      let new : any (is_file (sha256 buffer)) files ≡ true =
        rw (store_blob-any sha256 now buffer (sha256 buffer) s.files, ==_refl (sha256 buffer))
          (ground arith) in
      All-update (IsShown files) (λ v. v.id == u.id) _ s.db.users
        (λ v shown hit. set_upload-IsShown kind files _ v new shown)
        (more-IsShown s.files files s.db.users (stored_more now buffer s.files) h)

  pub uploaded-IsServed :
      (print : ℕ → String) (now : ℕ) (sharp : Sharp) (limits : ImageLimits)
      (load : Db → String → Answered User) (may_write : Db → User → User → Bool) (kind : Image)
      (caller : Option Auth) (namespace : String) (buffer : List ℕ) (declared : Option String)
      (s s' : Hub)
      → IsServed s
      → upload print sha256 now sharp limits load may_write kind caller namespace buffer declared s
        ≡ ok s'
      → IsServed s'
  unfolding upload store_profile_image
  uploaded-IsServed print now sharp limits load may_write kind caller namespace buffer declared s s'
        h r =
      let (auth, _, r1) = >>=-eq-ok (require_scope "manage:account" caller) _ r in
      let (target, _, r2) = >>=-eq-ok (load s.db namespace) _ r1 in
      let (_, r3) = require-ok (may_write s.db auth.user target) _ _ r2 in
      let (done, stored, r4) =
        >>=-eq-ok (store_profile_image print sha256 now sharp limits kind target buffer declared s)
          _ r3 in
      let (content_type, _, r5) =
        >>=-eq-ok (validate_profile_image print limits kind buffer declared) _ stored in
      let (fitted, _, r6) = >>=-eq-ok (fit_profile_image sharp kind buffer content_type) _ r5 in
      let same = ap (λ (p : List ℕ × Hub). p.1) (ok-injective r6) in
      let kept : IsServed done.1 =
        rw (← same) (set_image-IsServed now kind target fitted.0 fitted.1 s h) in
      rw (← ok-injective r4) (
        release-IsServed (replaced (digest_of (upload_of kind target)) (sha256 done.0)) done.1 kept)

  pub cleared-IsServed :
      (load : Db → String → Answered User) (may_write : Db → User → User → Bool) (kind : Image)
      (caller : Option Auth) (namespace : String) (s s' : Hub)
      → IsServed s
      → clear load may_write kind caller namespace s ≡ ok s'
      → IsServed s'
  unfolding clear
  cleared-IsServed load may_write kind caller namespace s s' h r =
      let (auth, _, r1) = >>=-eq-ok (require_scope "manage:account" caller) _ r in
      let (target, _, r2) = >>=-eq-ok (load s.db namespace) _ r1 in
      let (_, r3) = require-ok (may_write s.db auth.user target) _ _ r2 in
      let emptied =
        All-update (IsShown s.files) (λ v. v.id == target.id) (set_upload kind none) s.db.users
          (λ v shown hit. set_upload-IsShown kind s.files none v refl shown) h in
      rw (← ok-injective r3) (
        release-IsServed (digest_of (upload_of kind target))
          (record s {
            db = record s.db {
              users = update (λ v. v.id == target.id) (set_upload kind none) s.db.users;
            };
          })
          emptied)
