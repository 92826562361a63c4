-- ===== src/Storage/Served.antt =====
-- The image that a profile names is in the store: what the writes of the store, of the images and of the
-- accounts keep.
use twexthub.Shared.{
  ℕ, ◌≡◌, refl, ◌∙◌, String, Bool, true, false, not, ◌&&◌, ◌||◌, Option, none, some, List, [], ◌∷◌,
  ◌++◌, ◌==◌, nat_eq, string_eq, ==_refl, eq_of_==, any, find, length, arith, Bool-cases, inl, inr,
  All,
}
use twexthub.Shared.Rows.{delete, update}
use twexthub.Db.{Db, User, Upload}
use twexthub.Storage.{
  File, is_file, is_referenced, kept_by_profile, same_upload, remove_blob_if_unused, store_blob,
  stored_over, sweep_one, is_young,
}
use twexthub.Storage.Images.{Hub}

abbrev pub is_stored : List File → Option Upload → Bool
is_stored files none = true
is_stored files (some image) = any (is_file image.digest) files

abbrev pub IsShown : List File → User → Type 0
IsShown files u = (is_stored files u.avatar_blob ≡ true) × (is_stored files u.banner_blob ≡ true)

-- Every avatar and banner that was uploaded is among the blobs.
abbrev pub IsServed : Hub → Type 0
IsServed s = All (IsShown s.files) s.db.users

-- A blob that no profile names may go.
is_stored-delete :
    (d : String) (files : List File) (image : Option Upload)
    → same_upload image d ≡ false
    → is_stored files image ≡ true
    → is_stored (delete (is_file d) files) image ≡ true
is_stored-delete d files none other h = refl
is_stored-delete d files (some image) other h = left files h
  where
    left :
        (fs : List File)
        → any (is_file image.digest) fs ≡ true
        → any (is_file image.digest) (delete (is_file d) fs) ≡ true
    left [] k = cc
    left (f ∷ fs) k = elim (Bool-cases (is_file d f)) [
      | inr e ↦ rw (e, not) (ground (arith, left fs))
      | inl e ↦ let at = eq_of_== f.digest d e in rw (e, not) (left fs (rest k (differs at)))
    ]
      where
        differs : f.digest ≡ d → is_file image.digest f ≡ false
        differs at = elim (Bool-cases (is_file image.digest f)) [
          | inr e' ↦ e'
          | inl e' ↦
              let same = eq_of_== f.digest image.digest e' in
              absurd (let broken = rw (← same, at, ==_refl d) at other in cc)
        ]

        rest :
            (is_file image.digest f || any (is_file image.digest) fs) ≡ true
            → is_file image.digest f ≡ false
            → any (is_file image.digest) fs ≡ true
        rest a b = ground arith

deleted-IsShown :
    (d : String) (files : List File) (users : List User)
    → any (kept_by_profile d) users ≡ false
    → All (IsShown files) users
    → All (IsShown (delete (is_file d) files)) users
deleted-IsShown d files [] free h = tt
deleted-IsShown d files (u ∷ us) free h = (
  (
    is_stored-delete d files u.avatar_blob (ground arith) h.0.0,
    is_stored-delete d files u.banner_blob (ground arith) h.0.1,
  ),
  deleted-IsShown d files us (ground arith) h.1,
)

-- removeBlobIfUnused, whichever version it leaves out of the check.
pub removed-IsServed :
    (digest : Option String) (except_id : Option ℕ) (db : Db) (files : List File)
    → All (IsShown files) db.users
    → All (IsShown (remove_blob_if_unused digest except_id db files).0) db.users
unfolding remove_blob_if_unused is_referenced
removed-IsServed none except_id db files h = h
removed-IsServed (some d) except_id db files h =
    elim (Bool-cases (d == "" || is_referenced except_id d db)) [
      | inl e ↦ rw e h
      | inr e ↦ rw e (deleted-IsShown d files db.users (ground arith) h)
    ]

pub swept-IsServed :
    (now : ℕ) (snapshot : List String) (digest : String) (db : Db) (files : List File)
    → All (IsShown files) db.users
    → All (IsShown (sweep_one now snapshot digest db files).0) db.users
unfolding sweep_one
swept-IsServed now snapshot digest db files h =
    elim (Bool-cases
      (any (λ d. d == digest) snapshot || is_young now (find (is_file digest) files))) [
        | inl e ↦ rw e h
        | inr e ↦ rw e (removed-IsServed (some digest) none db files h)
      ]

module _ (sha256 : List ℕ → String) (now : ℕ) (buffer : List ℕ) where
  touched : (f : File) → (stored_over sha256 now buffer f).digest ≡ f.digest
  unfolding stored_over
  touched f =
      elim (Bool-cases (length f.content == length buffer && sha256 f.content == sha256 buffer)) [
        | inl e ↦ rw e refl
        | inr e ↦ rw e refl
      ]

  any-update_file :
      (d e : String) (files : List File)
      → any (is_file d) (update (is_file e) (stored_over sha256 now buffer) files)
        ≡ any (is_file d) files
  any-update_file d e [] = refl
  any-update_file d e (f ∷ fs) = elim (Bool-cases (is_file e f)) [
    | inl k ↦ rw (k, touched f, any-update_file d e fs) refl
    | inr k ↦ rw (k, any-update_file d e fs) refl
  ]

  any-last :
      (d : String) (files : List File) (f : File)
      → any (is_file d) (files ++ f ∷ []) ≡ (any (is_file d) files || is_file d f)
  any-last d [] f = ground arith
  any-last d (g ∷ gs) f = ground (arith, any-last d gs f)

  -- A stored content is there, and what was there stays.
  pub store_blob-any :
      (d : String) (files : List File)
      → any (is_file d) (store_blob sha256 now buffer files).0
        ≡ (any (is_file d) files || sha256 buffer == d)
  unfolding store_blob
  store_blob-any d files = elim (Bool-cases (any (is_file (sha256 buffer)) files)) [
    | inl e ↦ rw e (any-update_file d (sha256 buffer) files ∙ there e)
    | inr e ↦ rw e (any-last d files _)
  ]
    where
      there :
          any (is_file (sha256 buffer)) files ≡ true
          → any (is_file d) files ≡ (any (is_file d) files || sha256 buffer == d)
      there e = elim (Bool-cases (sha256 buffer == d)) [
        | inr k ↦ ground arith
        | inl k ↦ let at = eq_of_== (sha256 buffer) d k in rw (k, ← at, e) refl
      ]
