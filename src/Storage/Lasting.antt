-- ===== src/Storage/Lasting.antt =====
-- Sequences of the steps that write blobs, profile images and accounts.
use twexthub.Shared.{
  ℕ, ◌≡◌, String, Bool, true, Option, List, [], ◌∷◌, nat_eq, string_eq, map, All, All-keep, ok,
}
use twexthub.Db.{Db, User, Upload}
use twexthub.Access.Credentials.{Auth}
use twexthub.Access.Guards.{Answered}
use twexthub.Accounts.Deletion.{delete_user}
use twexthub.Storage.{File, store_blob, sweep_one, remove_blob_if_unused}
use twexthub.Storage.Images.{Image, Hub, Sharp, ImageLimits, upload, clear}
use twexthub.Storage.Uploads.{stored-IsServed, uploaded-IsServed, cleared-IsServed}
use twexthub.Storage.Served.{is_stored, IsShown, IsServed, removed-IsServed, swept-IsServed}

module _ (sha256 : List ℕ → String) where
  abbrev pub images_of : User → Option Upload × Option Upload
  images_of u = (u.avatar_blob, u.banner_blob)

  same-IsShown :
      (files : List File) (users users' : List User)
      → map images_of users' ≡ map images_of users
      → All (IsShown files) users
      → All (IsShown files) users'
  same-IsShown files users users' e h = back users' (rw e (there users h))
    where
      Images : Option Upload × Option Upload → Type 0
      Images p = (is_stored files p.0 ≡ true) × (is_stored files p.1 ≡ true)

      there : (us : List User) → All (IsShown files) us → All Images (map images_of us)
      there [] k = tt
      there (u ∷ us) k = (k.0, there us k.1)

      back : (us : List User) → All Images (map images_of us) → All (IsShown files) us
      back [] k = tt
      back (u ∷ us) k = (k.0, back us k.1)

  -- What may happen next: an image is uploaded or cleared, a publisher stores a blob, a blob is cleaned up
  -- after a request, one digest of a collection's walk is handled, an account is deleted, or the tables
  -- change in another way that leaves the images of the accounts alone.
  pub data Step (s : Hub) : Hub → Type 0 where
    uploaded :
        (print : ℕ → String) (now : ℕ) (sharp : Sharp) (limits : ImageLimits)
        (load : Db → String → Answered User) (may_write : Db → User → User → Bool) (kind : Image)
        (caller : Option Auth) (namespace : String) (buffer : List ℕ) (declared : Option String)
        (s' : Hub)
        → upload print sha256 now sharp limits load may_write kind caller namespace buffer declared
            s
          ≡ ok s'
        → Step s s'
    cleared :
        (load : Db → String → Answered User) (may_write : Db → User → User → Bool) (kind : Image)
        (caller : Option Auth) (namespace : String) (s' : Hub)
        → clear load may_write kind caller namespace s ≡ ok s'
        → Step s s'
    stored :
        (now : ℕ) (buffer : List ℕ)
        → Step s (record s { files = (store_blob sha256 now buffer s.files).0 })
    removed :
        (digest : Option String) (except_id : Option ℕ)
        → Step s (record s { files = (remove_blob_if_unused digest except_id s.db s.files).0 })
    swept :
        (now : ℕ) (snapshot : List String) (digest : String)
        → Step s (record s { files = (sweep_one now snapshot digest s.db s.files).0 })
    left : (id : ℕ) → Step s (record s { db = delete_user id s.db })
    changed :
        (db : Db)
        → map images_of db.users ≡ map images_of s.db.users
        → Step s (record s { db = db })

  pub data Reach (s : Hub) : Hub → Type 0 where
    start : Reach s s
    next : (t u : Hub) → Reach s t → Step t u → Reach s u

  Step-IsServed : (s s' : Hub) → IsServed s → Step s s' → IsServed s'
  unfolding delete_user
  Step-IsServed s s' h (Step.uploaded pr now sh li load may kind c n b d _ r) =
      uploaded-IsServed sha256 pr now sh li load may kind c n b d s s' h r
  Step-IsServed s s' h (Step.cleared load may kind c n _ r) =
      cleared-IsServed sha256 load may kind c n s s' h r
  Step-IsServed s s' h (Step.stored now buffer) = stored-IsServed sha256 now buffer s h
  Step-IsServed s s' h (Step.removed digest except_id) =
      removed-IsServed digest except_id s.db s.files h
  Step-IsServed s s' h (Step.swept now snapshot digest) =
      swept-IsServed now snapshot digest s.db s.files h
  Step-IsServed s s' h (Step.left id) = All-keep _ _ s.db.users h
  Step-IsServed s s' h (Step.changed db same) = same-IsShown s.files s.db.users db.users same h

  -- No profile loses an image that it shows: from a state in which every uploaded avatar and banner is among
  -- the blobs, whatever uploads, removals of images, stored blobs, clean-ups, steps of collections with
  -- a set of references that may be out of date, deletions of accounts and other changes of the tables
  -- that leave the images alone follow, in any order, every
  -- avatar and banner is among the blobs again, those with equal bytes included.
  pub Reach-IsServed : (s s' : Hub) → IsServed s → Reach s s' → IsServed s'
  Reach-IsServed s s' h Reach.start = h
  Reach-IsServed s s' h (Reach.next t u past step) =
      Step-IsServed t u (Reach-IsServed s t h past) step
