-- ===== src/Storage.antt =====
-- src/blobs.js, src/sources.js and `gcBlobs` of src/maintenance.js: the files that are named by the
-- digest of their content. A directory is the list of its files; the hash is a parameter. A stage
-- of a write that fails leaves the file that was there, and is left out.
pub mod Images
pub mod Sniff
pub mod References
pub mod Sweep
pub mod Uploads
pub mod Served
pub mod Lasting
use twexthub.Shared.{
  ℕ, ◌+◌, ◌-◌, ◌*◌, String, Bool, true, false, not, ◌&&◌, ◌||◌, Option, none, some, List, [], ◌∷◌,
  ◌++◌, ◌==◌, nat_eq, string_eq, if◌then◌else◌, leb, ltb, any, find, keep, map, length,
}
use twexthub.Shared.Rows.{delete, upsert}
use twexthub.Db.{Db, User, Row, Version, Upload}

-- A file under blobs/ or sources/, with the two parts of its path as one digest.
pub record File : Type 0 where
  pub digest : String
  pub content : List ℕ
  pub modified_at : ℕ

abbrev pub is_file : String → File → Bool
is_file digest f = f.digest == digest

module _ (sha256 : List ℕ → String) where
  -- A file of the same size and digest is touched, any other is replaced.
  unfoldable pub stored_over : (now : ℕ) → List ℕ → File → File
  stored_over now buffer f =
      if length f.content == length buffer && sha256 f.content == sha256 buffer
      then record f { modified_at = now }
      else record f { content = buffer; modified_at = now }

  -- storeBlob
  unfoldable pub store_blob : (now : ℕ) → List ℕ → List File → List File × String
  unfolding stored_over
  store_blob now buffer files = (
    upsert (is_file (sha256 buffer)) (stored_over now buffer)
        (record { digest = sha256 buffer; content = buffer; modified_at = now }) files,
    sha256 buffer,
  )

  -- storeSource
  unfoldable pub store_source_file : (now : ℕ) → List ℕ → List File → List File × String
  store_source_file now buffer files = (
    upsert (is_file (sha256 buffer)) (λ f. record f { content = buffer; modified_at = now })
        (record { digest = sha256 buffer; content = buffer; modified_at = now }) files,
    sha256 buffer,
  )

abbrev pub same_digest : Option String → String → Bool
same_digest none digest = false
same_digest (some d) digest = d == digest

abbrev pub is_excepted : Option ℕ → ℕ → Bool
is_excepted none id = false
is_excepted (some e) id = e == id

abbrev pub kept_by_version : Option ℕ → String → Row Version → Bool
kept_by_version except_id digest r =
    same_digest r.cols.blob_digest digest && not (is_excepted except_id r.cols.id)

abbrev pub same_upload : Option Upload → String → Bool
same_upload none digest = false
same_upload (some upload) digest = upload.digest == digest

abbrev pub kept_by_profile : String → User → Bool
kept_by_profile digest u = same_upload u.avatar_blob digest || same_upload u.banner_blob digest

-- The two checks of removeBlobIfUnused.
unfoldable pub is_referenced : Option ℕ → String → Db → Bool
is_referenced except_id digest db =
    any (kept_by_version except_id digest) db.versions || any (kept_by_profile digest) db.users

-- removeBlobIfUnused
unfoldable pub remove_blob_if_unused : Option String → Option ℕ → Db → List File → List File × Bool
unfolding is_referenced
remove_blob_if_unused none except_id db files = (files, false)
remove_blob_if_unused (some digest) except_id db files =
    if digest == "" || is_referenced except_id digest db
    then (files, false)
    else (delete (is_file digest) files, any (is_file digest) files)

-- removeSourceIfUnused
unfoldable pub remove_source_if_unused : Option String → Db → List File → List File
remove_source_if_unused none db files = files
remove_source_if_unused (some digest) db files =
    if digest == ""
      || any (λ (r : Row Version). same_digest r.cols.source_digest digest) db.versions
    then files
    else delete (is_file digest) files

-- 60 * 60 * 1000
abbrev pub grace : ℕ
grace = 3600000

abbrev pub digest_list : Option String → List String
digest_list none = []
digest_list (some d) = d ∷ []

abbrev pub digests_of_version : Row Version → List String
digests_of_version r = digest_list r.cols.blob_digest

-- row.digest, where it is not empty
abbrev pub digest_of_upload : Option Upload → List String
digest_of_upload none = []
digest_of_upload (some upload) = if upload.digest == "" then [] else upload.digest ∷ []

abbrev pub concat_map : {A : Type 0} → (A → List String) → List A → List String
concat_map f [] = []
concat_map f (x ∷ xs) = f x ++ concat_map f xs

-- The set of referenced digests.
unfoldable pub referenced : Db → List String
referenced db =
    concat_map digests_of_version db.versions
    ++ concat_map (λ (u : User). digest_of_upload u.avatar_blob ++ digest_of_upload u.banner_blob)
        db.users

-- info.mtimeMs > now - grace, or no file any more; `now` is at least the grace
abbrev pub is_young : (now : ℕ) → Option File → Bool
is_young now none = true
is_young now (some f) = ltb now (f.modified_at + grace)

-- One digest of the walk: the set was read before, the tables are read under the lock.
unfoldable pub sweep_one : (now : ℕ) → List String → String → Db → List File → List File × Bool
unfolding remove_blob_if_unused
sweep_one now snapshot digest db files =
    if any (λ d. d == digest) snapshot || is_young now (find (is_file digest) files)
    then (files, false)
    else remove_blob_if_unused (some digest) none db files

-- The walk over the listed digests, and how many files it removed.
unfoldable pub sweep : (now : ℕ) → List String → List String → Db → List File → List File × ℕ
unfolding sweep_one
sweep now snapshot [] db files = (files, 0)
sweep now snapshot (digest ∷ digests) db files =
    let (files1, removed) = sweep_one now snapshot digest db files in
    let (files2, count) = sweep now snapshot digests db files1 in
    (files2, if removed then count + 1 else count)

-- gcBlobs, where nothing is written meanwhile
unfoldable pub gc_blobs : (now : ℕ) → Db → List File → List File × ℕ
unfolding referenced sweep
gc_blobs now db files = sweep now (referenced db) (map (λ (f : File). f.digest) files) db files
