-- ===== src/Storage/References.antt =====
-- The set of references that a collection reads.
use twexthub.Shared.{
  ◌≡◌, refl, ◌∙◌, String, Bool, true, false, ◌&&◌, Option, none, some, List, [], ◌∷◌, ◌++◌, ◌==◌,
  nat_eq, string_eq, eq_of_==, any, arith, Bool-cases, inl, inr,
}
use twexthub.Shared.Rows.{any-append}
use twexthub.Db.{Db, User, Row, Version, Upload}
use twexthub.Storage.{
  is_referenced, kept_by_version, kept_by_profile, same_digest, same_upload, digest_list,
  digests_of_version, digest_of_upload, concat_map, referenced,
}

-- One file for each digest, as a directory has.

-- The set that is read holds what a version or a profile names.
module _ (d : String) (some_text : (d == "") ≡ false) where
  any-concat_map :
      {A : Type 0} (f : A → List String) (p : A → Bool) (xs : List A)
      → ((x : A) → any (λ e. e == d) (f x) ≡ p x)
      → any (λ e. e == d) (concat_map f xs) ≡ any p xs
  any-concat_map f p [] same = refl
  any-concat_map f p (x ∷ xs) same =
      any-append (λ e. e == d) (f x) (concat_map f xs)
      ∙ rw (same x, any-concat_map f p xs same) refl

  of_version :
      (r : Row Version) → any (λ e. e == d) (digests_of_version r) ≡ kept_by_version none d r
  of_version r = of_option r.cols.blob_digest
    where
      of_option :
          (o : Option String) → any (λ e. e == d) (digest_list o) ≡ (same_digest o d && true)
      of_option none = refl
      of_option (some e) = ground arith

  no_text : ("" == d) ≡ false
  no_text = elim (Bool-cases ("" == d)) [
    | inr e ↦ e
    | inl e ↦ absurd (let at = eq_of_== "" d e in let broken = rw (← at) at some_text in cc)
  ]

  of_upload : (u : Option Upload) → any (λ e. e == d) (digest_of_upload u) ≡ same_upload u d
  of_upload none = refl
  of_upload (some u) = elim (Bool-cases (u.digest == "")) [
    | inr e ↦ rw e (ground arith)
    | inl e ↦ let at = eq_of_== u.digest "" e in rw at (rw no_text refl)
  ]

  pub any-referenced : (db : Db) → any (λ e. e == d) (referenced db) ≡ is_referenced none d db
  unfolding referenced is_referenced
  any-referenced db =
      any-append (λ e. e == d) (concat_map digests_of_version db.versions) _
      ∙ rw
          (
            any-concat_map digests_of_version (kept_by_version none d) db.versions of_version,
            any-concat_map
                (λ (u : User). digest_of_upload u.avatar_blob ++ digest_of_upload u.banner_blob)
                (kept_by_profile d) db.users
                (λ u.
                  any-append (λ e. e == d) (digest_of_upload u.avatar_blob)
                    (digest_of_upload u.banner_blob)
                  ∙ rw (of_upload u.avatar_blob, of_upload u.banner_blob) refl),
          )
          refl
