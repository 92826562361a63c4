-- ===== src/Storage/Sweep.antt =====
-- What the collection of the blobs removes.
use twexthub.Shared.{
  ℕ, ◌+◌, ◌≡◌, refl, ap, sym, ◌∙◌, String, Bool, true, false, not, ◌&&◌, ◌||◌, none, List, [], ◌∷◌,
  ◌==◌, nat_eq, string_eq, ==_refl, eq_of_==, if◌then◌else◌, ltb, any, find, keep, map, arith,
  Bool-cases, inl, inr, All,
}
use twexthub.Shared.Rows.{delete}
use twexthub.Db.{Db}
use twexthub.Shared.Filters.{keep_cong, keep-All, keep-keep, none_hit, everywhere}
use twexthub.Storage.References.{any-referenced}
use twexthub.Storage.{
  File, is_file, is_referenced, remove_blob_if_unused, grace, referenced, is_young, sweep_one,
  sweep, gc_blobs,
}

-- One file for each digest, as a directory has.
abbrev pub IsUnique : List File → Type 0
IsUnique [] = Unit
IsUnique (f ∷ fs) = (any (is_file f.digest) fs ≡ false) × IsUnique fs

abbrev pub is_recent : (now : ℕ) → File → Bool
is_recent now f = ltb now (f.modified_at + grace)

keep-IsUnique : (p : File → Bool) (files : List File) → IsUnique files → IsUnique (keep p files)
keep-IsUnique p [] h = tt
keep-IsUnique p (f ∷ fs) h = elim (Bool-cases (p f)) [
  | inr e ↦ rw e (keep-IsUnique p fs h.1)
  | inl e ↦ rw e (none_kept f.digest fs h.0, keep-IsUnique p fs h.1)
]
  where
    none_kept :
        (d : String) (gs : List File)
        → any (is_file d) gs ≡ false
        → any (is_file d) (keep p gs) ≡ false
    none_kept d [] k = refl
    none_kept d (g ∷ gs) k = ground (arith, none_kept d gs)

-- The file of one digest goes unless it is young.
old_goes :
    (now : ℕ) (d : String) (files : List File)
    → IsUnique files
    → (if is_young now (find (is_file d) files) then files else delete (is_file d) files)
      ≡ keep (λ f. not (is_file d f && not (is_recent now f))) files
old_goes now d [] h = refl
old_goes now d (f ∷ fs) h = elim (Bool-cases (is_file d f)) [
  | inl e ↦
      let at = eq_of_== f.digest d e in
      let others : any (is_file d) fs ≡ false = rw (← at) h.0 in
      let kept =
        keep-All (λ g. not (is_file d g && not (is_recent now g))) fs
          (none_hit (is_file d) (λ g. not (is_recent now g)) fs others) in
      elim (Bool-cases (is_recent now f)) [
        | inl young ↦ rw (e, young) (ap (λ r. f ∷ r) (sym kept))
        | inr old ↦
            rw (e, old) (keep-All (λ g. not (is_file d g)) fs (All-not d fs others) ∙ sym kept)
      ]
  | inr e ↦ elim (Bool-cases (is_young now (find (is_file d) fs))) [
    | inl young ↦
        let rest = rw young at (old_goes now d fs h.1) in rw (e, young) (ap (λ r. f ∷ r) rest)
    | inr old ↦ let rest = rw old at (old_goes now d fs h.1) in rw (e, old) (ap (λ r. f ∷ r) rest)
  ]
]
  where
    All-not :
        (k : String) (gs : List File)
        → any (is_file k) gs ≡ false
        → All (λ g. not (is_file k g) ≡ true) gs
    All-not k [] b = tt
    All-not k (g ∷ gs) b = (ground arith, All-not k gs (ground arith))

-- A file that stays, whatever is listed.
abbrev pub stays : (now : ℕ) → List String → Db → File → Bool
stays now snapshot db f =
    f.digest == ""
    || any (λ d. d == f.digest) snapshot
    || is_referenced none f.digest db
    || is_recent now f

module _ (now : ℕ) (snapshot : List String) (db : Db) where
  sweep_one-keep :
      (d : String) (files : List File)
      → IsUnique files
      → (sweep_one now snapshot d db files).0
        ≡ keep (λ f. not (is_file d f) || stays now snapshot db f) files
  unfolding sweep_one remove_blob_if_unused
  sweep_one-keep d files h =
      elim (Bool-cases (d == "" || any (λ e. e == d) snapshot || is_referenced none d db)) [
        | inl e ↦ kept_whole e ∙ sym (keep-All _ files (everywhere _ files (λ f. held e f)))
        | inr e ↦
            gone e
            ∙ old_goes now d files h
            ∙ keep_cong _ _ files (everywhere _ files (λ f. free e f))
      ]
    where
      kept_whole :
          (d == "" || any (λ e. e == d) snapshot || is_referenced none d db) ≡ true
          → (sweep_one now snapshot d db files).0 ≡ files
      kept_whole e =
          elim (Bool-cases (any (λ e. e == d) snapshot || is_young now (find (is_file d) files))) [
            | inl k ↦ rw k refl
            | inr k ↦
                let both : (d == "" || is_referenced none d db) ≡ true = ground arith in
                rw (k, both) refl
          ]

      held :
          (d == "" || any (λ e. e == d) snapshot || is_referenced none d db) ≡ true
          → (f : File) → (not (is_file d f) || stays now snapshot db f) ≡ true
      held e f = elim (Bool-cases (is_file d f)) [
        | inr k ↦ rw k refl
        | inl k ↦ let at = eq_of_== f.digest d k in rw at (ground arith)
      ]

      gone :
          (d == "" || any (λ e. e == d) snapshot || is_referenced none d db) ≡ false
          → (sweep_one now snapshot d db files).0
            ≡ (if is_young now (find (is_file d) files) then files else delete (is_file d) files)
      gone e = elim (Bool-cases (is_young now (find (is_file d) files))) [
        | inl k ↦ rw k (ground arith)
        | inr k ↦
            let known : any (λ e. e == d) snapshot ≡ false = ground arith in
            let rest : (d == "" || is_referenced none d db) ≡ false = ground arith in
            rw (k, known, rest) refl
      ]

      free :
          (d == "" || any (λ e. e == d) snapshot || is_referenced none d db) ≡ false
          → (f : File)
          → not (is_file d f && not (is_recent now f))
            ≡ (not (is_file d f) || stays now snapshot db f)
      free e f = elim (Bool-cases (is_file d f)) [
        | inr k ↦ rw k refl
        | inl k ↦ let at = eq_of_== f.digest d k in rw at (ground arith)
      ]

  sweep-keep :
      (ds : List String) (files : List File)
      → IsUnique files
      → (sweep now snapshot ds db files).0
        ≡ keep (λ f. not (any (λ d. f.digest == d) ds) || stays now snapshot db f) files
  unfolding sweep
  sweep-keep [] files h = sym (keep-All _ files (everywhere _ files (λ f. refl)))
  sweep-keep (d ∷ ds) files h =
      let once = sweep_one-keep d files h in
      let first : File → Bool = λ f. not (is_file d f) || stays now snapshot db f in
      ap (λ fs. (sweep now snapshot ds db fs).0) once
      ∙ sweep-keep ds (keep first files) (keep-IsUnique first files h)
      ∙ keep-keep first (λ f. not (any (λ d. f.digest == d) ds) || stays now snapshot db f) files
      ∙ keep_cong _ _ files (
          everywhere _ files
            (λ f. and_or (f.digest == d) (any (λ d. f.digest == d) ds) (stays now snapshot db f)))
    where
      and_or : (p q r : Bool) → ((not p || r) && (not q || r)) ≡ (not (p || q) || r)
      and_or p q r = ground arith

listed :
    (f : File) (files : List File)
    → any (is_file f.digest) files ≡ true
    → any (λ d. f.digest == d) (map (λ (g : File). g.digest) files) ≡ true
listed f [] h = cc
listed f (g ∷ gs) h = elim (Bool-cases (g.digest == f.digest)) [
  | inl e ↦ let at = eq_of_== g.digest f.digest e in rw at (ground (arith, ==_refl f.digest))
  | inr e ↦ ground (arith, listed f gs (rw e at h))
]

All-listed :
    (all_files : List File) (files : List File)
    → ((f : File) → any (is_file f.digest) files ≡ true → any (is_file f.digest) all_files ≡ true)
    → All (λ f. any (is_file f.digest) all_files ≡ true) files
All-listed all_files [] h = tt
All-listed all_files (f ∷ fs) h =
    (h f (ground (arith, ==_refl f.digest)), All-listed all_files fs (λ g k. h g (ground arith)))

-- A collection that nothing is written to meanwhile removes exactly the blobs that nothing refers to
-- and that were not modified within the last hour: from a directory with one file for each digest, and
-- no file with an empty one, what it leaves are the files that a version, an avatar or a banner
-- refers to and the recent ones, in their order.
pub gc_blobs-keep :
    (now : ℕ) (db : Db) (files : List File)
    → IsUnique files
    → All (λ (f : File). (f.digest == "") ≡ false) files
    → (gc_blobs now db files).0
      ≡ keep (λ f. is_referenced none f.digest db || is_recent now f) files
unfolding gc_blobs
gc_blobs-keep now db files h named =
    sweep-keep now (referenced db) db (map (λ (f : File). f.digest) files) files h
    ∙ keep_cong _ _ files (decided files (All-listed files files (λ f k. k)) named)
  where
    decided :
        (fs : List File)
        → All (λ f. any (is_file f.digest) files ≡ true) fs
        → All (λ (f : File). (f.digest == "") ≡ false) fs
        → All
            (λ f.
              (not (any (λ d. f.digest == d) (map (λ (g : File). g.digest) files))
                || stays now (referenced db) db f)
              ≡ (is_referenced none f.digest db || is_recent now f))
            fs
    decided [] l n = tt
    decided (f ∷ fs) l n = (
      rw (listed f files l.0, n.0, any-referenced f.digest n.0 db) (ground arith),
      decided fs l.1 n.1,
    )
