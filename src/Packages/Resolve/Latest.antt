-- ===== src/Packages/Resolve/Latest.antt =====
-- What `loadLatestPublished` answers.
use twexthub.Shared.{
  String, ◌≡◌, refl, true, false, ◌&&◌, Option, none, some, List, [], ◌∷◌, string_eq, arith,
  Bool-cases, inl, inr, All, All-imp, All-keep, All-keep_self, All-Memᴰ, find-Memᴰ, keep, map,
}
use twexthub.Util.Versions.{Semver, is_valid, max_version_by_semver}
use twexthub.Util.Versions.Maximum.{max_version_by_semver-greatest}
use twexthub.Db.{Db, User, Row, Version, Address, is_at, is_listed, is_published}
use twexthub.Access.Ownership.{can_see}
use twexthub.Transfer.Offers.{is_empty}
use twexthub.Packages.Resolve.{
  shown, visible_versions, latest_pool, same_version, load_latest_published,
}

All-map :
    {A B : Type 0} (P : B → Type 0) (f : A → B) (xs : List A)
    → All P (map f xs)
    → All (λ x. P (f x)) xs
All-map P f [] h = tt
All-map P f (x ∷ xs) h = (h.0, All-map P f xs h.1)

All-both :
    {A : Type 0} (P Q : A → Type 0) (xs : List A) → All P xs → All Q xs → All (λ x. P x × Q x) xs
All-both P Q [] h k = tt
All-both P Q (x ∷ xs) h k = ((h.0, k.0), All-both P Q xs h.1 k.1)

same_version-some :
    (o : Option String) (r : Row Version)
    → same_version o r ≡ true
    → (m : String) × (o ≡ some m) × (r.cols.version ≡ m)
same_version-some none r h = cc
same_version-some (some m) r h = (m, refl, ground (arith, string_eq.beq_iff r.cols.version m))

abbrev pub Serves : Db → Option User → Address → Row Version → Type 0
Serves db caller a r =
    (is_at a r ≡ true) × (is_listed r.cols.status ≡ true) × (can_see db caller (shown r) ≡ true)

module _ (sv : Semver) (db : Db) (caller : Option User) (a : Address) where
  visible_versions-Serves : All (Serves db caller a) (visible_versions db caller a)
  unfolding visible_versions
  visible_versions-Serves =
      let listed =
        All-keep_self (λ (r : Row Version). is_at a r && is_listed r.cols.status) db.versions in
      All-imp _ _ (λ r both. (ground (arith, both.0), ground (arith, both.0), both.1))
        (visible_versions db caller a)
        (All-both (λ r. is_at a r && is_listed r.cols.status ≡ true)
          (λ r. can_see db caller (shown r) ≡ true) (visible_versions db caller a)
          (All-keep (λ r. is_at a r && is_listed r.cols.status ≡ true) _ _ listed)
          (All-keep_self (λ r. can_see db caller (shown r)) _))

  -- The latest version that a reader gets is one of the extension that is listed and that the reader
  -- may see, and no valid version among those it was picked from is greater.
  pub load_latest_published-Serves :
      (row : Row Version)
      → load_latest_published sv db caller a ≡ some row
      → Serves db caller a row
        × All
            (λ r. is_valid sv r.cols.version ≡ true → sv.gt r.cols.version row.cols.version ≡ false)
            (latest_pool (visible_versions db caller a))
  unfolding load_latest_published latest_pool
  load_latest_published-Serves row h =
      let P = Serves db caller a in
      let visible = visible_versions db caller a in
      let pool : All P (latest_pool visible) =
        elim (Bool-cases (is_empty (keep (λ r. is_published r.cols.status) visible))) [
          | inl none_yet ↦ rw none_yet visible_versions-Serves
          | inr some_yet ↦ rw some_yet (All-keep P _ _ visible_versions-Serves)
        ] in
      let (listed, same) = find-Memᴰ _ _ row h in
      let (m, top, is_top) =
        same_version-some
          (max_version_by_semver sv (map (λ r. r.cols.version) (latest_pool visible))) row same in
      (
        All-Memᴰ P _ row listed pool,
        rw is_top (
            All-map (λ v. is_valid sv v ≡ true → sv.gt v m ≡ false) (λ r. r.cols.version)
              (latest_pool visible)
              (max_version_by_semver-greatest sv (map (λ r. r.cols.version) (latest_pool visible)) m
                top).2),
      )
