-- ===== src/Packages/Publish/Staging.antt =====
-- What the first transaction of `publishVersion` has checked, and the row that it inserts.
use twexthub.Shared.{
  ◌+◌, String, ◌≡◌, refl, ap, sym, ◌∙◌, true, false, none, some, List, arith, any, keep, map, find,
  ◌==◌, nat_eq, string_eq, All, All-imp, ok, refuse-ok, present-ok, ok-injective, ◌&&◌,
}
use twexthub.Db.{Db, User, Row, Version, Address, Visibility, is_at, is_unreviewed}
use twexthub.Util.Versions.{Semver, is_valid, max_version_by_semver}
use twexthub.Util.Versions.Maximum.{max_version_by_semver-greatest, max_version_by_semver-none}
use twexthub.Transfer.Offers.{Limits}
use twexthub.Transfer.Move.{redirect_for}
use twexthub.Packages.Publish.{
  Manifest, Artifacts, crash, is_some, too_low, staged_row, insert_staged, over_quota,
  already_published, stage,
}

-- The versions that the extension at an address has had.
abbrev pub versions_of : Db → Address → List String
versions_of db a = map (λ r. r.cols.version) (keep (is_at a) db.versions)

pub record Staged (sv : Semver) (limits : Limits) (owner credential : User) (a : Address)
    (manifest : Manifest) (art : Artifacts) (visibility : Visibility) (db staged_db : Db)
    (row : Row Version) : Type 0 where
  pub version : String
  pub normal : sv.valid manifest.version ≡ some version
  pub unmoved : is_some (redirect_for db a) ≡ false
  pub alone :
      any (λ r. r.cols.owner_id == credential.id && is_unreviewed r.cols.status) db.versions ≡ false
  pub higher : too_low sv version (max_version_by_semver sv (versions_of db a)) ≡ false
  pub fresh : any (already_published credential.id a.id version) db.versions ≡ false
  pub room :
      over_quota limits
        (art.code_length + art.source_length)
        (find (λ u. u.id == owner.id) db.users)
      ≡ false
  pub inserted : row ≡ staged_row db.next_version_id credential a version manifest art visibility
  pub tables : staged_db ≡ insert_staged owner row (art.code_length + art.source_length) db

module _ (sv : Semver) (limits : Limits) (owner credential : User) (a : Address)
    (manifest : Manifest) (art : Artifacts) (visibility : Visibility) (db staged_db : Db)
    (row : Row Version) where
  pub stage-Staged :
      stage sv limits owner credential a manifest art visibility db ≡ ok (staged_db, row)
      → Staged sv limits owner credential a manifest art visibility db staged_db row
  unfolding stage
  stage-Staged h =
      let (version, normal, h1) = present-ok (sv.valid manifest.version) crash _ h in
      let (unmoved, h2) = refuse-ok (is_some (redirect_for db a)) _ _ h1 in
      let (alone, h3) = refuse-ok _ _ _ h2 in
      let (higher, h4) =
        refuse-ok (too_low sv version (max_version_by_semver sv (versions_of db a))) _ _ h3 in
      let (fresh, h5) = refuse-ok _ _ _ h4 in
      let (room, h6) =
        refuse-ok
          (over_quota limits (art.code_length + art.source_length)
            (find (λ u. u.id == owner.id) db.users))
          _ _ h5 in
      let pair = ok-injective h6 in
      let inserted : row
          ≡ staged_row db.next_version_id credential a version manifest art visibility =
        sym (ap (λ (p : Db × Row Version). p.1) pair) in
      record {
        version = version;
        normal = normal;
        unmoved = unmoved;
        alone = alone;
        higher = higher;
        fresh = fresh;
        room = room;
        inserted = inserted;
        tables =
            sym (ap (λ (p : Db × Row Version). p.0) pair)
            ∙ ap (λ r. insert_staged owner r (art.code_length + art.source_length) db)
                (sym inserted);
      }

  -- A staged version is strictly greater, by the precedence of `semver`, than every valid version
  -- that the extension has had and the table still holds, whatever its status.
  pub stage-greatest :
      stage sv limits owner credential a manifest art visibility db ≡ ok (staged_db, row)
      → All (λ v. is_valid sv v ≡ true → sv.gt row.cols.version v ≡ true) (versions_of db a)
  unfolding too_low staged_row
  stage-greatest h =
      let s = stage-Staged h in
      rw s.inserted (
        elim (max_version_by_semver sv (versions_of db a))
            as (λ o.
              max_version_by_semver sv (versions_of db a) ≡ o
              → too_low sv s.version o ≡ false
              → All (λ v. is_valid sv v ≡ true → sv.gt s.version v ≡ true) (versions_of db a)) [
                | none ↦ λ none_valid low.
                    All-imp _ _ (λ v invalid valid. ground (arith, invalid, valid))
                      (versions_of db a)
                      (max_version_by_semver-none sv (versions_of db a) none_valid)
                | some m ↦ λ top low.
                    All-imp _ _
                      (λ v beaten valid.
                        sv.gt_compare s.version v m (ground (arith, low)) (beaten valid))
                      (versions_of db a)
                      (max_version_by_semver-greatest sv (versions_of db a) m top).2
              ]
          refl s.higher)
