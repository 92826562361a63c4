-- ===== src/Packages/Publish/Outcome.antt =====
-- The accounts and the reviews that `publishVersion` leaves, whether it succeeds or fails on the way.
use twexthub.Shared.{
  ℕ, ◌+◌, ◌≤◌, String, ◌≡◌, ap, List, [], ◌∷◌, ◌++◌, arith, keep, ◌==◌, nat_eq, string_eq, All, inl,
  inr, length,
}
use twexthub.Shared.Rows.{keep-eq-nil}
use twexthub.Db.{Db, User, Row, Version, Address, Visibility}
use twexthub.Util.Versions.{Semver}
use twexthub.Transfer.Offers.{Limits, charge}
use twexthub.Transfer.Charges.{charge_in, IsAccounted}
use twexthub.Packages.Publish.{Manifest, Artifacts, Disk, charge_account, publish_version}
use twexthub.Packages.Publish.Growth.{IsNumbered, awaits, publish_version-Grown}

charge_in-append :
    (n : String) (xs ys : List (Row Version))
    → charge_in n (xs ++ ys) ≡ charge_in n xs + charge_in n ys
charge_in-append n [] ys = omega arith
charge_in-append n (x ∷ xs) ys = ground (arith, charge_in-append n xs ys)

-- The account of a namespace and the publishing account are one.
abbrev pub IsHolder : User → String → List User → Type 0
IsHolder owner namespace users =
    All (λ (u : User). (u.id == owner.id) ≡ (u.namespace == namespace)) users

charge_account-IsAccounted :
    (owner : User) (row : Row Version) (rows : List (Row Version)) (users : List User)
    → IsHolder owner row.address.namespace users
    → IsAccounted users rows
    → IsAccounted (charge_account owner.id (charge row.cols) users) (rows ++ row ∷ [])
charge_account-IsAccounted owner row rows [] holder h = tt
charge_account-IsAccounted owner row rows (u ∷ us) holder h = ground (
  arith,
  charge_account-IsAccounted owner row rows us,
  charge_in-append u.namespace rows (row ∷ []),
  string_eq.beq_iff u.namespace row.address.namespace,
  string_eq.beq_iff row.address.namespace u.namespace,
)

unreviewed-append :
    (o : ℕ) (xs ys : List (Row Version))
    → length (keep (awaits o) (xs ++ ys))
      ≡ length (keep (awaits o) xs) + length (keep (awaits o) ys)
unreviewed-append o [] ys = omega arith
unreviewed-append o (x ∷ xs) ys = ground (arith, unreviewed-append o xs ys)

module _ (sv : Semver) (limits : Limits) (disk : Disk) (now : ℕ) (owner credential : User)
    (a : Address) (manifest : Manifest) (art : Artifacts) (visibility : Visibility) (db : Db) where
  -- Publishing keeps the accounts exact on every branch, a failed write to the disk included: if the
  -- table's ids are behind its sequence, the publishing account is the one account with the
  -- namespace of the extension, and every account was charged for exactly the bytes of the versions
  -- under its namespace, so it is after.
  pub publish_version-IsAccounted :
      IsNumbered db
      → IsHolder owner a.namespace db.users
      → IsAccounted db.users db.versions
      → IsAccounted
          (publish_version sv limits disk now owner credential a manifest art visibility db).0.users
          (publish_version sv limits disk now owner credential a manifest art visibility
            db).0.versions
  publish_version-IsAccounted numbered holder h =
      elim (publish_version-Grown sv limits disk now owner credential a manifest art visibility db
        numbered) [
          | inl same ↦ rw same h
          | inr g ↦
              rw (g.versions, g.users, ← g.charged)
                (charge_account-IsAccounted owner g.row db.versions db.users (rw g.address holder)
                  h)
        ]

  -- Publishing keeps at most one version of an account in review: if the table's ids are behind its
  -- sequence and an account has at most one version that is staging or pending, so it has after.
  pub publish_version-le-one :
      (o : ℕ)
      → IsNumbered db
      → length (keep (awaits o) db.versions) ≤ 1
      → length (
          keep
            (awaits o)
            (publish_version sv limits disk now owner credential a manifest art visibility
              db).0.versions)
        ≤ 1
  publish_version-le-one o numbered h =
      elim (publish_version-Grown sv limits disk now owner credential a manifest art visibility db
        numbered) [
          | inl same ↦ rw same h
          | inr g ↦
              let none_left : length (keep (awaits credential.id) db.versions) ≡ 0 =
                ap length (keep-eq-nil (awaits credential.id) db.versions g.alone) in
              rw g.versions (
                ground (
                  arith,
                  unreviewed-append o db.versions (g.row ∷ []),
                  g.owner_id,
                  none_left,
                  nat_eq.beq_iff credential.id o,
                ))
        ]
