-- ===== src/Packages/Removal/Refund.antt =====
-- What a removal gives back to the account, and what it leaves.
use twexthub.Shared.{
  ℕ, ◌+◌, ◌-◌, String, ◌≡◌, refl, ap, true, false, ◌&&◌, Option, none, some, List, [], ◌∷◌, ◌==◌,
  nat_eq, string_eq, arith, Bool-cases, inl, inr, All, find, keep, any, sum_by, ltb, if◌then◌else◌,
  ok, require-ok, refuse-ok, >>=-eq-ok, ok-injective,
}
use twexthub.Shared.Rows.{update, delete}
use twexthub.Util.Regex.{test}
use twexthub.Util.Versions.{Semver}
use twexthub.Db.{Db, User, Row, Version, Tag, Address, is_at, is_staging}
use twexthub.Notify.{audit}
use twexthub.Access.Credentials.{Auth}
use twexthub.Transfer.Offers.{charge, charged_bytes, versions_at, is_empty}
use twexthub.Transfer.Charges.{charge_in, IsAccounted}
use twexthub.Packages.Requests.{Effect, owner_chain, valid_address, is_extension_owner}
use twexthub.Packages.Publish.Outcome.{IsHolder}
use twexthub.Packages.Resolve.{load_version, find_tag, tag_pattern, resolve_version, row_or_tag}
use twexthub.Packages.Removal.{refund, remove_rows, remove_extension}

charge_in-delete :
    (a : Address) (n : String) (rows : List (Row Version))
    → charge_in n (delete (is_at a) rows)
        + (if a.namespace == n then sum_by (λ r. charge r.cols) (keep (is_at a) rows) else 0)
      ≡ charge_in n rows
charge_in-delete a n [] = ground arith
charge_in-delete a n (r ∷ rs) = elim (Bool-cases (is_at a r)) [
  | inl e ↦
      let same : r.address.namespace ≡ a.namespace =
        ground (arith, string_eq.beq_iff r.address.namespace a.namespace) in
      ground (arith, charge_in-delete a n rs)
  | inr e ↦ ground (arith, charge_in-delete a n rs)
]

find-none :
    (n : String) (users : List User)
    → find (λ u. u.namespace == n) users ≡ none
    → All (λ (u : User). (u.namespace == n) ≡ false) users
find-none n [] h = tt
find-none n (u ∷ us) h = ground (arith, find-none n us)

module _ (a : Address) (rows : List (Row Version)) where
  abbrev freed : ℕ
  freed = sum_by (λ r. charge r.cols) (keep (is_at a) rows)

  -- Each account by itself: the balance of the rows, for a holder and for the others.
  refunded-IsAccounted :
      (account : User) (users : List User)
      → IsHolder account a.namespace users
      → IsAccounted users rows
      → IsAccounted
          (update
            (λ u. u.id == account.id)
            (λ u. record u { blob_bytes = u.blob_bytes - freed })
            users)
          (delete (is_at a) rows)
  refunded-IsAccounted account [] holder h = tt
  refunded-IsAccounted account (u ∷ us) holder h = ground (
    arith,
    refunded-IsAccounted account us,
    charge_in-delete a u.namespace rows,
    string_eq.beq_iff u.namespace a.namespace,
    string_eq.beq_iff a.namespace u.namespace,
  )

  untouched-IsAccounted :
      (users : List User)
      → All (λ (u : User). (u.namespace == a.namespace) ≡ false) users
      → IsAccounted users rows
      → IsAccounted users (delete (is_at a) rows)
  untouched-IsAccounted [] absent h = tt
  untouched-IsAccounted (u ∷ us) absent h = ground (
    arith,
    untouched-IsAccounted us,
    charge_in-delete a u.namespace rows,
    string_eq.beq_iff u.namespace a.namespace,
    string_eq.beq_iff a.namespace u.namespace,
  )

  costless-IsAccounted :
      (users : List User)
      → freed ≡ 0
      → IsAccounted users rows
      → IsAccounted users (delete (is_at a) rows)
  costless-IsAccounted [] free h = tt
  costless-IsAccounted (u ∷ us) free h =
      ground (arith, costless-IsAccounted us, charge_in-delete a u.namespace rows, free)

module _ (terms : Option ℕ) (caller : Option Auth) (a : Address) (db : Db) (e : Effect) where
  remove_extension-rows :
      remove_extension terms caller a db ≡ ok e
      → (e.db.versions ≡ (remove_rows a db).versions)
        × (e.db.users ≡ (remove_rows a db).users)
        × (e.db.dist_tags ≡ db.dist_tags)
  unfolding remove_extension audit remove_rows
  remove_extension-rows r =
      let (auth, _, r1) = >>=-eq-ok (owner_chain terms caller) _ r in
      let (_, _, r2) = >>=-eq-ok (valid_address a) _ r1 in
      let (_, r3) = require-ok (is_extension_owner db auth.user a) _ _ r2 in
      let (_, r4) = refuse-ok (is_empty (versions_at db a)) _ _ r3 in
      let (_, r5) = refuse-ok (any (λ r. is_staging r.cols.status) (versions_at db a)) _ _ r4 in
      rw (← ok-injective r5) (refl, refl, refl)

  -- A removal refunds exactly what it frees: if an account that is found under the namespace of the
  -- extension is the one with its id and the one with that namespace, and every account was charged
  -- for exactly the bytes of the versions under its namespace, so it is after.
  pub remove_extension-IsAccounted :
      ((account : User)
        → find (λ u. u.namespace == a.namespace) db.users ≡ some account
        → IsHolder account a.namespace db.users)
      → IsAccounted db.users db.versions
      → remove_extension terms caller a db ≡ ok e
      → IsAccounted e.db.users e.db.versions
  unfolding remove_rows refund charged_bytes
  remove_extension-IsAccounted holder h r =
      let (rows, users, _) = remove_extension-rows r in
      rw (rows, users)
        (elim (Bool-cases (ltb 0 (charged_bytes (versions_at db a)))) [
          | inr free ↦ rw free (costless-IsAccounted a db.versions db.users (ground arith) h)
          | inl costs ↦ rw costs (
              elim (find (λ u. u.namespace == a.namespace) db.users)
                  as (λ o.
                    find (λ u. u.namespace == a.namespace) db.users ≡ o
                    → IsAccounted
                        (elim o [
                          | none ↦ db.users
                          | some account ↦
                              update (λ u. u.id == account.id)
                                (λ u. record u {
                                  blob_bytes = u.blob_bytes - charged_bytes (versions_at db a);
                                })
                                db.users
                        ])
                        (delete (is_at a) db.versions)) [
                          | none ↦ λ found.
                              untouched-IsAccounted a db.versions db.users
                                (find-none a.namespace db.users found) h
                          | some account ↦ λ found.
                              refunded-IsAccounted a db.versions account db.users
                                (holder account found) h
                        ]
                refl)
        ])

  -- A dist-tag outlives its extension: after a removal, the name of a tag of the extension, other
  -- than `latest`, resolves to no row rather than to the answer 404.
  pub remove_extension-dangling_tag :
      (sv : Semver) (reader : Option User) (tag : String) (row : Row Tag)
      → (tag == "latest") ≡ false
      → test tag_pattern tag ≡ true
      → find_tag db a tag ≡ some row
      → remove_extension terms caller a db ≡ ok e
      → resolve_version sv e.db reader a tag ≡ ok none
  unfolding remove_rows resolve_version row_or_tag find_tag load_version
  remove_extension-dangling_tag sv reader tag row named shaped found r =
      let (rows, _, tags) = remove_extension-rows r in
      let gone = λ (v : String). gone_version v db.versions in
      rw (named, rows, tags, gone tag, shaped, found) (ap ok (gone row.cols.version))
    where
      gone_version :
          (v : String) (rs : List (Row Version))
          → find (λ r. is_at a r && r.cols.version == v) (delete (is_at a) rs) ≡ none
      gone_version v [] = refl
      gone_version v (r ∷ rs) = ground (arith, gone_version v rs)
