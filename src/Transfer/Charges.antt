-- ===== src/Transfer/Charges.antt =====
-- The stored bytes of an account are those that the versions under its namespace charge.
use twexthub.Shared.{
  ℕ, ◌+◌, ◌-◌, ◌≤◌, String, ◌≡◌, ◌≢◌, refl, List, [], ◌∷◌, arith, sum_by, keep, All, if◌then◌else◌,
  ltb, ok, ◌==◌, string_eq, nat_eq, some, find, find-Memᴰ, All-Memᴰ, sym, ◌∙◌, ==_refl, Bool-cases,
  inl, inr,
}
use twexthub.Shared.Rows.{update}
use twexthub.Db.{Db, User, Row, Version, Address, is_at}
use twexthub.Transfer.Offers.{Limits, quota_for, charge, charged_bytes, versions_at}
use twexthub.Transfer.Move.{Moved, move, move_extension, accept_transfer}
use twexthub.Transfer.Accepted.{accept_transfer-Accepted, destination}

-- The bytes of all versions under a namespace.
abbrev pub charge_in : String → List (Row Version) → ℕ
charge_in n rows =
    sum_by (λ (r : Row Version). if r.address.namespace == n then charge r.cols else 0) rows

-- Every account is charged for exactly what is stored under its namespace.
abbrev pub IsAccounted : List User → List (Row Version) → Type 0
IsAccounted users rows = All (λ (u : User). u.blob_bytes ≡ charge_in u.namespace rows) users

charge_in-move :
    (a : Address) (to n : String) (rows : List (Row Version))
    → charge_in n (move a to rows)
        + (if a.namespace == n then sum_by (λ r. charge r.cols) (keep (is_at a) rows) else 0)
      ≡ charge_in n rows
        + (if to == n then sum_by (λ r. charge r.cols) (keep (is_at a) rows) else 0)
charge_in-move a to n [] = ground arith
charge_in-move a to n (r ∷ rs) = elim (Bool-cases (is_at a r)) [
  | inl e ↦
      let same : r.address.namespace ≡ a.namespace =
        ground (arith, string_eq.beq_iff r.address.namespace a.namespace) in
      ground (arith, charge_in-move a to n rs)
  | inr e ↦ ground (arith, charge_in-move a to n rs)
]

charge_in-author :
    (b : Address) (name : Row Version → Row Version) (n : String) (rows : List (Row Version))
    → ((r : Row Version) → (name r).address ≡ r.address)
    → ((r : Row Version) → charge (name r).cols ≡ charge r.cols)
    → charge_in n (update (is_at b) name rows) ≡ charge_in n rows
charge_in-author b name n [] h k = refl
charge_in-author b name n (r ∷ rs) h k = ground (arith, charge_in-author b name n rs, h r, k r)

-- The two writes to the accounts, in the form of the code.
abbrev recharged : String → String → ℕ → List User → List User
recharged from to charged users =
    if ltb 0 charged
    then update (λ u. u.namespace == to) (λ u. record u { blob_bytes = u.blob_bytes + charged })
        (update (λ u. u.namespace == from) (λ u. record u { blob_bytes = u.blob_bytes - charged })
          users)
    else users

module _ (from to : String) (before after : List (Row Version)) (charged : ℕ) (differ : from ≢ to)
    (balance : (n : String)
      → charge_in n after + (if from == n then charged else 0)
        ≡ charge_in n before + (if to == n then charged else 0)) where
  recharged-IsAccounted :
      (users : List User)
      → IsAccounted users before
      → IsAccounted (recharged from to charged users) after
  recharged-IsAccounted [] h = ground arith
  recharged-IsAccounted (u ∷ us) h = ground (
    arith,
    recharged-IsAccounted us,
    balance u.namespace,
    string_eq.beq_iff u.namespace from,
    string_eq.beq_iff from u.namespace,
    string_eq.beq_iff u.namespace to,
    string_eq.beq_iff to u.namespace,
  )

-- The versions that an accepted transfer leaves.
abbrev versions_after : Address → String → String → List (Row Version) → List (Row Version)
versions_after a to name rows =
    update (is_at (destination a to))
      (λ r. record r { cols = record r.cols { author = some name } }) (move a to rows)

balance_after :
    (a : Address) (to name n : String) (rows : List (Row Version))
    → charge_in n (versions_after a to name rows)
        + (if a.namespace == n then charged_bytes (keep (is_at a) rows) else 0)
      ≡ charge_in n rows + (if to == n then charged_bytes (keep (is_at a) rows) else 0)
unfolding charged_bytes
balance_after a to name n rows =
    rw
      (charge_in-author (destination a to)
        (λ r. record r { cols = record r.cols { author = some name } }) n (move a to rows)
        (λ r. refl) (λ r. refl))
      (charge_in-move a to n rows)

module _ (limits : Limits) (actor : User) (a : Address) (to : String) (recipient : User)
    (db db' : Db) (m : Moved) where
  -- An accepted transfer moves the charge with the versions: if the two namespaces differ and every
  -- account was charged for exactly the bytes of the versions under its namespace, so it is after.
  pub accept_transfer-IsAccounted :
      a.namespace ≢ to
      → IsAccounted db.users db.versions
      → accept_transfer limits actor a to recipient db ≡ ok (db', m)
      → IsAccounted db'.users db'.versions
  unfolding move_extension
  accept_transfer-IsAccounted differ h e =
      let acc = accept_transfer-Accepted limits actor a to recipient db db' m e in
      rw acc.tables.same (
        recharged-IsAccounted a.namespace to db.versions
          (versions_after a to recipient.display_name db.versions)
          (charged_bytes (versions_at db a)) differ
          (λ n. balance_after a to recipient.display_name n db.versions) db.users h)

  -- The quota is a hard limit for transfers too: what is stored under the receiving namespace after
  -- an accepted transfer is within the quota of the receiving account, if the namespaces differ,
  -- the accounts were charged exactly and the account has the receiving namespace.
  pub accept_transfer-le-quota :
      (account : User)
      → a.namespace ≢ to
      → IsAccounted db.users db.versions
      → find (λ u. u.id == recipient.id) db.users ≡ some account
      → account.namespace ≡ to
      → accept_transfer limits actor a to recipient db ≡ ok (db', m)
      → charge_in to db'.versions ≤ quota_for limits account
  unfolding move_extension
  accept_transfer-le-quota account differ h found named e =
      let acc = accept_transfer-Accepted limits actor a to recipient db db' m e in
      let same : acc.account ≡ account =
        (let both : some acc.account ≡ some account = sym acc.found ∙ found in cc) in
      let listed = (find-Memᴰ _ db.users account found).0 in
      let exact =
        All-Memᴰ (λ (u : User). u.blob_bytes ≡ charge_in u.namespace db.versions) db.users account
          listed h in
      let exact' : account.blob_bytes ≡ charge_in to db.versions = rw named at exact in
      let room = rw same at acc.room in
      let balance = balance_after a to recipient.display_name to db.versions in
      rw acc.tables.same
        (ground (arith, room, exact', balance, ==_refl to, string_eq.beq_iff a.namespace to))
