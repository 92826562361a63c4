-- ===== src/Accounts/Deletion/Charges.antt =====
-- The bytes that are charged after an account is deleted.
use twexthub.Shared.{
  ℕ, ◌+◌, String, ◌≡◌, refl, not, ◌||◌, Option, List, [], ◌∷◌, ◌==◌, nat_eq, string_eq, arith,
  Bool-cases, inl, inr, any, ok, require-ok, refuse-ok, >>=-eq-ok, ok-injective,
}
use twexthub.Shared.Rows.{delete}
use twexthub.Db.{User, Row, Version, is_organization}
use twexthub.Access.Credentials.{Auth}
use twexthub.Access.Guards.{require_scope, is_admin}
use twexthub.Transfer.Offers.{is_empty}
use twexthub.Transfer.Charges.{charge_in, IsAccounted}
use twexthub.Accounts.Signing.{Store}
use twexthub.Accounts.Updates.{load_user}
use twexthub.Accounts.Deletion.{
  published_bytes, uncharge, delete_user, delete_account, solely_owned, added_owner,
}

charge_in-delete_owner :
    (id : ℕ) (n : String) (rows : List (Row Version))
    → charge_in n (delete (λ (r : Row Version). r.cols.owner_id == id) rows)
        + published_bytes id n rows
      ≡ charge_in n rows
charge_in-delete_owner id n [] = refl
charge_in-delete_owner id n (r ∷ rs) = ground (arith, charge_in-delete_owner id n rs)

deleted-IsAccounted :
    (id : ℕ) (rows : List (Row Version)) (users : List User)
    → IsAccounted users rows
    → IsAccounted
        (delete (λ u. u.id == id) (uncharge id rows users))
        (delete (λ (r : Row Version). r.cols.owner_id == id) rows)
unfolding uncharge
deleted-IsAccounted id rows [] h = tt
deleted-IsAccounted id rows (u ∷ us) h = elim (Bool-cases (u.id == id)) [
  | inl e ↦ rw (e, not) (rw (e, not) (deleted-IsAccounted id rows us h.1))
  | inr e ↦
      rw (e, not)
        (rw (e, not)
          (
            let split = charge_in-delete_owner id u.namespace rows in omega (arith, split, h.0),
            deleted-IsAccounted id rows us h.1,
          ))
]

-- Deleting an account keeps the charges exact: if every account was charged for exactly the bytes of the
-- versions under its namespace, so is every account that is left, wherever the deleted account had
-- published.
pub delete_account-IsAccounted :
    (caller : Option Auth) (namespace : String) (s s' : Store)
    → IsAccounted s.db.users s.db.versions
    → delete_account caller namespace s ≡ ok s'
    → IsAccounted s'.db.users s'.db.versions
unfolding delete_account delete_user
delete_account-IsAccounted caller namespace s s' h r =
    let (auth, _, r1) = >>=-eq-ok (require_scope "manage:account" caller) _ r in
    let (target, _, r2) = >>=-eq-ok (load_user s.db namespace) _ r1 in
    let (_, r3) = refuse-ok (is_organization target.kind) _ _ r2 in
    let (_, r4) = require-ok (auth.user.namespace == target.namespace || is_admin caller) _ _ r3 in
    let (_, r5) = require-ok (is_empty (solely_owned target.id s.db)) _ _ r4 in
    let (_, r6) = refuse-ok (any (added_owner target.id) s.db.extension_owners) _ _ r5 in
    rw (← ok-injective r6) (deleted-IsAccounted target.id s.db.versions s.db.users h)
