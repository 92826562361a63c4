-- ===== src/Transfer/Accepted.antt =====
-- What an accepted transfer has checked, and the tables that it leaves.
use twexthub.Shared.{
  ◌+◌, String, ◌≡◌, true, false, none, some, find, any, ltb, ◌==◌, nat_eq, length, require-ok,
  refuse-ok, refuse-last, present-ok, ok, >>=-eq-ok, ok-injective, ap, sym,
}
use twexthub.Http.Errors.{not_found, make}
use twexthub.Db.{Db, User, Address, is_staging}
use twexthub.Notify.Frame.{SameTables, notify_owner_candidate-SameTables, audit-SameTables}
use twexthub.Transfer.Offers.{
  Limits, quota_for, charged_bytes, load_namespace_account, has_offer, versions_at, is_empty,
  is_taken, is_redirected, assert_destination_is_free,
}
use twexthub.Transfer.Move.{Moved, move_extension, accept_transfer}

assert_destination_is_free-ok :
    (db : Db) (b : Address) {t : Unit {0}}
    → assert_destination_is_free db b ≡ ok t
    → (is_taken db b ≡ false) × (is_redirected db b ≡ false)
unfolding assert_destination_is_free
assert_destination_is_free-ok db b h =
    let (free, h') = refuse-ok _ _ _ h in (free, refuse-last _ _ h')

abbrev pub destination : Address → String → Address
destination a to = record { namespace = to; id = a.id }

-- The checks that were passed at the moment of acceptance, and the result.
pub record Accepted (limits : Limits) (actor : User) (a : Address) (to : String) (recipient : User)
    (db db' : Db) (m : Moved) : Type 0 where
  pub offered : has_offer db a to ≡ true
  pub exists : is_empty (versions_at db a) ≡ false
  pub settled : any (λ r. is_staging r.cols.status) (versions_at db a) ≡ false
  pub free : is_taken db (destination a to) ≡ false
  pub unmoved : is_redirected db (destination a to) ≡ false
  pub account : User
  pub found : find (λ u. u.id == recipient.id) db.users ≡ some account
  pub room :
      ltb (quota_for limits account) (account.blob_bytes + charged_bytes (versions_at db a)) ≡ false
  pub tables :
      SameTables (move_extension actor recipient a to (charged_bytes (versions_at db a)) db) db'
  pub counted : m.versions ≡ length (versions_at db a)
  pub moved_bytes : m.bytes_moved ≡ charged_bytes (versions_at db a)

pub accept_transfer-Accepted :
    (limits : Limits) (actor : User) (a : Address) (to : String) (recipient : User) (db db' : Db)
    (m : Moved)
    → accept_transfer limits actor a to recipient db ≡ ok (db', m)
    → Accepted limits actor a to recipient db db' m
unfolding accept_transfer
accept_transfer-Accepted limits actor a to recipient db db' m h =
    let (offered, h1) = require-ok _ _ _ h in
    let (exists, h2) = refuse-ok _ _ _ h1 in
    let (settled, h3) = refuse-ok _ _ _ h2 in
    let (_, checked, h4) = >>=-eq-ok _ _ h3 in
    let (free, unmoved) = assert_destination_is_free-ok db (destination a to) checked in
    let (account, found, h5) =
      present-ok (find (λ u. u.id == recipient.id) db.users)
        (not_found "No such receiving account.") _ h4 in
    let (room, h6) = refuse-ok _ _ _ h5 in
    let (sender, _, h7) =
      present-ok
        (load_namespace_account
          (move_extension actor recipient a to (charged_bytes (versions_at db a)) db) a.namespace)
        (make 500 none none) _ h6 in
    let pair = ok-injective h7 in
    record {
      offered = offered;
      exists = exists;
      settled = settled;
      free = free;
      unmoved = unmoved;
      account = account;
      found = found;
      room = room;
      tables =
          rw (← ap (λ (p : Db × Moved). p.0) pair)
            (audit-SameTables _ _ _ _ _ _ (notify_owner_candidate-SameTables _ _ _ _ _));
      counted = ap (λ (p : Db × Moved). p.1.versions) (sym pair);
      moved_bytes = ap (λ (p : Db × Moved). p.1.bytes_moved) (sym pair);
    }
