-- ===== src/Transfer/Withdrawal.antt =====
-- An offer that is withdrawn was never made.
use twexthub.Shared.{
  ℕ, ◌+◌, String, ◌≡◌, ap, ◌∙◌, true, false, List, [], ◌∷◌, ◌++◌, arith, any, ltb, ok, string_eq,
  refuse-ok, require-ok, >>=-eq-ok, ok-injective, ==_refl,
}
use mathlib.Core.Path.{subst}
use twexthub.Shared.Rows.{delete}
use twexthub.Db.{Db, User, Row, Offer, Address, is_staging}
use twexthub.Notify.Frame.{SameTables, notify_owner_candidate-SameTables, audit-SameTables}
use twexthub.Transfer.Offers.{
  Limits, is_offer, has_offer, add_offer, drop_offer, opened, open_transfer, withdrawn,
  withdraw_transfer, charged_bytes, quota_for, versions_at, is_empty, assert_destination_is_free,
}

delete-append_new :
    (a : Address) (to : String) (o : Row Offer) (rows : List (Row Offer))
    → is_offer a to o ≡ true
    → any (is_offer a to) rows ≡ false
    → delete (is_offer a to) (rows ++ o ∷ []) ≡ rows
delete-append_new a to o [] h k = ground arith
delete-append_new a to o (r ∷ rs) h k = ground (arith, delete-append_new a to o rs)

-- What an opened offer has checked, and the tables that it leaves.
record Opened (limits : Limits) (actor : User) (a : Address) (to : String) (recipient : User)
    (db db' : Db) : Type 0 where
  new : has_offer db a to ≡ false
  room :
      ltb (quota_for limits recipient) (recipient.blob_bytes + charged_bytes (versions_at db a))
      ≡ false
  tables : SameTables (add_offer actor a to db) db'

opened-SameTables :
    (actor : User) (a : Address) (to : String) (recipient : User) (db : Db)
    → SameTables (add_offer actor a to db) (opened actor a to recipient db)
unfolding opened
opened-SameTables actor a to recipient db =
    audit-SameTables _ _ _ _ _ _ (notify_owner_candidate-SameTables _ _ _ _ _)

withdrawn-SameTables :
    (actor : User) (a : Address) (to : String) (recipient : User) (db : Db)
    → SameTables (drop_offer a to db) (withdrawn actor a to recipient db)
unfolding withdrawn
withdrawn-SameTables actor a to recipient db =
    audit-SameTables _ _ _ _ _ _ (notify_owner_candidate-SameTables _ _ _ _ _)

open_transfer-Opened :
    (limits : Limits) (actor : User) (a : Address) (to : String) (recipient : User) (db db' : Db)
    → open_transfer limits actor a to recipient db ≡ ok db'
    → Opened limits actor a to recipient db db'
unfolding open_transfer
open_transfer-Opened limits actor a to recipient db db' h =
    let (new, h1) = refuse-ok (has_offer db a to) _ _ h in
    let (_, h2) = refuse-ok (is_empty (versions_at db a)) _ _ h1 in
    let (_, h3) = refuse-ok (any (λ r. is_staging r.cols.status) (versions_at db a)) _ _ h2 in
    let (_, _, h4) =
      >>=-eq-ok (assert_destination_is_free db (record { namespace = to; id = a.id })) _ h3 in
    let (room, h5) = refuse-ok _ _ _ h4 in
    let result : opened actor a to recipient db ≡ db' = ok-injective h5 in
    record {
      new = new;
      room = room;
      tables =
          subst (SameTables (add_offer actor a to db)) result
            (opened-SameTables actor a to recipient db);
    }

pub open_transfer-tables :
    (limits : Limits) (actor : User) (a : Address) (to : String) (recipient : User) (db db' : Db)
    → open_transfer limits actor a to recipient db ≡ ok db'
    → SameTables (add_offer actor a to db) db'
open_transfer-tables limits actor a to recipient db db' h =
    (open_transfer-Opened limits actor a to recipient db db' h).tables

pub withdraw_transfer-tables :
    (actor : User) (a : Address) (to : String) (recipient : User) (db db' : Db)
    → withdraw_transfer actor a to recipient db ≡ ok db'
    → SameTables (drop_offer a to db) db'
unfolding withdraw_transfer
withdraw_transfer-tables actor a to recipient db db' h =
    let (_, h1) = require-ok _ _ _ h in
    let result : withdrawn actor a to recipient db ≡ db' = ok-injective h1 in
    subst (SameTables (drop_offer a to db)) result (withdrawn-SameTables actor a to recipient db)

is_offer_self :
    (a : Address) (to : String) (n : ℕ)
    → is_offer a to (record { address = a; cols = record { to_namespace = to; requested_by = n } })
      ≡ true
is_offer_self a to n = ground (arith, ==_refl a.namespace, ==_refl a.id, ==_refl to)

-- Withdrawing an offer that was just opened, by whoever may, leaves every table but the messages as
-- it was before the offer.
pub withdraw_transfer-open_transfer :
    (limits : Limits) (actor other : User) (a : Address) (to : String) (recipient : User)
    (db opened closed : Db)
    → open_transfer limits actor a to recipient db ≡ ok opened
    → withdraw_transfer other a to recipient opened ≡ ok closed
    → SameTables db closed
unfolding add_offer drop_offer
withdraw_transfer-open_transfer limits actor other a to recipient db opened closed h k =
    let o = open_transfer-Opened limits actor a to recipient db opened h in
    let w = withdraw_transfer-tables other a to recipient opened closed k in
    record {
      notes = w.notes;
      log = w.log;
      same =
          w.same
          ∙ (rw o.tables.same (
              ap
                (λ (rows : List (Row Offer)). record db {
                  extension_transfers = rows;
                  notifications = w.notes;
                  audit_log = w.log;
                })
                (delete-append_new a to _ db.extension_transfers (is_offer_self a to actor.id)
                  o.new)));
    }
