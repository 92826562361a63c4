-- ===== src/Transfer/Move.antt =====
-- `acceptTransfer` of src/transfer.js. The two advisory locks make the body atomic, and an error
-- rolls the transaction back: the new tables come back only with `ok`.
use twexthub.Shared.{
  ℕ, ◌+◌, ◌-◌, String, Bool, false, ◌&&◌, Option, none, some, List, [], ◌∷◌, ◌==◌, string_eq,
  nat_eq, any, find, ltb, length, ok, refuse, require, present, ◌>>=◌, ◌>>◌, if◌then◌else◌,
}
use twexthub.Shared.Rows.{delete, update, upsert, insert_new}
use twexthub.Http.Errors.{conflict, not_found, make}
use twexthub.Db.{
  Db, User, Row, Owner, Redirect, Hook, Address, text, number, is_at, same_address, is_staging,
  surviving,
}
use twexthub.Notify.{concat, address_text, notify_owner_candidate, audit, transfer_accepted_message}
use twexthub.Access.Guards.{Answered}
use twexthub.Transfer.Offers.{
  Limits, quota_for, charged_bytes, load_namespace_account, assert_destination_is_free, has_offer,
  versions_at, is_empty, ends, no_room, drop_offer,
}

-- A hook of this extension; a namespace-wide hook has no extension id, and is none.
abbrev pub hooks : Address → Hook → Bool
hooks a h =
    h.namespace == a.namespace && (elim h.extension_id [ none ↦ false | some id ↦ id == a.id ])

-- The tables of ADDRESS_KEYED: all of MOVED_TABLES but `versions`.
unfoldable pub clear_destination : Address → Db → Db
clear_destination b db = record db {
  dist_tags = delete (is_at b) db.dist_tags;
  extension_owners = delete (is_at b) db.extension_owners;
  extension_owner_invites = delete (is_at b) db.extension_owner_invites;
  extension_access = delete (is_at b) db.extension_access;
  webhooks = delete (hooks b) db.webhooks;
  webhook_deliveries = surviving (hooks b) db.webhooks db.webhook_deliveries;
  download_events = delete (is_at b) db.download_events;
  extension_daily_downloads = delete (is_at b) db.extension_daily_downloads;
}

-- owner_id = (SELECT id FROM users WHERE namespace = ..), which no row meets where there is none
abbrev pub owned_by_account : Option User → Row Owner → Bool
owned_by_account none r = false
owned_by_account (some u) r = r.cols.owner_id == u.id

unfoldable pub drop_sender_owner : Address → Db → Db
unfolding load_namespace_account
drop_sender_owner a db = record db {
  extension_owners =
      delete (λ r. is_at a r && owned_by_account (load_namespace_account db a.namespace) r)
        db.extension_owners;
}

-- UPDATE t SET namespace = to WHERE namespace = .. AND extension_id = ..
abbrev pub rename : {C : Type 0} → String → Row C → Row C
rename to r = record r { address = record r.address { namespace = to } }

abbrev pub move : {C : Type 0} → Address → String → List (Row C) → List (Row C)
move a to rows = update (is_at a) (rename to) rows

-- The loop over MOVED_TABLES.
unfoldable pub move_tables : Address → String → Db → Db
move_tables a to db = record db {
  versions = move a to db.versions;
  dist_tags = move a to db.dist_tags;
  extension_owners = move a to db.extension_owners;
  extension_owner_invites = move a to db.extension_owner_invites;
  extension_access = move a to db.extension_access;
  webhooks = update (hooks a) (λ h. record h { namespace = to }) db.webhooks;
  download_events = move a to db.download_events;
  extension_daily_downloads = move a to db.extension_daily_downloads;
}

unfoldable pub set_author : Address → String → Db → Db
set_author b name db = record db {
  versions =
      update (is_at b) (λ r. record r { cols = record r.cols { author = some name } }) db.versions;
}

-- ON CONFLICT (namespace, extension_id, owner_id) DO NOTHING
unfoldable pub add_owner : Address → (owner_id added_by : ℕ) → Db → Db
add_owner b owner_id added_by db = record db {
  extension_owners =
      insert_new (λ r. is_at b r && r.cols.owner_id == owner_id)
        (record { address = b; cols = record { owner_id = owner_id; added_by = added_by } })
        db.extension_owners;
}

-- GREATEST(blob_bytes - charged, 0) is the truncated difference.
unfoldable pub move_charge : String → String → ℕ → Db → Db
move_charge from to charged db = record db {
  users =
      if ltb 0 charged
      then update (λ u. u.namespace == to) (λ u. record u { blob_bytes = u.blob_bytes + charged })
          (update (λ u. u.namespace == from) (λ u. record u { blob_bytes = u.blob_bytes - charged })
            db.users)
      else db.users;
}

-- The upsert of the old address, and the collapse of what pointed at it.
unfoldable pub redirect_address : Address → Address → Db → Db
redirect_address a b db = record db {
  extension_redirects =
      update (λ r. same_address r.target a) (λ r. record r { target = b })
        (upsert (λ r. same_address r.source a) (λ r. record r { target = b })
          (record { source = a; target = b }) db.extension_redirects);
}

unfoldable pub drop_offers : Address → Db → Db
drop_offers a db = record db {
  extension_transfers =
      delete (λ r. r.cols.to_namespace == a.namespace && r.address.id == a.id)
        (delete (is_at a) db.extension_transfers);
}

-- The writes between the last check and the messages.
unfoldable pub move_extension : User → User → Address → String → ℕ → Db → Db
unfolding clear_destination drop_sender_owner move_tables set_author add_owner move_charge
    redirect_address drop_offers drop_offer
move_extension actor recipient a to charged db =
    let b : Address = record { namespace = to; id = a.id } in
    drop_offers a (
      redirect_address a b (
        move_charge a.namespace to charged (
          add_owner b recipient.id actor.id (
            set_author b recipient.display_name (
              move_tables a to (drop_sender_owner a (clear_destination b (drop_offer a to db))))))))

pub record Moved : Type 0 where
  pub versions : ℕ
  pub bytes_moved : ℕ

unfoldable pub accept_transfer :
    Limits → User → Address → String → User → Db → Answered (Db × Moved)
unfolding quota_for charged_bytes assert_destination_is_free move_extension load_namespace_account
accept_transfer limits actor a to recipient db = do
  require (has_offer db a to) (
      not_found
        (concat (address_text a.namespace a.id ∷ " has no transfer waiting for @" ∷ to ∷ "." ∷ [])))
  let versions = versions_at db a
  refuse (is_empty versions)
      (not_found (concat (address_text a.namespace a.id ∷ " no longer exists." ∷ [])))
  refuse (any (λ r. is_staging r.cols.status) versions)
      (conflict "A publish is in progress for this extension.")
  assert_destination_is_free db (record { namespace = to; id = a.id })
  account ←
      present (find (λ u. u.id == recipient.id) db.users) (not_found "No such receiving account.")
  let charged = charged_bytes versions
  refuse (ltb (quota_for limits account) (account.blob_bytes + charged)) (no_room to)
  let moved = move_extension actor recipient a to charged db
  -- Without a sending account the notification reads a property of null, which answers 500.
  sender ← present (load_namespace_account moved a.namespace) (make 500 none none)
  ok (
    audit actor "extension.transfer" (some to) (some a.id) none
        (("from", text a.namespace)
          ∷ ("to", text to)
          ∷ ("versions", number (length versions))
          ∷ ("bytesMoved", number charged)
          ∷ [])
        (notify_owner_candidate sender "extension.transfer.completed"
          (transfer_accepted_message actor.namespace a.namespace a.id to) (ends a to) moved),
    record { versions = length versions; bytes_moved = charged },
  )

-- redirectFor
unfoldable pub redirect_for : Db → Address → Option Address
redirect_for db a = elim (find (λ (r : Redirect). same_address r.source a) db.extension_redirects) [
  | none ↦ none
  | some r ↦ some r.target
]
