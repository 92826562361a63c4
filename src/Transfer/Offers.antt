-- ===== src/Transfer/Offers.antt =====
-- The guards of src/transfer.js, and `openTransfer` and `withdrawTransfer`.
use twexthub.Shared.{
  ℕ, ◌+◌, String, Bool, true, false, ◌&&◌, ◌||◌, not, Option, none, some, List, [], ◌∷◌, ◌++◌, ◌==◌,
  string_eq, nat_eq, any, keep, find, sum_by, ltb, ok, refuse, require, ◌>>◌,
}
use twexthub.Shared.Rows.{delete}
use twexthub.Http.Errors.{HttpError, conflict, not_found, or_else, coalesce}
use twexthub.Db.{
  Db, User, Row, Version, Offer, Redirect, Address, Datum, text, is_at, same_address, is_admin_role,
  is_rejected, is_staging,
}
use twexthub.Notify.{
  concat, address_text, notify_owner_candidate, audit, transfer_requested_message,
  transfer_withdrawn_message,
}
use twexthub.Access.Guards.{Answered}
use twexthub.Access.Ownership.{is_organization_owner}

-- config.limits, where a key may be absent
pub record Limits : Type 0 where
  pub max_blob_bytes : Option ℕ
  pub max_account_blob_bytes : Option ℕ
  pub max_source_bytes : Option ℕ

-- DEFAULT_QUOTA
abbrev pub default_quota : ℕ
default_quota = 67108864

unfoldable pub quota_for : Limits → User → ℕ
quota_for limits account =
    or_else (coalesce account.max_blob_bytes limits.max_account_blob_bytes) default_quota

-- One row's share of the sum in `chargedBytes`.
abbrev pub charge : Version → ℕ
charge v = or_else v.blob_size 0 + or_else v.source_size 0

unfoldable pub charged_bytes : List (Row Version) → ℕ
charged_bytes rows = sum_by (λ r. charge r.cols) rows

unfoldable pub may_offer_transfer : Db → User → String → Bool
may_offer_transfer db user namespace =
    is_admin_role user.role
    || user.namespace == namespace
    || is_organization_owner db user namespace

unfoldable pub may_receive_transfer : Db → User → String → Bool
may_receive_transfer db user to =
    is_admin_role user.role || user.namespace == to || is_organization_owner db user to

unfoldable pub load_namespace_account : Db → String → Option User
load_namespace_account db namespace = find (λ u. u.namespace == namespace) db.users

unfoldable pub has_org_owner : Db → ℕ → Bool
has_org_owner db org_id = any (λ g. g.org_id == org_id) db.organization_owners

-- A version that was not rejected holds the address.
abbrev pub is_taken : Db → Address → Bool
is_taken db a = any (λ r. is_at a r && not (is_rejected r.cols.status)) db.versions

abbrev pub is_redirected : Db → Address → Bool
is_redirected db a = any (λ (r : Redirect). same_address r.source a) db.extension_redirects

unfoldable pub assert_destination_is_free : Db → Address → Answered (Unit {0})
unfolding concat address_text
assert_destination_is_free db a = do
  refuse (is_taken db a) (
      conflict (
        concat (
          address_text a.namespace a.id
          ∷ " already exists, so it cannot be transferred into."
          ∷ [])))
  refuse (is_redirected db a) (
      conflict (
        concat (
          address_text a.namespace a.id
          ∷ " has itself been transferred away, so it cannot receive one."
          ∷ [])))

-- The offer of the extension at `a` to the namespace `to`.
abbrev pub is_offer : Address → String → Row Offer → Bool
is_offer a to r = is_at a r && r.cols.to_namespace == to

abbrev pub has_offer : Db → Address → String → Bool
has_offer db a to = any (is_offer a to) db.extension_transfers

abbrev pub versions_at : Db → Address → List (Row Version)
versions_at db a = keep (is_at a) db.versions

abbrev pub is_empty {ℓ} : {A : Type ℓ} → List A → Bool
is_empty [] = true
is_empty (x ∷ xs) = false

-- What a transfer says to the two sides, and its payload.
abbrev pub ends : Address → String → List (String × Datum)
ends a to = ("namespace", text a.namespace) ∷ ("id", text a.id) ∷ ("to", text to) ∷ []

-- The text of a full quota, without the numbers that it quotes.
abbrev pub no_room : String → HttpError
no_room to =
    conflict (concat ("@" ∷ to ∷ " does not have room for the bytes of the extension." ∷ []))

unfoldable pub add_offer : User → Address → String → Db → Db
add_offer actor a to db = record db {
  extension_transfers =
      db.extension_transfers
      ++ record { address = a; cols = record { to_namespace = to; requested_by = actor.id } } ∷ [];
}

unfoldable pub drop_offer : Address → String → Db → Db
drop_offer a to db = record db {
  extension_transfers = delete (is_offer a to) db.extension_transfers;
}

-- The writes of `openTransfer`.
unfoldable pub opened : User → Address → String → User → Db → Db
unfolding add_offer
opened actor a to recipient db =
    audit actor "extension.transfer.request" (some a.namespace) (some a.id) none
      (("to", text to) ∷ [])
      (notify_owner_candidate recipient "extension.transfer.requested"
        (transfer_requested_message actor.namespace a.namespace a.id to) (ends a to)
        (add_offer actor a to db))

unfoldable pub open_transfer : Limits → User → Address → String → User → Db → Answered Db
unfolding quota_for charged_bytes assert_destination_is_free opened
open_transfer limits actor a to recipient db = do
  refuse (has_offer db a to) (
      conflict
        (concat (address_text a.namespace a.id ∷ " has already been offered to @" ∷ to ∷ "." ∷ [])))
  let versions = versions_at db a
  refuse (is_empty versions)
      (not_found (concat (address_text a.namespace a.id ∷ " does not exist." ∷ [])))
  refuse (any (λ r. is_staging r.cols.status) versions)
      (conflict "A publish is in progress for this extension.")
  assert_destination_is_free db (record { namespace = to; id = a.id })
  refuse (ltb (quota_for limits recipient) (recipient.blob_bytes + charged_bytes versions))
      (no_room to)
  ok (opened actor a to recipient db)

-- The writes of `withdrawTransfer`.
unfoldable pub withdrawn : User → Address → String → User → Db → Db
unfolding drop_offer
withdrawn actor a to recipient db =
    audit actor "extension.transfer.withdraw" (some a.namespace) (some a.id) none
      (("to", text to) ∷ [])
      (notify_owner_candidate recipient "extension.transfer.completed"
        (transfer_withdrawn_message actor.namespace a.namespace a.id to) (ends a to)
        (drop_offer a to db))

unfoldable pub withdraw_transfer : User → Address → String → User → Db → Answered Db
unfolding withdrawn
withdraw_transfer actor a to recipient db = do
  require (has_offer db a to) (
      not_found
        (concat (address_text a.namespace a.id ∷ " has no transfer waiting for @" ∷ to ∷ "." ∷ [])))
  ok (withdrawn actor a to recipient db)
