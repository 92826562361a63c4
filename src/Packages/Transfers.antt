-- ===== src/Packages/Transfers.antt =====
-- The routes of src/routes/packages.js around src/transfer.js: offering an extension, accepting it and
-- withdrawing the offer.
pub mod Consent
use twexthub.Shared.{
  ℕ, String, Bool, true, false, ◌&&◌, not, Option, none, some, List, [], ◌∷◌, ◌==◌, string_eq,
  if◌then◌else◌, ok, err, refuse, require, present, ◌>>=◌, ◌>>◌,
}
use twexthub.Http.Errors.{not_found, forbidden, conflict}
use twexthub.Util.Names.{is_valid_namespace}
use twexthub.Db.{Db, User, Address, is_organization}
use twexthub.Access.Credentials.{Auth}
use twexthub.Access.Guards.{Answered}
use twexthub.Transfer.Offers.{
  Limits, may_offer_transfer, may_receive_transfer, load_namespace_account, has_org_owner,
  open_transfer, withdraw_transfer,
}
use twexthub.Transfer.Move.{Moved, accept_transfer}
use twexthub.Packages.Requests.{
  Field, text, Effect, silent, announce, field_error, owner_chain, object_body, valid_address,
  valid_route,
}

-- The body's `to`, where it is a valid namespace.
unfoldable pub target_namespace : Field → Option String
target_namespace (text to) = if is_valid_namespace to then some to else none
target_namespace _ = none

-- POST /@:namespace/:id/transfers
unfoldable pub offer_transfer :
    Limits → Option ℕ → Option Auth → (is_object : Bool) → Address → Field → Db → Answered Effect
unfolding owner_chain valid_address target_namespace may_offer_transfer load_namespace_account
    has_org_owner open_transfer
offer_transfer limits terms caller is_object a body_to db = do
  auth ← owner_chain terms caller
  valid_address a
  object_body is_object
  to ← present (target_namespace body_to) (field_error "to" "Must be a valid namespace.")
  refuse (to == a.namespace) (field_error "to" "An extension cannot be transferred to itself.")
  require (may_offer_transfer db auth.user a.namespace)
      (forbidden "Only the namespace account or an admin can transfer an extension away.")
  recipient ← present (load_namespace_account db to) (not_found "No such account to transfer to.")
  refuse (is_organization recipient.kind && not (has_org_owner db recipient.id))
      (conflict "An organization with no owners cannot receive an extension.")
  db' ← open_transfer limits auth.user a to recipient db
  ok (silent db')

-- POST /@:namespace/:id/transfers/:toNamespace/accept
unfoldable pub accept_offer :
    Limits → Option ℕ → Option Auth → Address → String → Db → Answered (Effect × Moved)
unfolding owner_chain valid_route may_receive_transfer load_namespace_account accept_transfer
accept_offer limits terms caller a to db = do
  auth ← owner_chain terms caller
  valid_route a to
  recipient ← present (load_namespace_account db to) (not_found "Not found.")
  require (may_receive_transfer db auth.user to)
      (forbidden "Only the receiving namespace or an admin can accept this transfer.")
  (db', moved) ← accept_transfer limits auth.user a to recipient db
  ok (announce (record { namespace = to; id = a.id }) "extension.transferred" db', moved)

-- DELETE /@:namespace/:id/transfers/:toNamespace
unfoldable pub withdraw_offer : Option ℕ → Option Auth → Address → String → Db → Answered Effect
unfolding owner_chain valid_route may_offer_transfer load_namespace_account withdraw_transfer
withdraw_offer terms caller a to db = do
  auth ← owner_chain terms caller
  valid_route a to
  require (may_offer_transfer db auth.user a.namespace)
      (forbidden "Only the namespace account or an admin can withdraw a transfer.")
  recipient ← present (load_namespace_account db to) (not_found "Not found.")
  db' ← withdraw_transfer auth.user a to recipient db
  ok (silent db')
