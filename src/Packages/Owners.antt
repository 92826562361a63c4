-- ===== src/Packages/Owners.antt =====
-- The owner list and the access list of src/routes/packages.js: invitations, their acceptance, and
-- the removal of an owner, an invitation or a grant.
pub mod Consent
use twexthub.Shared.{
  ℕ, String, Bool, true, false, ◌&&◌, ◌||◌, not, Option, none, some, List, [], ◌∷◌, ◌==◌, string_eq,
  nat_eq, any, find, keep, map, if◌then◌else◌, ok, err, refuse, require, present, ◌>>=◌, ◌>>◌,
}
use twexthub.Shared.Rows.{insert_new, delete}
use twexthub.Http.Errors.{not_found, forbidden}
use twexthub.Db.{
  Db, User, Membership, Row, Version, Owner, Invite, Grant, Address, Datum, text, is_at,
  is_organization, is_rejected,
}
use twexthub.Notify.{
  audit, notify_user, notify_owner_candidate, added_as_owner_message, removed_as_owner_message,
  invited_as_owner_message, withdrawn_as_owner_message,
}
use twexthub.Access.Credentials.{Auth}
use twexthub.Access.Guards.{Answered}
use twexthub.Access.Ownership.{is_organization_owner}
use twexthub.Packages.Requests.{
  Effect, silent, announce, field_error, owner_chain, valid_address, valid_route, is_address_holder,
}

-- SELECT 1 FROM versions WHERE .. AND status <> 'rejected'
unfoldable pub is_live : Db → Address → Bool
is_live db a = any (λ (r : Row Version). is_at a r && not (is_rejected r.cols.status)) db.versions

-- SELECT * FROM users WHERE namespace = ..
abbrev pub account_named : Db → String → Option User
account_named db namespace = find (λ u. u.namespace == namespace) db.users

abbrev pub is_owned_by : Address → ℕ → Row Owner → Bool
is_owned_by a id r = is_at a r && r.cols.owner_id == id

abbrev pub is_invited : Address → ℕ → Row Invite → Bool
is_invited a id r = is_at a r && r.cols.owner_id == id

abbrev pub drop_invite : Address → ℕ → Db → Db
drop_invite a id db = record db {
  extension_owner_invites = delete (is_invited a id) db.extension_owner_invites;
}

abbrev address_payload : Address → List (String × Datum)
address_payload a = ("namespace", text a.namespace) ∷ ("id", text a.id) ∷ []

-- INSERT INTO extension_owner_invites .. RETURNING 1, and what is told of it
unfoldable pub invite : Auth → User → Address → Db → Effect
unfolding notify_owner_candidate audit
invite auth candidate a db =
    if any (is_invited a candidate.id) db.extension_owner_invites
    then silent db
    else announce a "owners.invited" (
        audit auth.user "owner.invite" (some a.namespace) (some a.id) none
          (("invited", text candidate.namespace) ∷ [])
          (notify_owner_candidate candidate "extension.owner.invited"
            (invited_as_owner_message auth.user.namespace a.namespace a.id) (address_payload a)
            (record db {
              extension_owner_invites =
                  insert_new (is_invited a candidate.id)
                    (record {
                      address = a;
                      cols = record { owner_id = candidate.id; invited_by = auth.user.id };
                    })
                    db.extension_owner_invites;
            })))

-- PUT /@:namespace/:id/owners/:ownerNamespace
unfoldable pub invite_owner : Option ℕ → Option Auth → Address → String → Db → Answered Effect
unfolding owner_chain is_address_holder valid_route is_live invite
invite_owner terms caller a candidate db = do
  auth ← owner_chain terms caller
  require (is_address_holder db auth.user a.namespace)
      (forbidden "Only an existing owner or an admin can add owners.")
  valid_route a candidate
  require (is_live db a) (not_found "Not found.")
  refuse (candidate == a.namespace)
      (field_error "namespace" "The namespace account already owns this extension.")
  invited ← present (account_named db candidate) (not_found "No such account to invite.")
  if any (is_owned_by a invited.id) db.extension_owners
      then ok (silent (drop_invite a invited.id db))
      else ok (invite auth invited a db)

-- extension_owner_invites i JOIN users u ON u.id = i.owner_id WHERE u.namespace = ..
unfoldable pub pending_invite : Db → Address → String → Option User
pending_invite db a candidate =
    find (λ u. u.namespace == candidate && any (is_invited a u.id) db.extension_owner_invites)
      db.users

-- The accounts of these rows of organization_owners are told of the shared ownership, one by one.
unfoldable pub tell_owners : List Membership → Auth → Address → Db → Db
unfolding notify_user
tell_owners [] auth a db = db
tell_owners (row ∷ rows) auth a db = tell_owners rows auth a (
    notify_user row.user_id "extension.owner.added"
      (added_as_owner_message auth.user.namespace a.namespace a.id) (address_payload a) db)

abbrev pub partners : Auth → User → Db → List Membership
partners auth invited db =
    keep (λ g. g.org_id == invited.id && not (g.user_id == auth.user.id)) db.organization_owners

-- The other accounts on the owner list of an organization that accepted are told.
unfoldable pub tell_partners : Auth → User → Address → Db → Db
unfolding tell_owners
tell_partners auth invited a db =
    if is_organization invited.kind then tell_owners (partners auth invited db) auth a db else db

-- The transaction of an acceptance.
unfoldable pub grant_ownership : Auth → User → Address → Db → Db
unfolding tell_partners audit
grant_ownership auth invited a db =
    audit auth.user "owner.accept" (some a.namespace) (some a.id) none
      (("added", text invited.namespace) ∷ [])
      (tell_partners auth invited a (record (drop_invite a invited.id db) {
        extension_owners =
            insert_new (is_owned_by a invited.id)
              (record {
                address = a;
                cols = record { owner_id = invited.id; added_by = auth.user.id };
              })
              db.extension_owners;
      }))

-- POST /@:namespace/:id/owners/:ownerNamespace/accept
unfoldable pub accept_invite : Option ℕ → Option Auth → Address → String → Db → Answered Effect
unfolding owner_chain valid_route pending_invite grant_ownership
accept_invite terms caller a candidate db = do
  auth ← owner_chain terms caller
  valid_route a candidate
  invited ←
      present (pending_invite db a candidate)
        (not_found "There is no pending invitation to accept.")
  let mine = invited.id == auth.user.id
  refuse (not mine && not (is_organization invited.kind))
      (forbidden "Only the invited account can accept this invitation.")
  refuse (not mine && not (is_organization_owner db auth.user candidate))
      (forbidden "Only an owner of the invited organization can accept this invitation.")
  ok (announce a "owners.changed" (grant_ownership auth invited a db))

unfoldable pub withdraw_invite : Auth → User → Address → Db → Db
unfolding notify_owner_candidate audit
withdraw_invite auth account a db =
    audit auth.user "owner.withdraw" (some a.namespace) (some a.id) none
      (("withdrawn", text account.namespace) ∷ [])
      (notify_owner_candidate account "extension.owner.withdrawn"
        (withdrawn_as_owner_message auth.user.namespace a.namespace a.id) (address_payload a)
        (drop_invite a account.id db))

unfoldable pub drop_ownership : Auth → User → Address → Db → Db
unfolding notify_owner_candidate audit
drop_ownership auth account a db =
    audit auth.user "owner.remove" (some a.namespace) (some a.id) none
      (("removed", text account.namespace) ∷ [])
      (notify_owner_candidate account "extension.owner.removed"
        (removed_as_owner_message auth.user.namespace a.namespace a.id) (address_payload a)
        (record db { extension_owners = delete (is_owned_by a account.id) db.extension_owners }))

-- DELETE /@:namespace/:id/owners/:ownerNamespace: an invitation is withdrawn, or else a grant removed.
unfoldable pub remove_owner : Option ℕ → Option Auth → Address → String → Db → Answered Effect
unfolding owner_chain is_address_holder valid_route is_live withdraw_invite drop_ownership
remove_owner terms caller a target db = do
  auth ← owner_chain terms caller
  valid_route a target
  require (is_address_holder db auth.user a.namespace)
      (forbidden "Only an owner or an admin can remove owners.")
  require (is_live db a) (not_found "Not found.")
  refuse (target == a.namespace) (
      field_error "namespace"
        "The namespace account owns the published address and cannot be removed.")
  account ← present (account_named db target) (not_found "No such account.")
  if any (is_invited a account.id) db.extension_owner_invites
      then ok (announce a "owners.invited" (withdraw_invite auth account a db))
      else (do
        require (any (is_owned_by a account.id) db.extension_owners)
            (not_found "That account is not an owner.")
        ok (announce a "owners.changed" (drop_ownership auth account a db)))

abbrev pub is_granted : Address → ℕ → Row Grant → Bool
is_granted a id r = is_at a r && r.cols.user_id == id

-- PUT /@:namespace/:id/access/:granteeNamespace
unfoldable pub grant_access : Option ℕ → Option Auth → Address → String → Db → Answered Effect
unfolding owner_chain is_address_holder valid_route is_live audit
grant_access terms caller a grantee db = do
  auth ← owner_chain terms caller
  valid_route a grantee
  require (is_address_holder db auth.user a.namespace)
      (forbidden "Only an owner or an admin can grant access.")
  require (is_live db a) (not_found "Not found.")
  account ← present (account_named db grantee) (not_found "No such account to grant.")
  refuse (account.namespace == a.namespace)
      (field_error "namespace" "The namespace account always has access.")
  ok (
      silent (
        audit auth.user "access.grant" (some a.namespace) (some a.id) none
          (("granted", text account.namespace) ∷ [])
          (record db {
            extension_access =
                insert_new (is_granted a account.id)
                  (record {
                    address = a;
                    cols = record { user_id = account.id; granted_by = auth.user.id };
                  })
                  db.extension_access;
          })))

-- DELETE /@:namespace/:id/access/:granteeNamespace
unfoldable pub revoke_access : Option ℕ → Option Auth → Address → String → Db → Answered Effect
unfolding owner_chain is_address_holder valid_route audit
revoke_access terms caller a grantee db = do
  auth ← owner_chain terms caller
  valid_route a grantee
  require (is_address_holder db auth.user a.namespace)
      (forbidden "Only an owner or an admin can revoke access.")
  account ← present (account_named db grantee) (not_found "No such account.")
  require (any (is_granted a account.id) db.extension_access)
      (not_found "That account has no access grant.")
  ok (
      silent (
        audit auth.user "access.revoke" (some a.namespace) (some a.id) none
          (("revoked", text account.namespace) ∷ [])
          (record db { extension_access = delete (is_granted a account.id) db.extension_access })))
