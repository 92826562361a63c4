-- ===== src/Accounts/Deletion.antt =====
-- DELETE /users/:namespace of src/routes/users.js: the transaction, with what the foreign keys of the
-- tables do behind it. The stored files are removed after it. A column that a foreign key sets to NULL
-- keeps its value here, but for the actor of the audit trail.
pub mod Charges
use twexthub.Shared.{
  ℕ, ◌+◌, ◌-◌, String, Bool, true, false, not, ◌&&◌, ◌||◌, Option, none, some, List, [], ◌∷◌, ◌++◌,
  ◌==◌, nat_eq, string_eq, if◌then◌else◌, ltb, any, find, keep, map, length, sum_by, ok, err,
  refuse, require, present, ◌>>=◌, ◌>>◌,
}
use twexthub.Shared.Rows.{update, delete}
use twexthub.Http.Errors.{HttpError, forbidden, not_found, conflict, make}
use twexthub.Db.{
  Db, User, Row, Version, Membership, Owner, Grant, Invite, Offer, Tag, Notification, AuditEntry,
  is_organization,
}
use twexthub.Notify.{concat}
use twexthub.Access.Credentials.{Auth}
use twexthub.Access.Guards.{Answered, require_scope, is_admin}
use twexthub.Transfer.Offers.{is_empty, charge}
use twexthub.Packages.Publish.{crash}
use twexthub.Accounts.Signing.{Store}
use twexthub.Accounts.Updates.{load_user, without_credentials}

-- The organizations of which the account is the only owner.
abbrev pub owners_of : ℕ → List Membership → List Membership
owners_of org_id rows = keep (λ (g : Membership). g.org_id == org_id) rows

abbrev pub is_sole_owner : ℕ → List Membership → User → Bool
is_sole_owner id rows org =
    any (λ (g : Membership). g.org_id == org.id && g.user_id == id) rows
    && length (owners_of org.id rows) == 1

unfoldable pub solely_owned : ℕ → Db → List User
solely_owned id db = keep (is_sole_owner id db.organization_owners) db.users

-- sum(COALESCE(blob_size, 0) + COALESCE(source_size, 0)) of the account's versions in a namespace
abbrev pub published_bytes : ℕ → String → List (Row Version) → ℕ
published_bytes id namespace rows =
    sum_by
      (λ (r : Row Version).
        if r.cols.owner_id == id && r.address.namespace == namespace then charge r.cols else 0)
      rows

-- UPDATE users SET blob_bytes = GREATEST(blob_bytes - removed.bytes, 0) .. AND u.id <> id
unfoldable pub uncharge : ℕ → List (Row Version) → List User → List User
uncharge id rows users =
    update (λ u. not (u.id == id))
      (λ u. record u { blob_bytes = u.blob_bytes - published_bytes id u.namespace rows }) users

abbrev pub without_actor : ℕ → AuditEntry → AuditEntry
without_actor id e =
    if (elim e.actor_id [ none ↦ false | some a ↦ a == id ])
    then record e { actor_id = none }
    else e

-- DELETE FROM users WHERE id = .., and the rows that follow it.
unfoldable pub delete_user : ℕ → Db → Db
delete_user id db = record db {
  users = delete (λ u. u.id == id) db.users;
  organization_owners = delete (λ (g : Membership). g.user_id == id) db.organization_owners;
  versions = delete (λ (r : Row Version). r.cols.owner_id == id) db.versions;
  dist_tags = delete (λ (r : Row Tag). r.cols.owner_id == id) db.dist_tags;
  extension_owners = delete (λ (r : Row Owner). r.cols.owner_id == id) db.extension_owners;
  extension_owner_invites =
      delete (λ (r : Row Invite). r.cols.owner_id == id) db.extension_owner_invites;
  extension_access = delete (λ (r : Row Grant). r.cols.user_id == id) db.extension_access;
  extension_transfers =
      delete (λ (r : Row Offer). r.cols.requested_by == id) db.extension_transfers;
  notifications = delete (λ (n : Notification). n.user_id == id) db.notifications;
  audit_log = map (without_actor id) db.audit_log;
}

-- extension_owners.added_by refers to users, and neither cascades nor is set to NULL: a row that is
-- left with the account in it makes the DELETE fail.
abbrev pub added_owner : ℕ → Row Owner → Bool
added_owner id r = not (r.cols.owner_id == id) && r.cols.added_by == id

abbrev names : List User → List String
names [] = []
names (u ∷ []) = "@" ∷ u.namespace ∷ []
names (u ∷ v ∷ us) = "@" ∷ u.namespace ∷ ", " ∷ names (v ∷ us)

-- DELETE /users/:namespace
unfoldable pub delete_account : Option Auth → (namespace : String) → Store → Answered Store
unfolding require_scope load_user is_admin solely_owned uncharge delete_user concat
delete_account caller namespace s = do
  auth ← require_scope "manage:account" caller
  target ← load_user s.db namespace
  refuse (is_organization target.kind) (
      forbidden
        (concat ("@" ∷ target.namespace ∷ " is an organization; delete it through /orgs." ∷ [])))
  require (auth.user.namespace == target.namespace || is_admin caller)
      (forbidden "Only an admin can delete another account.")
  require (is_empty (solely_owned target.id s.db)) (
      conflict (
        concat (
          "You are the only owner of "
          ∷ (names (solely_owned target.id s.db)
              ++ ". Add another owner, or delete the organization, before deleting the account."
                ∷ []))))
  refuse (any (added_owner target.id) s.db.extension_owners) crash
  ok (record s {
    db =
        delete_user target.id (record s.db { users = uncharge target.id s.db.versions s.db.users });
    creds = without_credentials target.id s.creds;
  })
