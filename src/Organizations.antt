-- ===== src/Organizations.antt =====
-- The routes of src/routes/orgs.js that write: creating, editing and deleting an organization, its owner
-- list, and its hooks. The stored files are removed after a deletion.
pub mod Members
pub mod Owned
pub mod History
use twexthub.Shared.{
  ℕ, ◌+◌, String, Bool, true, false, not, ◌&&◌, ◌||◌, Option, none, some, List, [], ◌∷◌, ◌++◌, ◌==◌,
  nat_eq, string_eq, if◌then◌else◌, ltb, any, find, keep, length, ok, err, refuse, require, present,
  ◌>>=◌, ◌>>◌,
}
use twexthub.Shared.Rows.{update, delete, insert_new}
use twexthub.Util.Names.{is_valid_namespace}
use twexthub.Http.Errors.{FieldError, field_errors, forbidden, not_found, conflict}
use twexthub.Db.{
  Db, User, Row, Membership, Redirect, Hook, Offer, Datum, user, organization, number,
  is_organization, is_admin_role, surviving,
}
use twexthub.Db
use twexthub.Notify.{concat, notify_user, audit}
use twexthub.Access.Credentials.{Auth}
use twexthub.Access.Guards.{Answered, require_scope}
use twexthub.Access.Ownership.{stands_behind}
use twexthub.Access.Terms.{gate_with}
use twexthub.Transfer.Offers.{is_empty}
use twexthub.Packages.Requests.{Field, absent, null, text, other, object_body, field_error}
use twexthub.Tokens.{utf16_length}
use twexthub.Webhooks.Targets.{Network, Url}
use twexthub.Webhooks.Registry.{Input, create, remove, as_fields}
use twexthub.Accounts.Profile.{
  Body, profile_field_errors, profile_patch, profile_columns, profile_error, when, no_short_text,
}
use twexthub.Packages.Publish.{crash}
use twexthub.Accounts.Deletion.{delete_user, added_owner}
use twexthub.Accounts.Signing.{
  new_user, add_user, effective_name, is_namespace_text, namespace_error, field_text,
}

-- [manageOrgs, termsGate]
unfoldable pub manage_chain : Option ℕ → Option Auth → Answered Auth
unfolding require_scope gate_with
manage_chain terms caller = do auth ← require_scope "manage:orgs" caller; gate_with terms caller

-- loadOrg
unfoldable pub load_org : Db → String → Answered User
unfolding is_valid_namespace
load_org db namespace = do
  require (is_valid_namespace namespace) (not_found "Not found.")
  present (find (λ u. u.namespace == namespace && is_organization u.kind) db.users)
      (not_found "No such organization.")

-- isOrgOwner
unfoldable pub is_org_owner : Db → User → User → Bool
unfolding stands_behind
is_org_owner db account org = is_admin_role account.role || stands_behind db org.id account.id

-- loadOrgForWrite
unfoldable pub load_org_for_write : Db → Auth → String → Answered User
unfolding load_org is_org_owner
load_org_for_write db auth namespace = do
  org ← load_org db namespace
  require (is_org_owner db auth.user org)
      (forbidden "Only an owner or an admin can change this organization.")
  ok org

-- POST /orgs: `window` is what the rate limiter answers.
unfoldable pub create_errors :
    (parse_url : String → Option Url) → (namespace : Field) → Body → List FieldError
unfolding is_valid_namespace no_short_text profile_field_errors
create_errors parse_url namespace body =
    when (not (is_namespace_text namespace)) namespace_error
    ++ when (no_short_text 80 body.display_name)
        (profile_error "displayName" "Must be a string of at most 80 characters.")
    ++ profile_field_errors parse_url body

abbrev pub new_org : Db → String → Body → User
new_org db namespace body = record (profile_patch body (new_user db namespace namespace none)) {
  kind = organization;
  display_name = effective_name body.display_name namespace;
}

unfoldable pub create_organization :
    (parse_url : String → Option Url)
    → Option ℕ
    → Option Auth
    → Answered (Unit {0})
    → (is_object : Bool) → (namespace : Field) → Body
    → Db
    → Answered (User × Db)
unfolding manage_chain create_errors profile_patch audit
create_organization parse_url terms caller window is_object namespace body db = do
  auth ← manage_chain terms caller
  object_body is_object
  require (is_empty (create_errors parse_url namespace body))
      (field_errors (create_errors parse_url namespace body))
  refuse (any (λ u. u.namespace == field_text namespace) db.users)
      (conflict "That namespace is already taken.")
  window
  let org = new_org db (field_text namespace) body
  let added = add_user org db
  ok (
    org,
    audit auth.user "org.create" (some org.namespace) none none
        (("displayName", Db.text org.display_name) ∷ [])
        (record added {
          organization_owners =
              added.organization_owners ++ record { org_id = org.id; user_id = auth.user.id } ∷ [];
        }),
  )

abbrev texts : List String → List (String × Datum)
texts [] = []
texts (s ∷ ss) = ("changed", Db.text s) ∷ texts ss

-- PATCH /orgs/:namespace; the audit's list of columns is one entry for each.
unfoldable pub update_organization :
    (parse_url : String → Option Url)
    → Option ℕ
    → Option Auth
    → (namespace : String) → (is_object : Bool) → Body
    → Db
    → Answered Db
unfolding manage_chain load_org_for_write profile_columns profile_field_errors profile_patch audit
update_organization parse_url terms caller namespace is_object body db = do
  auth ← manage_chain terms caller
  org ← load_org_for_write db auth namespace
  object_body is_object
  refuse (is_empty (profile_columns body)) (
      field_error "body"
        "Provide at least one of displayName, bio, website, github, avatarUrl, bannerUrl.")
  require (is_empty (profile_field_errors parse_url body))
      (field_errors (profile_field_errors parse_url body))
  ok (
      audit auth.user "org.update" (some org.namespace) none none (texts (profile_columns body))
        (record db { users = update (λ u. u.id == org.id) (profile_patch body) db.users }))

abbrev pub in_namespace : {C : Type 0} → String → Row C → Bool
in_namespace n r = r.address.namespace == n

-- The rows that are filed under the namespace.
unfoldable pub clear_namespace : String → Db → Db
clear_namespace n db = record db {
  versions = delete (in_namespace n) db.versions;
  webhooks = delete (λ (h : Hook). h.namespace == n) db.webhooks;
  webhook_deliveries = surviving (λ (h : Hook). h.namespace == n) db.webhooks db.webhook_deliveries;
  dist_tags = delete (in_namespace n) db.dist_tags;
  extension_owners = delete (in_namespace n) db.extension_owners;
  extension_owner_invites = delete (in_namespace n) db.extension_owner_invites;
  extension_access = delete (in_namespace n) db.extension_access;
  download_events = delete (in_namespace n) db.download_events;
  extension_daily_downloads = delete (in_namespace n) db.extension_daily_downloads;
  extension_transfers =
      delete (λ (r : Row Offer). in_namespace n r || r.cols.to_namespace == n)
        db.extension_transfers;
  extension_redirects =
      delete (λ (r : Redirect). r.source.namespace == n || r.target.namespace == n)
        db.extension_redirects;
}

-- DELETE FROM users, whose cascade to the owner lists goes by the kind of the row: an organization's
-- takes the rows of its owners.
unfoldable pub delete_org_row : User → Db → Db
unfolding delete_user
delete_org_row org db = record (delete_user org.id db) {
  organization_owners = delete (λ (g : Membership). g.org_id == org.id) db.organization_owners;
}

-- DELETE /orgs/:namespace
unfoldable pub delete_organization :
    Option ℕ → Option Auth → (namespace : String) → Db → Answered Db
unfolding manage_chain load_org_for_write clear_namespace delete_org_row audit
delete_organization terms caller namespace db = do
  auth ← manage_chain terms caller
  org ← load_org_for_write db auth namespace
  let cleared = clear_namespace org.namespace db
  refuse (any (added_owner org.id) cleared.extension_owners) crash
  ok (audit auth.user "org.delete" (some org.namespace) none none [] (delete_org_row org cleared))
