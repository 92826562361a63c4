-- ===== src/Organizations/Members.antt =====
-- The routes of src/routes/orgs.js on the owner list and on the hooks of an organization.
use twexthub.Shared.{
  ℕ, String, Bool, ◌&&◌, Option, none, some, [], ◌∷◌, ◌==◌, nat_eq, string_eq, if◌then◌else◌, any,
  find, ok, refuse, require, present, ◌>>=◌, ◌>>◌,
}
use twexthub.Shared.Rows.{delete, insert_new}
use twexthub.Util.Names.{is_valid_namespace}
use twexthub.Http.Errors.{not_found, conflict}
use twexthub.Db.{
  Db, User, Row, Membership, Redirect, Hook, Offer, Datum, user, organization, number,
  is_organization, is_admin_role, surviving,
}
use twexthub.Db
use twexthub.Notify.{concat, notify_user, audit}
use twexthub.Access.Credentials.{Auth}
use twexthub.Access.Guards.{Answered}
use twexthub.Packages.Requests.{object_body, field_error}
use twexthub.Webhooks.Targets.{Network}
use twexthub.Webhooks.Registry.{Input, create, remove, as_fields}
-- [manageOrgs, termsGate]
use twexthub.Organizations.{manage_chain, load_org_for_write}

abbrev pub is_member : ℕ → ℕ → Membership → Bool
is_member org_id user_id g = g.org_id == org_id && g.user_id == user_id

abbrev pub account_named : Db → String → String → Answered User
account_named db namespace message = do
  require (is_valid_namespace namespace) (not_found "Not found.")
  present (find (λ u. u.namespace == namespace) db.users) (not_found message)

-- PUT /orgs/:namespace/owners/:ownerNamespace; a row that was there already is not told again.
unfoldable pub add_org_owner :
    Option ℕ → Option Auth → (namespace candidate : String) → Db → Answered Db
unfolding manage_chain load_org_for_write is_valid_namespace notify_user audit concat
add_org_owner terms caller namespace candidate db = do
  auth ← manage_chain terms caller
  org ← load_org_for_write db auth namespace
  u ← account_named db candidate "No such account to add."
  refuse (is_organization u.kind)
      (field_error "namespace" "An organization cannot own another organization.")
  let added : Db = record db {
    organization_owners =
        insert_new (is_member org.id u.id) (record { org_id = org.id; user_id = u.id })
          db.organization_owners;
  }
  let told : Db =
      if u.id == auth.user.id
      then added
      else notify_user u.id "organization.owner.added"
          (concat (
            "You can now manage @" ∷ org.namespace ∷ " (added by @" ∷ auth.user.namespace ∷ ")."
            ∷ []))
          (("namespace", Db.text org.namespace) ∷ []) added
  ok (
      if any (is_member org.id u.id) db.organization_owners
      then db
      else audit auth.user "organization.owner.add" (some org.namespace) none none
          (("added", Db.text u.namespace) ∷ []) told)

-- DELETE /orgs/:namespace/owners/:ownerNamespace
unfoldable pub remove_org_owner :
    Option ℕ → Option Auth → (namespace candidate : String) → Db → Answered Db
unfolding manage_chain load_org_for_write is_valid_namespace notify_user audit concat
remove_org_owner terms caller namespace candidate db = do
  auth ← manage_chain terms caller
  org ← load_org_for_write db auth namespace
  u ← account_named db candidate "No such account."
  require (any (is_member org.id u.id) db.organization_owners)
      (not_found "That account is not an owner.")
  let rows = delete (is_member org.id u.id) db.organization_owners
  require (any (λ (g : Membership). g.org_id == org.id) rows) (
      conflict
        "That is the only owner. Add another owner, or delete the organization, before removing it.")
  ok (
      audit auth.user "organization.owner.remove" (some org.namespace) none none
        (("removed", Db.text u.namespace) ∷ [])
        (notify_user u.id "organization.owner.removed"
          (concat (
            "You were removed as an owner of @" ∷ org.namespace ∷ " by @" ∷ auth.user.namespace
            ∷ "." ∷ []))
          (("namespace", Db.text org.namespace) ∷ []) (record db { organization_owners = rows })))

-- POST /orgs/:namespace/webhooks
unfoldable pub create_organization_webhook :
    Network
    → (id : ℕ) → (secret : String) → Option ℕ
    → Option Auth
    → (namespace : String) → (is_object : Bool) → Input
    → Db
    → Answered (Hook × Db)
unfolding manage_chain load_org_for_write create audit
create_organization_webhook net id secret terms caller namespace is_object input db = do
  auth ← manage_chain terms caller
  org ← load_org_for_write db auth namespace
  object_body is_object
  (hook, db') ← as_fields (create net id secret org.namespace none input db)
  ok (
    hook,
    audit auth.user "organization.webhook.create" (some org.namespace) none none
        (("url", Db.text hook.url) ∷ []) db',
  )

-- DELETE /orgs/:namespace/webhooks/:webhookId, where `none` is a last part that is no integer.
unfoldable pub remove_organization_webhook :
    Option ℕ → Option Auth → (namespace : String) → (webhook_id : Option ℕ) → Db → Answered Db
unfolding manage_chain load_org_for_write remove audit
remove_organization_webhook terms caller namespace webhook_id db = do
  auth ← manage_chain terms caller
  org ← load_org_for_write db auth namespace
  id ← present webhook_id (not_found "Not found.")
  require (remove org.namespace none id db).1 (not_found "No such webhook.")
  ok (
      audit auth.user "organization.webhook.delete" (some org.namespace) none none
        (("id", number id) ∷ []) (remove org.namespace none id db).0)
