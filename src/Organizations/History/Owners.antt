-- ===== src/Organizations/History/Owners.antt =====
-- The routes of src/routes/orgs.js, and the owners of organizations.
use twexthub.Shared.{
  ℕ, ◌≡◌, refl, ap, String, Bool, true, false, ◌&&◌, Option, some, List, [], ◌∷◌, arith, ◌==◌,
  nat_eq, string_eq, any, find, All-Memᴰ, Bool-cases, inl, inr, ==_refl, find-Memᴰ, ok, require-ok,
  refuse-ok, present-last, &&_right, >>=-eq-ok, ok-injective,
}
use mathlib.Core.List.{Memᴰ}
use twexthub.Shared.Rows.{delete}
use twexthub.Util.Names.{is_valid_namespace}
use twexthub.Db.{Db, User, Membership, is_organization}
use twexthub.Notify.{notify_user, audit}
use twexthub.Access.Credentials.{Auth}
use twexthub.Access.Guards.{Answered, require_scope}
use twexthub.Access.Terms.{gate_with, outdated}
use twexthub.Transfer.Offers.{is_empty}
use twexthub.Packages.Requests.{Field}
use twexthub.Webhooks.Targets.{Url}
use twexthub.Accounts.Profile.{Body, profile_patch, profile_columns, profile_field_errors}
use twexthub.Accounts.Signing.{field_text}
use twexthub.Accounts.Deletion.{delete_user, added_owner}
use twexthub.Organizations.{
  manage_chain, load_org, load_org_for_write, is_org_owner, create_organization, create_errors,
  new_org, update_organization, delete_organization, clear_namespace, delete_org_row,
}
use twexthub.Organizations.Members.{is_member, add_org_owner, remove_org_owner, account_named}
use twexthub.Organizations.Owned.{is_person, AllOwned, organization-IsOwned, member-IsOwned}
use twexthub.Organizations.Owned.Staying.{removed-IsOwned, dissolved-IsOwned, edited-IsOwned}

person_of_mem :
    (u : User) (users : List User)
    → Memᴰ u users
    → is_organization u.kind ≡ false
    → is_person users u.id ≡ true
person_of_mem u [] m e = elim m [ ]
person_of_mem u (v ∷ vs) (Memᴰ.head same) e = rw (← same, e) (ground (arith, ==_refl u.id))
person_of_mem u (v ∷ vs) (Memᴰ.tail m) e = ground (arith, person_of_mem u vs m e)

org_of_mem :
    (u : User) (users : List User)
    → Memᴰ u users
    → is_organization u.kind ≡ true
    → any (λ (v : User). v.id == u.id && is_organization v.kind) users ≡ true
org_of_mem u [] m e = elim m [ ]
org_of_mem u (v ∷ vs) (Memᴰ.head same) e = rw (← same, e) (ground (arith, ==_refl u.id))
org_of_mem u (v ∷ vs) (Memᴰ.tail m) e = ground (arith, org_of_mem u vs m e)

load_org-Memᴰ :
    (db : Db) (auth : Auth) (namespace : String) (org : User)
    → load_org_for_write db auth namespace ≡ ok org
    → Memᴰ org db.users × (is_organization org.kind ≡ true)
unfolding load_org_for_write load_org
load_org-Memᴰ db auth namespace org r =
    let (found, loaded, r1) = >>=-eq-ok (load_org db namespace) _ r in
    let (_, r2) = require-ok (is_org_owner db auth.user found) _ _ r1 in
    let (_, r3) = require-ok (is_valid_namespace namespace) _ _ loaded in
    let row =
      present-last (find (λ u. u.namespace == namespace && is_organization u.kind) db.users) _ r3 in
    let (m, named) =
      find-Memᴰ (λ u. u.namespace == namespace && is_organization u.kind) db.users found row in
    let same = ok-injective r2 in
    rw (← same) (
      m,
      ground (arith, &&_right (found.namespace == namespace) (is_organization found.kind) named),
    )

account_named-Memᴰ :
    (db : Db) (namespace message : String) (u : User)
    → account_named db namespace message ≡ ok u
    → Memᴰ u db.users
account_named-Memᴰ db namespace message u r =
    let (_, r1) = require-ok (is_valid_namespace namespace) _ _ r in
    (find-Memᴰ (λ u. u.namespace == namespace) db.users u
      (present-last (find (λ u. u.namespace == namespace) db.users) _ r1)).0

manage_chain-caller :
    (terms : Option ℕ) (auth caller : Auth)
    → manage_chain terms (some auth) ≡ ok caller
    → auth ≡ caller
unfolding manage_chain gate_with
manage_chain-caller terms auth caller r =
    let (_, _, gated) = >>=-eq-ok (require_scope "manage:orgs" (some auth)) _ r in
    elim (Bool-cases (outdated terms auth.user.terms_accepted_version)) [
      | inl e ↦ absurd (let broken = rw e at gated in cc)
      | inr e ↦ ok-injective (rw e at gated)
    ]

pub create_organization-IsOwned :
    (parse_url : String → Option Url) (terms : Option ℕ) (auth : Auth)
    (window : Answered (Unit {0})) (is_object : Bool) (namespace : Field) (body : Body)
    (db db' : Db) (org : User)
    → AllOwned db
    → is_person db.users auth.user.id ≡ true
    → create_organization parse_url terms (some auth) window is_object namespace body db
      ≡ ok (org, db')
    → AllOwned db'
unfolding create_organization audit profile_patch
create_organization-IsOwned parse_url terms auth window is_object namespace body db db' org h person
      r =
    let (caller, passed, r1) = >>=-eq-ok (manage_chain terms (some auth)) _ r in
    let same = manage_chain-caller terms auth caller passed in
    let (_, r2) = require-ok is_object _ _ r1 in
    let (_, r3) = require-ok (is_empty (create_errors parse_url namespace body)) _ _ r2 in
    let (_, r4) = refuse-ok (any (λ u. u.namespace == field_text namespace) db.users) _ _ r3 in
    let (_, _, r5) = >>=-eq-ok window _ r4 in
    let done = ap (λ (p : User × Db). p.1) (ok-injective r5) in
    rw (← done) (
      organization-IsOwned db.users db.organization_owners db.next_user_id h
        (new_org db (field_text namespace) body) caller.user.id refl (rw (← same) person))

pub update_organization-IsOwned :
    (parse_url : String → Option Url) (terms : Option ℕ) (caller : Option Auth) (namespace : String)
    (is_object : Bool) (body : Body) (db db' : Db)
    → AllOwned db
    → update_organization parse_url terms caller namespace is_object body db ≡ ok db'
    → AllOwned db'
unfolding update_organization audit profile_patch
update_organization-IsOwned parse_url terms caller namespace is_object body db db' h r =
    let (auth, _, r1) = >>=-eq-ok (manage_chain terms caller) _ r in
    let (org, _, r2) = >>=-eq-ok (load_org_for_write db auth namespace) _ r1 in
    let (_, r3) = require-ok is_object _ _ r2 in
    let (_, r4) = refuse-ok (is_empty (profile_columns body)) _ _ r3 in
    let (_, r5) = require-ok (is_empty (profile_field_errors parse_url body)) _ _ r4 in
    rw (← ok-injective r5) (
      edited-IsOwned (λ u. u.id == org.id) (profile_patch body) (λ u. (refl, refl)) db.users
        db.organization_owners db.next_user_id h)

pub delete_organization-IsOwned :
    (terms : Option ℕ) (caller : Option Auth) (namespace : String) (db db' : Db)
    → AllOwned db
    → delete_organization terms caller namespace db ≡ ok db'
    → AllOwned db'
unfolding delete_organization audit delete_org_row delete_user clear_namespace
delete_organization-IsOwned terms caller namespace db db' h r =
    let (auth, _, r1) = >>=-eq-ok (manage_chain terms caller) _ r in
    let (org, loaded, r2) = >>=-eq-ok (load_org_for_write db auth namespace) _ r1 in
    let (m, kind) = load_org-Memᴰ db auth namespace org loaded in
    let (_, r3) =
      refuse-ok (any (added_owner org.id) (clear_namespace org.namespace db).extension_owners) _ _
        r2 in
    rw (← ok-injective r3) (
      dissolved-IsOwned db.users db.organization_owners db.next_user_id h org.id
        (org_of_mem org db.users m kind))

pub add_org_owner-IsOwned :
    (terms : Option ℕ) (caller : Option Auth) (namespace candidate : String) (db db' : Db)
    → AllOwned db
    → add_org_owner terms caller namespace candidate db ≡ ok db'
    → AllOwned db'
unfolding add_org_owner notify_user audit
add_org_owner-IsOwned terms caller namespace candidate db db' h r =
    let (auth, _, r1) = >>=-eq-ok (manage_chain terms caller) _ r in
    let (org, loaded, r2) = >>=-eq-ok (load_org_for_write db auth namespace) _ r1 in
    let (u, named, r3) = >>=-eq-ok (account_named db candidate "No such account to add.") _ r2 in
    let (person, r4) = refuse-ok (is_organization u.kind) _ _ r3 in
    let (m, _) = load_org-Memᴰ db auth namespace org loaded in
    let below = All-Memᴰ _ db.users org m h.numbered in
    let someone = person_of_mem u db.users (account_named-Memᴰ db candidate _ u named) person in
    let added =
      member-IsOwned db.users db.organization_owners db.next_user_id h
        (record { org_id = org.id; user_id = u.id }) below someone in
    elim (Bool-cases (any (is_member org.id u.id) db.organization_owners)) [
      | inl there ↦ rw (← ok-injective r4, there) h
      | inr new ↦ elim (Bool-cases (u.id == auth.user.id)) [
        | inl self ↦ rw (← ok-injective r4, new, self) (rw new at added)
        | inr another ↦ rw (← ok-injective r4, new, another) (rw new at added)
      ]
    ]

pub remove_org_owner-IsOwned :
    (terms : Option ℕ) (caller : Option Auth) (namespace candidate : String) (db db' : Db)
    → AllOwned db
    → remove_org_owner terms caller namespace candidate db ≡ ok db'
    → AllOwned db'
unfolding remove_org_owner notify_user audit
remove_org_owner-IsOwned terms caller namespace candidate db db' h r =
    let (auth, _, r1) = >>=-eq-ok (manage_chain terms caller) _ r in
    let (org, _, r2) = >>=-eq-ok (load_org_for_write db auth namespace) _ r1 in
    let (u, _, r3) = >>=-eq-ok (account_named db candidate "No such account.") _ r2 in
    let (_, r4) = require-ok (any (is_member org.id u.id) db.organization_owners) _ _ r3 in
    let (left, r5) =
      require-ok
        (any (λ (g : Membership). g.org_id == org.id)
          (delete (is_member org.id u.id) db.organization_owners))
        _ _ r4 in
    rw (← ok-injective r5)
      (removed-IsOwned db.users db.organization_owners db.next_user_id h org.id u.id left)
