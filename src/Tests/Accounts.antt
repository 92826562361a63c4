-- ===== src/Tests/Accounts.antt =====
-- Accounts and organizations on sample requests.
use twexthub.Shared.{
  ℕ, ◌≡◌, ◌⊎◌, refl, String, Bool, true, false, none, some, Option, arith, any, map, ok, value_or,
  ◌==◌, nat_eq, string_eq,
}
use twexthub.Db.{Db, User}
use twexthub.Access.Credentials.{Auth, Credential, includes}
use twexthub.Shared.Rows.{delete}
use twexthub.Access.Guards.{is_admin}
use twexthub.Packages.Requests.{absent, text}
use twexthub.Transfer.Charges.{IsAccounted}
use twexthub.Webhooks.Targets.{Url}
use twexthub.Accounts.Profile.{Body}
use twexthub.Accounts.Signing.{Store}
use twexthub.Accounts.Updates.{Update, load_user, update_account}
use twexthub.Accounts.Updates.Authority.{update_account-role, update_account-password}
use twexthub.Accounts.Deletion.{delete_account}
use twexthub.Accounts.Deletion.Charges.{delete_account-IsAccounted}
use twexthub.Organizations.{create_organization}
use twexthub.Organizations.Members.{add_org_owner, remove_org_owner}
use twexthub.Organizations.Owned.{AllOwned}
use twexthub.Organizations.History.{Reach, start, next, created, added, removed, Reach-IsOwned}
use twexthub.Tests.Data.{alice, registry, sessions, as_account}

abbrev no_url : String → Option Url
no_url s = none

abbrev print : ℕ → String
print n = "1"

abbrev hash : String → String
hash s = s

-- A password is its own hash here.
abbrev verify : String → Option String → Bool
verify s none = false
verify s (some h) = s == h

abbrev store : Store
store = record { db = registry; creds = sessions; next_session_id = 8 }

abbrev unchanged : Body
unchanged = record {
  display_name = absent;
  bio = absent;
  website = absent;
  github = absent;
  avatar_url = absent;
  banner_url = absent;
}

abbrev secured : Update
secured = record {
  profile = unchanged;
  password = text "correct horse";
  current_password = text "p";
  role = absent;
  terms_accepted_version = absent;
}

abbrev after_update : Store
after_update = value_or store (
    update_account no_url print hash verify none (some (as_account alice)) true false "alice"
      secured store)

answered :
    update_account no_url print hash verify none
      (some (as_account alice))
      true
      false
      "alice"
      secured
      store
    ≡ ok after_update
unfolding update_account
answered = refl

common : is_admin (some (as_account alice)) ≡ false
unfolding is_admin
common = refl

update_account-role_example :
    ((auth : Auth) × (target : User) × (some (as_account alice) ≡ some auth)
      × (includes auth.scopes "manage:account" ≡ true)
      × (load_user store.db "alice" ≡ ok target)
      × (auth.user.namespace ≡ target.namespace)
      × (delete (λ (u : User). u.id == target.id) after_update.db.users
          ≡ delete (λ (u : User). u.id == target.id) store.db.users))
    × (map (λ (u : User). u.role) after_update.db.users ≡ map (λ (u : User). u.role) store.db.users)
update_account-role_example =
    update_account-role no_url print hash verify none (some (as_account alice)) true false "alice"
      secured store after_update common answered

update_account-password_example :
    (target : User) × (load_user store.db "alice" ≡ ok target)
    × ((is_admin (some (as_account alice)) ≡ true) ⊎ (verify "p" target.password_hash ≡ true))
    × (any (λ (c : Credential). c.user_id == target.id) after_update.creds.sessions ≡ false)
    × (any (λ (c : Credential). c.user_id == target.id) after_update.creds.automation_tokens
        ≡ false)
update_account-password_example =
    update_account-password no_url print hash verify none (some (as_account alice)) true false
      "alice" secured store after_update refl answered

abbrev after_deletion : Store
after_deletion = value_or store (delete_account (some (as_account alice)) "alice" store)

deleted : delete_account (some (as_account alice)) "alice" store ≡ ok after_deletion
unfolding delete_account
deleted = refl

delete_account-IsAccounted_example : IsAccounted after_deletion.db.users after_deletion.db.versions
delete_account-IsAccounted_example =
    delete_account-IsAccounted (some (as_account alice)) "alice" store after_deletion
      (refl, (refl, tt)) deleted

at_first : AllOwned registry
at_first = record {
  people = tt;
  owned = (refl, (refl, tt));
  once = λ o t. omega arith;
  unique = λ id. ground arith;
  numbered = (refl, (refl, tt));
  linked = tt;
}

abbrev with_org : Db
with_org =
    (value_or (alice, registry)
      (create_organization no_url none (some (as_account alice)) (ok tt) true (text "acme")
        unchanged registry)).1

abbrev acme : User
acme =
    (value_or (alice, registry)
      (create_organization no_url none (some (as_account alice)) (ok tt) true (text "acme")
        unchanged registry)).0

founded :
    create_organization no_url none
      (some (as_account alice))
      (ok tt)
      true
      (text "acme")
      unchanged
      registry
    ≡ ok (acme, with_org)
unfolding create_organization
founded = refl

abbrev with_both : Db
with_both = value_or registry (add_org_owner none (some (as_account alice)) "acme" "bob" with_org)

abbrev with_bob : Db
with_bob =
    value_or registry (remove_org_owner none (some (as_account alice)) "acme" "alice" with_both)

joined : add_org_owner none (some (as_account alice)) "acme" "bob" with_org ≡ ok with_both
unfolding add_org_owner create_organization
joined = refl

gone : remove_org_owner none (some (as_account alice)) "acme" "alice" with_both ≡ ok with_bob
unfolding remove_org_owner add_org_owner create_organization
gone = refl

abbrev on : Db → Store
on db = record store { db = db }

abbrev past : Reach store (on with_bob)
past =
    next (on with_both) (on with_bob)
      (next (on with_org) (on with_both)
        (next store (on with_org) start (
          created no_url none (as_account alice) (ok tt) true (text "acme") unchanged acme with_org
            refl founded))
        (added none (some (as_account alice)) "acme" "bob" with_both joined))
      (removed none (some (as_account alice)) "acme" "alice" with_bob gone)

Reach-IsOwned_example : AllOwned with_bob
Reach-IsOwned_example = Reach-IsOwned store (on with_bob) at_first past
