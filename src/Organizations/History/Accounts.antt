-- ===== src/Organizations/History/Accounts.antt =====
-- The routes of src/routes/users.js that write accounts, and the owners of organizations.
use twexthub.Shared.{
  ℕ, ◌-◌, ◌≡◌, refl, ap, String, Bool, true, not, ◌||◌, Option, List, [], ◌∷◌, arith, ◌==◌, nat_eq,
  string_eq, any, keep, All, Bool-cases, inl, inr, ok, require-ok, refuse-ok, >>=-eq-ok,
  ok-injective,
}
use twexthub.Shared.Rows.{update, All-update}
use twexthub.Db.{User, Membership, is_organization}
use twexthub.Access.Credentials.{Auth}
use twexthub.Access.Guards.{Answered, require_scope, is_admin}
use twexthub.Transfer.Offers.{is_empty}
use twexthub.Packages.Requests.{Field}
use twexthub.Webhooks.Targets.{Url}
use twexthub.Accounts.Profile.{profile_patch}
use twexthub.Accounts.Signing.{Store, sign_up, sign_up_errors, create_session, field_text}
use twexthub.Accounts.Updates.{Update, load_user, patched, update_account}
use twexthub.Accounts.Updates.Authority.{update_account-tables}
use twexthub.Accounts.Deletion.{
  delete_account, delete_user, solely_owned, is_sole_owner, added_owner, uncharge, published_bytes,
}
use twexthub.Organizations.Owned.{AllOwned, account-IsOwned}
use twexthub.Organizations.Owned.Leaving.{left-IsOwned}
use twexthub.Organizations.Owned.Staying.{edited-IsOwned}

pub sign_up-IsOwned :
    (hash_password : String → String) (now ttl_ms : ℕ) (token_hash : String)
    (window : Answered (Unit {0})) (is_object : Bool) (namespace password display_name : Field)
    (s s' : Store) (u : User)
    → AllOwned s.db
    → sign_up hash_password now ttl_ms token_hash window is_object namespace password display_name s
      ≡ ok (u, s')
    → AllOwned s'.db
unfolding sign_up create_session
sign_up-IsOwned hash_password now ttl_ms token_hash window is_object namespace password display_name
      s s' u h r =
    let (_, r1) = require-ok is_object _ _ r in
    let (_, r2) = require-ok (is_empty (sign_up_errors namespace password display_name)) _ _ r1 in
    let (_, _, r3) = >>=-eq-ok window _ r2 in
    let (_, r4) = refuse-ok (any (λ u. u.namespace == field_text namespace) s.db.users) _ _ r3 in
    let done = ap (λ (p : User × Store). p.1.db) (ok-injective r4) in
    rw (← done)
      (account-IsOwned s.db.users s.db.organization_owners s.db.next_user_id h _ refl refl)

pub update_account-IsOwned :
    (parse_url : String → Option Url) (print : ℕ → String) (hash_password : String → String)
    (verify : String → Option String → Bool) (terms : Option ℕ) (caller : Option Auth)
    (is_object has_more : Bool) (namespace : String) (body : Update) (s s' : Store)
    → AllOwned s.db
    → update_account parse_url print hash_password verify terms caller is_object has_more namespace
        body s
      ≡ ok s'
    → AllOwned s'.db
unfolding patched profile_patch
update_account-IsOwned parse_url print hash_password verify terms caller is_object has_more
      namespace body s s' h r =
    let (p, version, users, owners, next) =
      update_account-tables parse_url print hash_password verify terms caller is_object has_more
        namespace body s s' r in
    rw (users, owners, next)
      (edited-IsOwned p (patched hash_password body version) (λ u. (refl, refl)) s.db.users
        s.db.organization_owners s.db.next_user_id h)

sole_none :
    (t : ℕ) (members : List Membership) (users : List User)
    → is_empty (keep (is_sole_owner t members) users) ≡ true
    → All
        (λ (u : User). (not (is_organization u.kind) || not (is_sole_owner t members u)) ≡ true)
        users
sole_none t members [] h = tt
sole_none t members (u ∷ us) h = elim (Bool-cases (is_sole_owner t members u)) [
  | inl e ↦ absurd (let broken = rw e at h in cc)
  | inr e ↦ (rw e (ground arith), sole_none t members us (rw e at h))
]

pub delete_account-IsOwned :
    (caller : Option Auth) (namespace : String) (s s' : Store)
    → AllOwned s.db
    → delete_account caller namespace s ≡ ok s'
    → AllOwned s'.db
unfolding delete_account delete_user uncharge solely_owned
delete_account-IsOwned caller namespace s s' h r =
    let (auth, _, r1) = >>=-eq-ok (require_scope "manage:account" caller) _ r in
    let (target, _, r2) = >>=-eq-ok (load_user s.db namespace) _ r1 in
    let (_, r3) = refuse-ok (is_organization target.kind) _ _ r2 in
    let (_, r4) = require-ok (auth.user.namespace == target.namespace || is_admin caller) _ _ r3 in
    let (sole, r5) = require-ok (is_empty (solely_owned target.id s.db)) _ _ r4 in
    let (_, r6) = refuse-ok (any (added_owner target.id) s.db.extension_owners) _ _ r5 in
    let p : User → Bool = λ u. not (u.id == target.id) in
    let f : User → User = λ u. record u {
      blob_bytes = u.blob_bytes - published_bytes target.id u.namespace s.db.versions;
    } in
    let edited =
      edited-IsOwned p f (λ u. (refl, refl)) s.db.users s.db.organization_owners s.db.next_user_id
        h in
    let free =
      All-update
        (λ (u : User).
          (not (is_organization u.kind) || not (is_sole_owner target.id s.db.organization_owners u))
          ≡ true)
        p f s.db.users (λ u q hit. q)
        (sole_none target.id s.db.organization_owners s.db.users sole) in
    rw (← ok-injective r6) (
      left-IsOwned (update p f s.db.users) s.db.organization_owners s.db.next_user_id edited
        target.id free)
