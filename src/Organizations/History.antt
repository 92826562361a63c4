-- ===== src/Organizations/History.antt =====
-- Sequences of the requests that write accounts and owner lists.
pub mod Accounts
pub mod Owners
use twexthub.Shared.{
  ℕ, ◌+◌, ◌-◌, ◌≡◌, refl, ap, sym, ◌∙◌, String, Bool, true, false, not, ◌&&◌, ◌||◌, Option, none,
  some, List, [], ◌∷◌, ◌++◌, arith, ◌==◌, nat_eq, string_eq, ltb, any, find, keep, All, All-Memᴰ,
  Bool-cases, inl, inr, ==_refl, if◌then◌else◌, find-Memᴰ, ok, require-ok, refuse-ok, present-ok,
  present-last, &&_right, >>=-eq-ok, ok-injective, Result,
}
use mathlib.Core.List.{Memᴰ}
use twexthub.Shared.Rows.{update, delete, insert_new, All-update}
use twexthub.Util.Names.{is_valid_namespace}
use twexthub.Http.Errors.{HttpError, not_found}
use twexthub.Db.{Db, User, Membership, is_organization, is_admin_role}
use twexthub.Notify.{notify_user, audit}
use twexthub.Access.Credentials.{Auth}
use twexthub.Access.Guards.{Answered, require_scope, is_admin, require_auth}
use twexthub.Access.Terms.{gate_with, outdated}
use twexthub.Transfer.Offers.{is_empty}
use twexthub.Packages.Requests.{Field}
use twexthub.Webhooks.Targets.{Url}
use twexthub.Accounts.Profile.{Body, profile_patch, profile_columns, profile_field_errors}
use twexthub.Accounts.Signing.{
  Store, sign_up, sign_up_errors, create_session, new_user, add_user, field_text,
}
use twexthub.Accounts.Updates.{Update, load_user, patched, update_account}
use twexthub.Accounts.Updates.Authority.{update_account-tables}
use twexthub.Accounts.Deletion.{
  delete_account, delete_user, solely_owned, is_sole_owner, added_owner, uncharge, published_bytes,
}
use twexthub.Organizations.{
  manage_chain, load_org, load_org_for_write, is_org_owner, create_organization, create_errors,
  new_org, update_organization, delete_organization, clear_namespace, delete_org_row,
}
use twexthub.Organizations.Members.{is_member, add_org_owner, remove_org_owner, account_named}
use twexthub.Organizations.Owned.{
  is_person, has_owner, AllOwned, IsOwned, account-IsOwned, organization-IsOwned, member-IsOwned,
}
use twexthub.Organizations.Owned.Leaving.{left-IsOwned, of_org}
use twexthub.Organizations.Owned.Staying.{removed-IsOwned, dissolved-IsOwned, edited-IsOwned}
use twexthub.Organizations.History.Accounts.{
  sign_up-IsOwned, update_account-IsOwned, delete_account-IsOwned,
}
use twexthub.Organizations.History.Owners.{
  create_organization-IsOwned, update_organization-IsOwned, delete_organization-IsOwned,
  add_org_owner-IsOwned, remove_org_owner-IsOwned,
}

-- A request that was answered: each of the eight that write accounts or owner lists.
pub data Step (s : Store) : Store → Type 0 where
  signed_up :
      (hash_password : String → String) (now ttl_ms : ℕ) (token_hash : String)
      (window : Answered (Unit {0})) (is_object : Bool) (namespace password display_name : Field)
      (u : User) (s' : Store)
      → sign_up hash_password now ttl_ms token_hash window is_object namespace password display_name
          s
        ≡ ok (u, s')
      → Step s s'
  created :
      (parse_url : String → Option Url) (terms : Option ℕ) (auth : Auth)
      (window : Answered (Unit {0})) (is_object : Bool) (namespace : Field) (body : Body)
      (org : User) (db : Db)
      → is_person s.db.users auth.user.id ≡ true
      → create_organization parse_url terms (some auth) window is_object namespace body s.db
        ≡ ok (org, db)
      → Step s (record s { db = db })
  edited :
      (parse_url : String → Option Url) (terms : Option ℕ) (caller : Option Auth)
      (namespace : String) (is_object : Bool) (body : Body) (db : Db)
      → update_organization parse_url terms caller namespace is_object body s.db ≡ ok db
      → Step s (record s { db = db })
  dissolved :
      (terms : Option ℕ) (caller : Option Auth) (namespace : String) (db : Db)
      → delete_organization terms caller namespace s.db ≡ ok db
      → Step s (record s { db = db })
  added :
      (terms : Option ℕ) (caller : Option Auth) (namespace candidate : String) (db : Db)
      → add_org_owner terms caller namespace candidate s.db ≡ ok db
      → Step s (record s { db = db })
  removed :
      (terms : Option ℕ) (caller : Option Auth) (namespace candidate : String) (db : Db)
      → remove_org_owner terms caller namespace candidate s.db ≡ ok db
      → Step s (record s { db = db })
  updated :
      (parse_url : String → Option Url) (print : ℕ → String) (hash_password : String → String)
      (verify : String → Option String → Bool) (terms : Option ℕ) (caller : Option Auth)
      (is_object has_more : Bool) (namespace : String) (body : Update) (s' : Store)
      → update_account parse_url print hash_password verify terms caller is_object has_more
          namespace body s
        ≡ ok s'
      → Step s s'
  left :
      (caller : Option Auth) (namespace : String) (s' : Store)
      → delete_account caller namespace s ≡ ok s'
      → Step s s'

Step-IsOwned : (s s' : Store) → AllOwned s.db → Step s s' → AllOwned s'.db
Step-IsOwned s s' h (Step.signed_up hp now ttl th w o n p d u _ r) =
    sign_up-IsOwned hp now ttl th w o n p d s s' u h r
Step-IsOwned s s' h (Step.created pu t auth w o n b org db person r) =
    create_organization-IsOwned pu t auth w o n b s.db db org h person r
Step-IsOwned s s' h (Step.edited pu t c n o b db r) =
    update_organization-IsOwned pu t c n o b s.db db h r
Step-IsOwned s s' h (Step.dissolved t c n db r) = delete_organization-IsOwned t c n s.db db h r
Step-IsOwned s s' h (Step.added t c n m db r) = add_org_owner-IsOwned t c n m s.db db h r
Step-IsOwned s s' h (Step.removed t c n m db r) = remove_org_owner-IsOwned t c n m s.db db h r
Step-IsOwned s s' h (Step.updated pu pr hp v t c o m n b _ r) =
    update_account-IsOwned pu pr hp v t c o m n b s s' h r
Step-IsOwned s s' h (Step.left c n _ r) = delete_account-IsOwned c n s s' h r

pub data Reach (s : Store) : Store → Type 0 where
  start : Reach s s
  next : (t u : Store) → Reach s t → Step t u → Reach s u

-- No organization is ever left alone: from a state in which every organization has an owner who is an account
-- and the keys of the tables hold, whatever sign-ups, creations, changes and deletions of accounts and
-- organizations and whatever changes of owner lists are answered, in any order, each organization has
-- an owner who is an account again. An organization's creator has to be an account.
pub Reach-IsOwned : (s s' : Store) → AllOwned s.db → Reach s s' → AllOwned s'.db
Reach-IsOwned s s' h Reach.start = h
Reach-IsOwned s s' h (Reach.next t u reach step) = Step-IsOwned t u (Reach-IsOwned s t h reach) step
