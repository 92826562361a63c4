-- ===== src/Accounts/Updates/Authority.antt =====
-- What a change of an account takes, and what it ends.
use twexthub.Shared.{
  some, ℕ, String, ◌≡◌, ◌⊎◌, Bool, true, false, not, ◌&&◌, ◌||◌, Option, List, ◌++◌, ◌==◌, nat_eq,
  string_eq, Bool-cases, inl, inr, any, map, ok, require-ok, refuse-ok, >>=-eq-ok, ok-injective, ap,
  sym, ◌∙◌, eq_of_==, require-last,
}
use twexthub.Shared.Rows.{update, delete, any-delete_self, delete-update}
use twexthub.Db.{User, Membership, is_organization}
use twexthub.Access.Credentials.{Auth, Credential, includes}
use twexthub.Access.Guards.{require_scope, is_admin}
use twexthub.Transfer.Offers.{is_empty}
use twexthub.Webhooks.Targets.{Url}
use twexthub.Tokens.Grants.{require_scope-caller}
use twexthub.Accounts.Profile.{is_given}
use twexthub.Accounts.Signing.{Store, field_text}
use twexthub.Accounts.Updates.{
  Update, load_user, skip_terms, names_nothing, accepted, update_errors, confirm, write_update,
  patched, update_account,
}
use twexthub.Accounts.Updates.Writes.{
  rest_of, write_update-rest, write_update-creds, map-update_role, patched-role, patched-id,
}

module _ (parse_url : String → Option Url) (print : ℕ → String) (hash_password : String → String)
    (verify : String → Option String → Bool) (terms : Option ℕ) (caller : Option Auth)
    (is_object has_more : Bool) (namespace : String) (body : Update) (s s' : Store) where
  -- What a change that was answered passed on its way.
  record Passed : Type 0 where
    auth : Auth
    asked : (caller ≡ some auth) × (includes auth.scopes "manage:account" ≡ true)
    target : User
    version : Option ℕ
    loaded : load_user s.db namespace ≡ ok target
    mine : (auth.user.namespace == target.namespace || is_admin caller) ≡ true
    role : (not (is_given body.role) || is_admin caller) ≡ true
    confirmed : confirm verify caller body target ≡ ok tt
    written : write_update hash_password auth.user target body version s ≡ s'

  passed :
      update_account parse_url print hash_password verify terms caller is_object has_more namespace
          body s
        ≡ ok s'
      → Passed
  unfolding update_account
  passed r =
      let (auth, asked, r1) = >>=-eq-ok (require_scope "manage:account" caller) _ r in
      let (_, _, r2) = >>=-eq-ok (skip_terms terms caller body has_more) _ r1 in
      let (target, loaded, r3) = >>=-eq-ok (load_user s.db namespace) _ r2 in
      let (_, r4) = refuse-ok (is_organization target.kind) _ _ r3 in
      let (mine, r5) =
        require-ok (auth.user.namespace == target.namespace || is_admin caller) _ _ r4 in
      let (_, r6) = require-ok is_object _ _ r5 in
      let (_, r7) =
        refuse-ok
          (names_nothing body
            && not (is_given body.password)
            && not (is_given body.terms_accepted_version))
          _ _ r6 in
      let (known, _, r8) = >>=-eq-ok (accepted print terms body.terms_accepted_version) _ r7 in
      let (_, r9) = require-ok (is_empty (update_errors parse_url body ++ known.1)) _ _ r8 in
      let (role, r10) = require-ok (not (is_given body.role) || is_admin caller) _ _ r9 in
      let (_, confirmed, r11) = >>=-eq-ok (confirm verify caller body target) _ r10 in
      record {
        auth = auth;
        asked = require_scope-caller "manage:account" caller auth asked;
        target = target;
        version = known.0;
        loaded = loaded;
        mine = mine;
        role = role;
        confirmed = confirmed;
        written = ok-injective r11;
      }

  -- Only an admin, by role and by scope, changes a role or another account: if the caller of a change
  -- that is answered is none, the caller holds `manage:account` and is the account that the request names,
  -- the rows of the other accounts are as before, and every account has the role that it had.
  pub update_account-role :
      is_admin caller ≡ false
      → update_account parse_url print hash_password verify terms caller is_object has_more
          namespace body s
        ≡ ok s'
      → ((auth : Auth) × (target : User) × (caller ≡ some auth)
          × (includes auth.scopes "manage:account" ≡ true)
          × (load_user s.db namespace ≡ ok target)
          × (auth.user.namespace ≡ target.namespace)
          × (delete (λ (u : User). u.id == target.id) s'.db.users
              ≡ delete (λ (u : User). u.id == target.id) s.db.users))
        × (map (λ (u : User). u.role) s'.db.users ≡ map (λ (u : User). u.role) s.db.users)
  update_account-role common r =
      let p = passed r in
      let no_role : is_given body.role ≡ false = elim (Bool-cases (is_given body.role)) [
        | inl e ↦ let broken = rw (e, common) at p.role in cc
        | inr e ↦ e
      ] in
      let users : s'.db.users
          ≡ update (λ (u : User). u.id == p.target.id) (patched hash_password body p.version)
              s.db.users =
        ap (λ (t : Store). t.db.users) (sym p.written)
        ∙ ap (λ (t : List User × List Membership × ℕ). t.0)
            (write_update-rest hash_password p.auth.user p.target body p.version s) in
      (
        (
          p.auth,
          p.target,
          p.asked.0,
          p.asked.1,
          p.loaded,
          eq_of_== p.auth.user.namespace p.target.namespace
              (elim (Bool-cases (p.auth.user.namespace == p.target.namespace)) [
                | inl e ↦ e
                | inr e ↦ let broken = rw (e, common) at p.mine in cc
              ]),
          rw users (
              delete-update (λ (u : User). u.id == p.target.id)
                (patched hash_password body p.version) s.db.users
                (λ u. patched-id hash_password body p.version u p.target.id)),
        ),
        ap (map (λ (u : User). u.role)) users
            ∙ map-update_role (λ u. u.id == p.target.id) (patched hash_password body p.version)
                s.db.users (λ u. patched-role hash_password body p.version u no_role),
      )

  -- A new password is set by an admin or by an account that confirmed the current one, and whoever sets
  -- it, no session and no automation token of the account is left.
  pub update_account-password :
      is_given body.password ≡ true
      → update_account parse_url print hash_password verify terms caller is_object has_more
          namespace body s
        ≡ ok s'
      → (target : User) × (load_user s.db namespace ≡ ok target)
        × ((is_admin caller ≡ true)
            ⊎ (verify (field_text body.current_password) target.password_hash ≡ true))
        × (any (λ (c : Credential). c.user_id == target.id) s'.creds.sessions ≡ false)
        × (any (λ (c : Credential). c.user_id == target.id) s'.creds.automation_tokens ≡ false)
  unfolding confirm
  update_account-password given r =
      let p = passed r in
      let creds =
        ap (λ (t : Store). t.creds) (sym p.written)
        ∙ write_update-creds hash_password p.auth.user p.target body p.version s given in
      (
        p.target,
        p.loaded,
        elim (Bool-cases (is_admin caller)) [
          | inl e ↦ inl e
          | inr e ↦
              let asked = rw (given, e) at p.confirmed in
              let (_, checked) =
                require-ok (not (field_text body.current_password == "")) _ _ asked in
              inr (
                require-last (verify (field_text body.current_password) p.target.password_hash) _
                  checked)
        ],
        rw creds (any-delete_self (λ (c : Credential). c.user_id == p.target.id) s.creds.sessions),
        rw creds (
            any-delete_self (λ (c : Credential). c.user_id == p.target.id)
              s.creds.automation_tokens),
      )

  -- A change edits rows of accounts, and keeps their ids and kinds.
  pub update_account-tables :
      update_account parse_url print hash_password verify terms caller is_object has_more namespace
          body s
        ≡ ok s'
      → (p : User → Bool) × (version : Option ℕ) × (s'.db.users
          ≡ update p (patched hash_password body version) s.db.users)
        × (s'.db.organization_owners ≡ s.db.organization_owners)
        × (s'.db.next_user_id ≡ s.db.next_user_id)
  update_account-tables r =
      let q = passed r in
      let rest =
        ap (λ (t : Store). rest_of t.db) (sym q.written)
        ∙ write_update-rest hash_password q.auth.user q.target body q.version s in
      (
        λ u. u.id == q.target.id,
        q.version,
        ap (λ (t : List User × List Membership × ℕ). t.0) rest,
        ap (λ (t : List User × List Membership × ℕ). t.1) rest,
        ap (λ (t : List User × List Membership × ℕ). t.2) rest,
      )
