-- ===== src/Tokens/Revocation.antt =====
-- A revoked token authenticates nobody.
use twexthub.Shared.{
  ℕ, String, ◌≡◌, refl, sym, ap, ◌∙◌, false, Option, none, some, List, [], ◌∷◌, ◌==◌, string_eq,
  nat_eq, arith, All, any, find-Memᴰ, ok, require-ok, present-ok, >>=-eq-ok, ok-injective,
}
use twexthub.Shared.Rows.{delete}
use twexthub.Http.Errors.{not_found}
use twexthub.Db.{User}
use twexthub.Access.Credentials.{Auth, Credential, Credentials, join_user, lookup_token}
use twexthub.Access.Guards.{require_scope}
use twexthub.Tokens.{find_token, may_manage, delete_token}

join_user-none :
    (users : List User) (hash : String) (cs : List Credential)
    → any (λ c. c.token_hash == hash) cs ≡ false
    → join_user users hash cs ≡ none
unfolding join_user
join_user-none users hash [] h = refl
join_user-none users hash (c ∷ cs) h = ground (arith, join_user-none users hash cs)

deleted_hash :
    (id : ℕ) (hash : String) (cs : List Credential)
    → All (λ (c : Credential). c.token_hash ≡ hash → c.id ≡ id) cs
    → any (λ c. c.token_hash == hash) (delete (λ c. c.id == id) cs) ≡ false
deleted_hash id hash [] h = refl
deleted_hash id hash (c ∷ cs) h =
    ground
      (arith, deleted_hash id hash cs, string_eq.beq_iff c.token_hash hash, nat_eq.beq_iff c.id id)

lookup_token-none :
    (users : List User) (now : ℕ) (hash : String) (creds : Credentials)
    → any (λ c. c.token_hash == hash) creds.sessions ≡ false
    → any (λ c. c.token_hash == hash) creds.automation_tokens ≡ false
    → lookup_token users creds now hash ≡ none
unfolding lookup_token
lookup_token-none users now hash creds h k =
    rw
      (
        join_user-none users hash creds.sessions h,
        join_user-none users hash creds.automation_tokens k,
        lookup_token,
      )
      refl

-- Once a token is revoked, the lookup of its hash finds no credential, at any time: if no session has
-- that hash and no other token has it.
pub delete_token-lookup_token :
    (id : ℕ) (caller : Option Auth) (users : List User) (hash : String) (now : ℕ)
    (creds creds' : Credentials)
    → any (λ c. c.token_hash == hash) creds.sessions ≡ false
    → All (λ (c : Credential). c.token_hash ≡ hash → c.id ≡ id) creds.automation_tokens
    → delete_token (some id) caller creds ≡ ok creds'
    → lookup_token users creds' now hash ≡ none
unfolding delete_token find_token
delete_token-lookup_token id caller users hash now creds creds' no_session only h =
    let (auth, _, h1) = >>=-eq-ok (require_scope "manage:tokens" caller) _ h in
    let (row, found, h2) = present-ok (find_token (some id) creds) (not_found "Not found.") _ h1 in
    let (_, h3) = require-ok (may_manage auth row) _ _ h2 in
    let same : row.id ≡ id =
      ground (arith, (find-Memᴰ _ creds.automation_tokens row found).1, nat_eq.beq_iff row.id id) in
    let gone : any (λ c. c.token_hash == hash)
          (delete (λ c. c.id == row.id) creds.automation_tokens)
        ≡ false =
      rw same (deleted_hash id hash creds.automation_tokens only) in
    let none_left : lookup_token users
          (record creds {
            automation_tokens = delete (λ c. c.id == row.id) creds.automation_tokens;
          })
          now hash
        ≡ none =
      lookup_token-none users now hash _ no_session gone in
    ap (λ (c : Credentials). lookup_token users c now hash) (sym (ok-injective h3)) ∙ none_left
