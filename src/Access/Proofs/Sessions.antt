-- ===== src/Access/Proofs/Sessions.antt =====
-- A request that is authenticated is backed by a live credential.
use mathlib.Core.List.{Memᴰ}
use twexthub.Shared.{
  ℕ, String, ◌≡◌, refl, sym, ◌⊎◌, inl, inr, Bool, false, Option, none, some, List, [], ◌∷◌, arith,
  ◌==◌, nat_eq, string_eq, Bool-cases, Option-cases, find, find-Memᴰ, eq_of_==,
}
use twexthub.Db.{User}
use twexthub.Access.Bearer.{bearer}
use twexthub.Access.Credentials.{
  Credential, Credentials, Auth, Found, TokenType, session, automation, scopes_known, join_user,
  expired, found_by, live, lookup_token, settle, authenticate,
}

module _ (users : List User) (hash : String) where
  join_user-Memᴰ :
      (cs : List Credential) (c : Credential) (u : User)
      → join_user users hash cs ≡ some (c, u)
      → Memᴰ c cs × Memᴰ u users × (c.token_hash ≡ hash) × (u.id ≡ c.user_id)
  unfolding join_user
  join_user-Memᴰ [] c u h = cc
  join_user-Memᴰ (d ∷ ds) c u h = elim (Bool-cases (d.token_hash == hash)) [
    | inr e ↦
        let (m, k, p, q) = join_user-Memᴰ ds c u (rw (e, join_user) at h) in (Memᴰ.tail m, k, p, q)
    | inl e ↦ elim (Option-cases (find (λ v. v.id == d.user_id) users)) [
      | inl none_found ↦
          let (m, k, p, q) = join_user-Memᴰ ds c u (ground arith) in (Memᴰ.tail m, k, p, q)
      | inr (v, found) ↦
          let same : (d ≡ c) × (v ≡ u) = ground arith in
          let (m, p) = find-Memᴰ (λ (w : User). w.id == d.user_id) users v found in
          (
            Memᴰ.head (sym same.0),
            rw (← same.1) m,
            rw (← same.0) (eq_of_== _ _ e),
            rw (← same.0) (rw (← same.1) (eq_of_== _ _ p)),
          )
    ]
  ]

-- The credential behind an authenticated request: a row of one of the two tables that carries the
-- hash, has not expired, and belongs to the account; a session has every scope and a token the
-- scopes of its row.
pub record Backed (users : List User) (creds : Credentials) (now : ℕ) (hash : String) (auth : Auth)
    : Type 0 where
  pub row : Credential
  pub listed :
      (auth.token_type ≡ session) × Memᴰ row creds.sessions × (auth.scopes ≡ scopes_known)
      ⊎ (auth.token_type ≡ automation)
        × Memᴰ row creds.automation_tokens
        × (auth.scopes ≡ row.scopes)
  pub hashed : row.token_hash ≡ hash
  pub alive : expired now row.expires_at ≡ false
  pub named : auth.token_id ≡ row.id
  pub account : Memᴰ auth.user users
  pub owned : auth.user.id ≡ row.user_id

live-eq-some :
    (type : TokenType) (now : ℕ) (scopes : List String) (c : Credential) (u : User) (f : Found)
    → live type now scopes (c, u) ≡ some f
    → (expired now c.expires_at ≡ false) × (found_by type scopes (c, u) ≡ f)
unfolding live
live-eq-some type now scopes c u f h = elim (Bool-cases (expired now c.expires_at)) [
  | inl e ↦ absurd (cc (rw e at h))
  | inr e ↦ (e, ground arith)
]

lookup_token-Backed :
    (users : List User) (creds : Credentials) (now : ℕ) (hash : String) (f : Found)
    → lookup_token users creds now hash ≡ some f
    → Backed users creds now hash f.auth
unfolding lookup_token
lookup_token-Backed users creds now hash f h =
    elim (Option-cases (join_user users hash creds.sessions)) [
      | inr ((c, u), joined) ↦
          let (alive, same) =
            live-eq-some session now scopes_known c u f (rw (joined, lookup_token) at h) in
          let (m, k, p, q) = join_user-Memᴰ users hash creds.sessions c u joined in
          rw (← same) (record {
            row = c;
            listed = inl (refl, m, refl);
            hashed = p;
            alive = alive;
            named = refl;
            account = k;
            owned = q;
          })
      | inl no_session ↦ elim (Option-cases (join_user users hash creds.automation_tokens)) [
        | inl no_token ↦ ground arith
        | inr ((c, u), joined) ↦
            let (alive, same) =
              live-eq-some automation now c.scopes c u f
                (rw (no_session, joined, lookup_token) at h) in
            let (m, k, p, q) = join_user-Memᴰ users hash creds.automation_tokens c u joined in
            rw (← same) (record {
              row = c;
              listed = inr (refl, m, refl);
              hashed = p;
              alive = alive;
              named = refl;
              account = k;
              owned = q;
            })
      ]
    ]

settle-fst :
    (write_fails : Bool) (now : ℕ) (found : Option Found) (creds : Credentials) (auth : Auth)
    → (settle write_fails now found creds).0 ≡ some auth
    → (f : Found) × (found ≡ some f) × (f.auth ≡ auth)
unfolding settle
settle-fst write_fails now none creds auth h = cc
settle-fst write_fails now (some f) creds auth h = (f, refl, ground arith)

-- A request that leaves the middleware with an identity presented a bearer token whose hash is
-- that of a live credential of one of the two tables, and acts as its account with its scopes;
-- whether `last_used_at` could be written does not matter.
pub authenticate-Backed :
    (hash_token : List ℕ → String) (users : List User) (write_fails : Bool) (now : ℕ)
    (header : Option (List ℕ)) (creds : Credentials) (auth : Auth)
    → (authenticate hash_token users write_fails now header creds).0 ≡ some auth
    → (h : List ℕ) × (token : List ℕ) × (header ≡ some h)
      × (bearer h ≡ some token)
      × Backed users creds now (hash_token token) auth
unfolding authenticate
authenticate-Backed hash_token users write_fails now none creds auth h = cc
authenticate-Backed hash_token users write_fails now (some header) creds auth h =
    elim (Option-cases (bearer header)) [
      | inl unread ↦ absurd (cc (rw unread at h))
      | inr (token, read) ↦
          let (f, found, same) = settle-fst write_fails now _ creds auth (rw read at h) in
          (
            header,
            token,
            refl,
            read,
            rw (← same) (lookup_token-Backed users creds now (hash_token token) f found),
          )
    ]
