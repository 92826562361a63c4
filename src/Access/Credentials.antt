-- ===== src/Access/Credentials.antt =====
-- `authenticate` and `lookupToken` of src/auth.js over the tables `sessions` and
-- `automation_tokens`. Times are milliseconds. The hash of a token is a parameter (node:crypto).
use twexthub.Shared.{
  ℕ, ◌+◌, String, Bool, true, false, Option, none, some, List, [], ◌∷◌, if◌then◌else◌, leb, ◌==◌,
  nat_eq, string_eq, find, any, not, ◌&&◌,
}
use twexthub.Shared.Rows.{update}
use twexthub.Db.{User}
use twexthub.Access.Bearer.{bearer}

-- SCOPES
abbrev pub scopes_known : List String
scopes_known =
    "publish" ∷ "yank" ∷ "read:source" ∷ "manage:account" ∷ "manage:orgs" ∷ "manage:sessions"
    ∷ "manage:tokens" ∷ "admin" ∷ []

-- a.includes(x)
abbrev pub includes : List String → String → Bool
includes xs x = any (λ y. y == x) xs

pub data TokenType : Type 0 where
  session automation : TokenType

-- A row of `sessions`, or of `automation_tokens`, whose scopes only the latter stores.
pub record Credential : Type 0 where
  pub id : ℕ
  pub user_id : ℕ
  pub token_hash : String
  pub expires_at : Option ℕ
  pub last_used_at : Option ℕ
  pub scopes : List String

pub record Credentials : Type 0 where
  pub sessions : List Credential
  pub automation_tokens : List Credential

-- `req.auth`
pub record Auth : Type 0 where
  pub user : User
  pub token_type : TokenType
  pub scopes : List String
  pub token_id : ℕ

pub record Found : Type 0 where
  pub auth : Auth
  pub last_used_at : Option ℕ

-- SELECT .. FROM t JOIN users u ON u.id = t.user_id WHERE t.token_hash = hash, its first row
unfoldable pub join_user : List User → String → List Credential → Option (Credential × User)
join_user users hash [] = none
join_user users hash (c ∷ cs) =
    if c.token_hash == hash
    then (elim (find (λ u. u.id == c.user_id) users) [
      | none ↦ join_user users hash cs
      | some u ↦ some (c, u)
    ])
    else join_user users hash cs

-- expires_at && expires_at <= new Date()
unfoldable pub expired : ℕ → Option ℕ → Bool
expired now none = false
expired now (some t) = leb t now

unfoldable pub found_by : TokenType → List String → Credential × User → Found
found_by type scopes (c, u) = record {
  auth = record { user = u; token_type = type; scopes = scopes; token_id = c.id };
  last_used_at = c.last_used_at;
}

unfoldable pub live : TokenType → ℕ → List String → Credential × User → Option Found
unfolding found_by expired
live type now scopes (c, u) =
    if expired now c.expires_at then none else some (found_by type scopes (c, u))

-- A session that is there decides, also where it has expired.
unfoldable pub lookup_token : List User → Credentials → ℕ → String → Option Found
unfolding join_user live
lookup_token users creds now hash = elim (join_user users hash creds.sessions) [
  | some (c, u) ↦ live session now scopes_known (c, u)
  | none ↦ elim (join_user users hash creds.automation_tokens) [
    | none ↦ none
    | some (c, u) ↦ live automation now c.scopes (c, u)
  ]
]

-- LAST_USED_THROTTLE_MS
abbrev last_used_throttle : ℕ
last_used_throttle = 60000

unfoldable pub should_touch_last_used : ℕ → Option ℕ → Bool
should_touch_last_used now none = true
should_touch_last_used now (some t) = leb (t + last_used_throttle) now

abbrev pub stamp : ℕ → Credential → Credential
stamp now c = record c { last_used_at = some now }

-- UPDATE sessions | automation_tokens SET last_used_at = now() WHERE id = ..
unfoldable pub touch : ℕ → Auth → Credentials → Credentials
touch now auth creds = elim auth.token_type [
  | session ↦ record creds {
    sessions = update (λ c. c.id == auth.token_id) (stamp now) creds.sessions;
  }
  | automation ↦ record creds {
    automation_tokens = update (λ c. c.id == auth.token_id) (stamp now) creds.automation_tokens;
  }
]

-- The middleware's end: who was found, and the tables after the write of `last_used_at`, which
-- may fail without failing the request.
unfoldable pub settle : Bool → ℕ → Option Found → Credentials → Option Auth × Credentials
unfolding touch should_touch_last_used
settle write_fails now none creds = (none, creds)
settle write_fails now (some f) creds =
    if not write_fails && should_touch_last_used now f.last_used_at
    then (some f.auth, touch now f.auth creds)
    else (some f.auth, creds)

module _ (hash_token : List ℕ → String) where
  -- `header` is none where the request has no such header.
  unfoldable pub authenticate :
      List User → Bool → ℕ → Option (List ℕ) → Credentials → Option Auth × Credentials
  unfolding bearer lookup_token settle
  authenticate users write_fails now none creds = (none, creds)
  authenticate users write_fails now (some header) creds = elim (bearer header) [
    | none ↦ (none, creds)
    | some token ↦ settle write_fails now (lookup_token users creds now (hash_token token)) creds
  ]
