-- ===== src/Tokens/Grants.antt =====
-- A credential passes on only the scopes that it holds.
use twexthub.Shared.{
  ℕ, String, ◌≡◌, refl, sym, Bool, true, false, not, ◌&&◌, Option, some, none, List, [], ◌∷◌, ◌++◌,
  ◌==◌, string_eq, arith, all, keep, ok, require-ok, >>=-eq-ok, ok-injective,
}
use twexthub.Access.Credentials.{Auth, Credentials, includes, scopes_known}
use twexthub.Access.Guards.{require_auth, require_scope}
use twexthub.Packages.Requests.{Field}
use twexthub.Transfer.Offers.{is_empty}
use twexthub.Tokens.{
  Item, string, printed, Scopes, missing, array, no_array, Days, item_errors, scope_errors, unique,
  item_text, validate_scopes, create_errors, create_token, new_row,
}

-- A scope that the program knows and the caller holds.
abbrev pub is_grantable : List String → String → Bool
is_grantable caller_scopes s = includes scopes_known s && includes caller_scopes s

item_errors-eq-nil :
    (cs : List String) (x : Item)
    → is_empty (item_errors cs x) ≡ true
    → is_grantable cs (item_text x) ≡ true
unfolding item_errors
item_errors-eq-nil cs (string s) h = ground arith
item_errors-eq-nil cs (printed s) h = cc

is_empty-append :
    {A : Type 0} (xs ys : List A)
    → is_empty (xs ++ ys) ≡ true
    → (is_empty xs ≡ true) × (is_empty ys ≡ true)
is_empty-append [] ys h = (refl, h)
is_empty-append (x ∷ xs) ys h = cc

all-keep : (p q : String → Bool) (xs : List String) → all p xs ≡ true → all p (keep q xs) ≡ true
all-keep p q [] h = refl
all-keep p q (x ∷ xs) h = ground (arith, all-keep p q xs)

all-unique :
    (cs : List String) (xs : List Item)
    → is_empty (scope_errors cs xs) ≡ true
    → all (is_grantable cs) (unique xs) ≡ true
unfolding scope_errors unique
all-unique cs [] h = refl
all-unique cs (x ∷ xs) h =
    let (here, rest) = is_empty-append (item_errors cs x) (scope_errors cs xs) h in
    let head = item_errors-eq-nil cs x here in
    let tail =
      all-keep (is_grantable cs) (λ s. not (s == item_text x)) (unique xs)
        (all-unique cs xs rest) in
    rw (head, tail) refl

pub validate_scopes-grantable :
    (scopes : Scopes) (cs clean : List String)
    → validate_scopes scopes cs ≡ ok clean
    → (all (is_grantable cs) clean ≡ true) × (is_empty clean ≡ false)
unfolding validate_scopes unique
validate_scopes-grantable missing cs clean h = cc
validate_scopes-grantable no_array cs clean h = cc
validate_scopes-grantable (array []) cs clean h = cc
validate_scopes-grantable (array (x ∷ xs)) cs clean h =
    let (free, h1) = require-ok (is_empty (scope_errors cs (x ∷ xs))) _ _ h in
    rw (← ok-injective h1) (all-unique cs (x ∷ xs) free, refl)

pub require_scope-caller :
    (scope : String) (caller : Option Auth) (auth : Auth)
    → require_scope scope caller ≡ ok auth
    → (caller ≡ some auth) × (includes auth.scopes scope ≡ true)
unfolding require_scope require_auth
require_scope-caller scope none auth h = cc
require_scope-caller scope (some a) auth h =
    let (held, h1) = require-ok (includes a.scopes scope) _ _ h in
    rw (← ok-injective h1) (refl, held)

-- A new token belongs to the account of its maker, has at least one scope, and each of its scopes is
-- one that the program knows and that the maker's own credential holds, as is `manage:tokens`. So a
-- token is never stronger than the credential that minted it.
pub create_token-scopes :
    (id now : ℕ) (hash : String) (caller : Option Auth) (is_object : Bool) (name : Field)
    (scopes : Scopes) (lifetime : Days) (creds creds' : Credentials)
    → create_token id now hash caller is_object name scopes lifetime creds ≡ ok creds'
    → (auth : Auth) × (clean : List String) × (caller ≡ some auth)
      × (creds' ≡ record creds {
        automation_tokens = creds.automation_tokens ++ new_row id now auth hash clean lifetime ∷ [];
      })
      × ((new_row id now auth hash clean lifetime).user_id ≡ auth.user.id)
      × ((new_row id now auth hash clean lifetime).scopes ≡ clean)
      × (includes auth.scopes "manage:tokens" ≡ true)
      × (all (is_grantable auth.scopes) clean ≡ true)
      × (is_empty clean ≡ false)
unfolding create_token
create_token-scopes id now hash caller is_object name scopes lifetime creds creds' h =
    let (auth, asked, h1) = >>=-eq-ok (require_scope "manage:tokens" caller) _ h in
    let (_, h2) = require-ok is_object _ _ h1 in
    let (_, h3) = require-ok (is_empty (create_errors now name lifetime)) _ _ h2 in
    let (clean, valid, h4) = >>=-eq-ok (validate_scopes scopes auth.scopes) _ h3 in
    let (same, held) = require_scope-caller "manage:tokens" caller auth asked in
    let (granted, some_scope) = validate_scopes-grantable scopes auth.scopes clean valid in
    (auth, clean, same, sym (ok-injective h4), refl, refl, held, granted, some_scope)
