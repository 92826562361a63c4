-- ===== src/Tests/Limits.antt =====
-- Tokens, windows and pages on sample requests.
use twexthub.Shared.{
  ℕ, ◌-◌, min, String, ◌≡◌, refl, arith, true, false, none, some, List, [], ◌∷◌, ◌++◌, all, ok,
  value_or, length,
}
use twexthub.Util.Text.{trim}
use twexthub.Access.Credentials.{Auth, Credentials, includes, lookup_token}
use twexthub.Packages.Requests.{text}
use twexthub.Transfer.Offers.{is_empty}
use twexthub.Tokens.{string, array, days, create_token, delete_token, new_row}
use twexthub.Tokens.Grants.{is_grantable, create_token-scopes}
use twexthub.Tokens.Revocation.{delete_token-lookup_token}
use twexthub.RateLimit.{count_of}
use twexthub.RateLimit.Windows.{arrived, guesses, guesses-eq-min}
use twexthub.Pagination.{PageLimits, parse_limit, walk}
use twexthub.Pagination.Walk.{walk-eq-rows}
use twexthub.Tests.Data.{alice, as_account, sessions}

abbrev minted : Credentials
unfolding create_token
minted = value_or sessions (
    create_token 4 9 "k" (some (as_account alice)) true (text "ci") (array (string "publish" ∷ []))
      (days 1) sessions)

mints :
    create_token 4 9 "k"
      (some (as_account alice))
      true
      (text "ci")
      (array (string "publish" ∷ []))
      (days 1)
      sessions
    ≡ ok minted
unfolding create_token minted
mints = refl

create_token-scopes_example :
    (auth : Auth) × (clean : List String) × (some (as_account alice) ≡ some auth)
    × (minted ≡ record sessions {
      automation_tokens = sessions.automation_tokens ++ new_row 4 9 auth "k" clean (days 1) ∷ [];
    })
    × ((new_row 4 9 auth "k" clean (days 1)).user_id ≡ auth.user.id)
    × ((new_row 4 9 auth "k" clean (days 1)).scopes ≡ clean)
    × (includes auth.scopes "manage:tokens" ≡ true)
    × (all (is_grantable auth.scopes) clean ≡ true)
    × (is_empty clean ≡ false)
create_token-scopes_example =
    create_token-scopes 4 9 "k" (some (as_account alice)) true (text "ci")
      (array (string "publish" ∷ [])) (days 1) sessions minted mints

abbrev with_token : Credentials
with_token = record sessions {
  automation_tokens = new_row 4 9 (as_account alice) "k" ("publish" ∷ []) (days 1) ∷ [];
}

abbrev without_token : Credentials
unfolding delete_token
without_token = value_or sessions (delete_token (some 4) (some (as_account alice)) with_token)

revokes : delete_token (some 4) (some (as_account alice)) with_token ≡ ok without_token
unfolding delete_token without_token
revokes = refl

delete_token-lookup_token_example : lookup_token (alice ∷ []) without_token 10 "k" ≡ none
delete_token-lookup_token_example =
    delete_token-lookup_token 4 (some (as_account alice)) (alice ∷ []) "k" 10 with_token
      without_token refl ((λ e. refl), tt) revokes

abbrev times : List ℕ
times = 120001 ∷ 120002 ∷ 180000 ∷ 120003 ∷ []

guesses-eq-min_example :
    guesses 2 1 "login:ip" 120000 times [] ≡ min (arrived 2 1 "login:ip" 120000 times) (2 - 0)
unfolding count_of
guesses-eq-min_example = guesses-eq-min 2 1 "login:ip" 120000 times [] (omega arith)

abbrev by_id : ℕ → ℕ
by_id n = n

abbrev ids : List ℕ
ids = 9 ∷ 7 ∷ 4 ∷ 2 ∷ 1 ∷ []

walk-eq-rows_example : walk by_id (length ids) 2 none ids ≡ ids
walk-eq-rows_example = walk-eq-rows by_id 2 ids (omega arith) (
  (refl, (refl, (refl, (refl, tt)))),
  ((refl, (refl, (refl, tt))), ((refl, (refl, tt)), ((refl, tt), (tt, tt)))),
)

abbrev page_limits : PageLimits
page_limits = record { default_limit = 20; max_limit = 100 }

parses : parse_limit page_limits (text "250") ≡ ok 100
unfolding parse_limit trim
parses = refl
