-- ===== src/Tests/Requests.antt =====
-- Authentication, the gate, invitations, names and errors on sample requests.
use twexthub.Shared.{
  ℕ, String, ◌≡◌, refl, false, none, some, List, [], ◌∷◌, ok, value_or, string_eq,
}
use twexthub.Db.{User}
use twexthub.Http.Errors.{foreign, whole, Answer, answer, make, error_handler}
use twexthub.Util.Regex.{codes}
use twexthub.Util.Names.{is_valid_namespace, is_valid_extension_id}
use twexthub.Util.Versions.{step_max, max_version_by_semver}
use twexthub.Access.Credentials.{Auth, authenticate}
use twexthub.Access.Bearer.{bearer}
use twexthub.Access.Terms.{fresh_cache}
use twexthub.Access.Proofs.Sessions.{Backed, authenticate-Backed}
use twexthub.Access.Proofs.Gate.{
  Event, publish, request, gate_answers, exact_answers, gate_answers-exact,
}
use twexthub.Packages.Requests.{Effect, silent}
use twexthub.Packages.Owners.{invite_owner, accept_invite}
use twexthub.Packages.Owners.Consent.{Accepts, accept_invite-Accepts}
use twexthub.Tests.Data.{one_digit, alice, bob, tool, registry, as_account, sessions}

abbrev bearer_header : List ℕ
bearer_header = codes "Bearer x"

recognised :
    (authenticate (λ t. "h") registry.users false 5 (some bearer_header) sessions).0
    ≡ some (as_account alice)
unfolding authenticate
recognised = refl

authenticate-Backed_example :
    (h : List ℕ) × (token : List ℕ) × (some bearer_header ≡ some h)
    × (bearer h ≡ some token)
    × Backed registry.users sessions 5 "h" (as_account alice)
authenticate-Backed_example =
    authenticate-Backed (λ t. "h") registry.users false 5 (some bearer_header) sessions
      (as_account alice) recognised

abbrev day : List Event
day = request 1 (some (as_account alice)) ∷ publish 1 ∷ request 2 (some (as_account alice)) ∷ []

gate_answers-exact_example : gate_answers none fresh_cache day ≡ exact_answers none day
gate_answers-exact_example = gate_answers-exact none day

abbrev after_accept : Effect
unfolding accept_invite
after_accept =
    value_or (silent registry) (accept_invite none (some (as_account bob)) tool "bob" registry)

accepts : accept_invite none (some (as_account bob)) tool "bob" registry ≡ ok after_accept
unfolding accept_invite after_accept is_valid_namespace is_valid_extension_id
accepts = refl

accept_invite-Accepts_example :
    (auth : Auth) × (invited : User) × (some (as_account bob) ≡ some auth)
    × Accepts none (some (as_account bob)) tool "bob" registry after_accept auth invited
accept_invite-Accepts_example =
    accept_invite-Accepts none (some (as_account bob)) tool "bob" registry after_accept accepts

abbrev after_invite : Effect
unfolding invite_owner
after_invite =
    value_or (silent registry) (invite_owner none (some (as_account alice)) tool "bob" registry)

invites : invite_owner none (some (as_account alice)) tool "bob" registry ≡ ok after_invite
unfolding invite_owner after_invite is_valid_namespace is_valid_extension_id
invites = refl

abbrev released : List String
released = "1.0.0" ∷ "" ∷ "2.0.0" ∷ []

greatest_released : max_version_by_semver one_digit released ≡ some "2.0.0"
unfolding max_version_by_semver step_max
greatest_released = refl

none_released : max_version_by_semver one_digit ("" ∷ []) ≡ none
unfolding max_version_by_semver step_max
none_released = refl

abbrev lost : Answer
unfolding make
lost = answer (make 413 (some "Payload Too Large") none)

loses : error_handler false (foreign "entity.too.large" (some (whole 413)) none) ≡ some lost
unfolding error_handler lost
loses = refl
