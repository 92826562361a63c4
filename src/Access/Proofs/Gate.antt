-- ===== src/Access/Proofs/Gate.antt =====
-- The terms gate over a history of published versions and of requests.
use twexthub.Shared.{ℕ, ◌≡◌, refl, ◌⊎◌, inl, inr, Option, none, some, List, [], ◌∷◌, arith, err, ap}
use twexthub.Http.Errors.{forbidden}
use twexthub.Access.Credentials.{Auth}
use twexthub.Access.Guards.{Answered}
use twexthub.Access.Terms.{
  TermsCache, fresh_cache, invalidate, refresh, outdated, gate_with, require_terms,
}

-- What happens at one instance: an admin publishes a version of the terms, which drops the cache,
-- or a request reaches the gate at a time of the clock.
pub data Event : Type 0 where
  publish : ℕ → Event
  request : ℕ → Option Auth → Event

-- The answers of the gate to a history.
abbrev pub gate_answers : Option ℕ → TermsCache → List Event → List (Answered Auth)
gate_answers published c [] = []
gate_answers published c (publish v ∷ es) = gate_answers (some v) (invalidate c) es
gate_answers published c (request now caller ∷ es) =
    (require_terms published now caller c).1
    ∷ gate_answers published (require_terms published now caller c).0 es

-- The answers without a cache: each request is held to the version that is published then.
abbrev pub exact_answers : Option ℕ → List Event → List (Answered Auth)
exact_answers published [] = []
exact_answers published (publish v ∷ es) = exact_answers (some v) es
exact_answers published (request now caller ∷ es) =
    gate_with published caller ∷ exact_answers published es

abbrev pub IsCurrent : Option ℕ → TermsCache → Type 0
IsCurrent published c = (c.cached_version ≡ none) ⊎ (c.cached_version ≡ published)

pub refresh-eq-published :
    (published : Option ℕ) (now : ℕ) (c : TermsCache)
    → IsCurrent published c
    → (refresh published now c).cached_version ≡ published
unfolding refresh
refresh-eq-published published now c h = ground arith

require_terms-exact :
    (published : Option ℕ) (now : ℕ) (caller : Option Auth) (c : TermsCache)
    → IsCurrent published c
    → ((require_terms published now caller c).1 ≡ gate_with published caller)
      × IsCurrent published (require_terms published now caller c).0
unfolding require_terms
require_terms-exact published now none c h = (refl, h)
require_terms-exact published now (some auth) c h =
    let e = refresh-eq-published published now c h in (ap (λ v. gate_with v (some auth)) e, inr e)

gate_from :
    (es : List Event) (published : Option ℕ) (c : TermsCache)
    → IsCurrent published c
    → gate_answers published c es ≡ exact_answers published es
unfolding invalidate
gate_from [] published c h = refl
gate_from (publish v ∷ es) published c h = gate_from es (some v) (invalidate c) (inl refl)
gate_from (request now caller ∷ es) published c h =
    let (e, k) = require_terms-exact published now caller c h in
    λ i. e i ∷ gate_from es published (require_terms published now caller c).0 k i

-- Where one instance publishes all versions and handles one event at a time, its cache is never
-- seen: every request of a history, at any time of the clock, is answered as if the version had
-- been read from the database for it.
pub gate_answers-exact :
    (published : Option ℕ) (es : List Event)
    → gate_answers published fresh_cache es ≡ exact_answers published es
unfolding fresh_cache
gate_answers-exact published es = gate_from es published fresh_cache (inl refl)

-- Once terms are published, an account that never accepted any is refused.
pub require_terms-never_accepted :
    (v now : ℕ) (auth : Auth) (c : TermsCache)
    → IsCurrent (some v) c
    → auth.user.terms_accepted_version ≡ none
    → (require_terms (some v) now (some auth) c).1
      ≡ err (forbidden "The current Terms of Service have not been accepted yet.")
unfolding require_terms
require_terms-never_accepted v now auth c h k =
    rw (refresh-eq-published (some v) now c h, k) (unfold outdated gate_with in refl)
