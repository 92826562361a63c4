-- ===== src/Access/Terms.antt =====
-- `makeRequireTerms` of src/auth.js: the gate on the accepted terms, with its cache.
use twexthub.Shared.{
  ℕ, ◌+◌, Bool, true, false, ◌||◌, Option, none, some, if◌then◌else◌, ltb, ◌==◌, nat_eq, ok, err,
}
use twexthub.Http.Errors.{forbidden}
use twexthub.Access.Credentials.{Auth}
use twexthub.Access.Guards.{Answered, require_auth}

-- `cachedVersion` is `none` both where it is undefined and where it is null: either is read again.
pub record TermsCache : Type 0 where
  pub cached_version : Option ℕ
  pub cached_at : ℕ

unfoldable pub fresh_cache : TermsCache
fresh_cache = record { cached_version = none; cached_at = 0 }

-- requireTerms.invalidate
unfoldable pub invalidate : TermsCache → TermsCache
invalidate c = record { cached_version = none; cached_at = 0 }

-- The cache after a read; `published` is the version in `legal_documents`, if there is one.
unfoldable pub refresh : Option ℕ → ℕ → TermsCache → TermsCache
refresh published now c = elim c.cached_version [
  | none ↦ record { cached_version = published; cached_at = now }
  | some v ↦
      if ltb (c.cached_at + 60000) now
      then record { cached_version = published; cached_at = now }
      else c
]

-- cachedVersion !== null && (!accepted || accepted < cachedVersion)
unfoldable pub outdated : Option ℕ → Option ℕ → Bool
outdated none accepted = false
outdated (some v) none = true
outdated (some v) (some a) = a == 0 || ltb a v

-- The gate's decision on the version that it has at hand.
unfoldable pub gate_with : Option ℕ → Option Auth → Answered Auth
unfolding require_auth outdated
gate_with version none = require_auth none
gate_with version (some auth) =
    if outdated version auth.user.terms_accepted_version
    then err (forbidden "The current Terms of Service have not been accepted yet.")
    else ok auth

unfoldable pub require_terms : Option ℕ → ℕ → Option Auth → TermsCache → TermsCache × Answered Auth
unfolding refresh gate_with
require_terms published now caller c = elim caller [
  | none ↦ (c, gate_with none none)
  | some auth ↦ let c' = refresh published now c in (c', gate_with c'.cached_version (some auth))
]
