-- ===== src/Webhooks/Targets/Public.antt =====
-- What the check of a hook's URL promises of the address that a delivery connects to.
use twexthub.Shared.{
  ℕ, ◌≡◌, refl, String, false, not, ◌||◌, List, [], ◌∷◌, ◌==◌, nat_eq, string_eq, any, ok,
  require-ok, refuse-ok, present-ok, ok-injective, Bool-cases, inl, inr, some, ||_false, eq_of_==,
}
use twexthub.Util.Regex.{codes}
use twexthub.Webhooks.Targets.{
  Network, Url, Target, Entry, host_of, same_codes, is_private_ip, first_public, resolve_host,
  resolve_public_webhook_target,
}

module _ (net : Network) where
  first_public-public :
      (url : Url) (es : List Entry) (t : Target)
      → first_public net url es ≡ ok t
      → (t.url ≡ url) × (is_private_ip net t.address ≡ false)
  unfolding first_public
  first_public-public url [] t h = cc
  first_public-public url (e ∷ es) t h =
      let (clean, r) =
        refuse-ok (any (λ (x : Entry). is_private_ip net x.address) (e ∷ es)) _ _ h in
      rw (← ok-injective r) (refl, (||_false (is_private_ip net e.address) _ clean).0)

  resolve_host-public :
      (url : Url) (host : List ℕ) (t : Target)
      → resolve_host net url host ≡ ok t
      → (t.url ≡ url) × (is_private_ip net t.address ≡ false)
  unfolding resolve_host
  resolve_host-public url host t h = elim (Bool-cases (not (net.is_ip host == 0))) [
    | inl literal ↦
        let (clean, r) = refuse-ok (is_private_ip net host) _ _ (rw literal at h) in
        rw (← ok-injective r) (refl, clean)
    | inr name ↦
        let (es, _, r) = present-ok (net.lookup host) _ _ (rw name at h) in
        first_public-public url es t r
  ]

  -- A URL that passes the check has the scheme https and does not name the local host, and the address
  -- that a delivery to it connects to is not a private one, whether the host is an address or a name,
  -- and whatever the resolver answers.
  pub resolve_public_webhook_target-public :
      (raw_url : String) (t : Target)
      → resolve_public_webhook_target net raw_url ≡ ok t
      → (net.parse_url raw_url ≡ some t.url)
        × (t.url.protocol ≡ "https:")
        × (same_codes (host_of t.url) (codes "localhost") ≡ false)
        × (is_private_ip net t.address ≡ false)
  unfolding resolve_public_webhook_target
  resolve_public_webhook_target-public raw_url t h =
      let (url, parsed, r1) = present-ok (net.parse_url raw_url) _ _ h in
      let (secure, r2) = require-ok (url.protocol == "https:") _ _ r1 in
      let (foreign, r3) =
        refuse-ok
          (same_codes (host_of url) (codes "localhost")
            || same_codes (host_of url) (codes "0.0.0.0"))
          _ _ r2 in
      let (same, clean) = resolve_host-public url (host_of url) t r3 in
      rw same (
        parsed,
        eq_of_== url.protocol "https:" secure,
        (||_false (same_codes (host_of url) (codes "localhost")) _ foreign).0,
        clean,
      )
