-- ===== src/Webhooks/Targets.antt =====
-- `isPrivateIp` and `resolvePublicWebhookTarget` of src/webhooks.js. The parser of URLs, `isIP` and the
-- resolver of names are the platform's, and stand in a parameter.
pub mod Blocks
pub mod Public
use twexthub.Shared.{
  ℕ, ◌+◌, ◌*◌, ◌-◌, String, Bool, true, false, not, ◌&&◌, ◌||◌, Option, none, some, List, [], ◌∷◌,
  ◌==◌, nat_eq, string_eq, if◌then◌else◌, leb, ltb, any, map, Result, ok, err, require, refuse,
  present, ◌>>=◌, ◌>>◌,
}
use twexthub.Util.Regex.{codes}

-- s.startsWith(prefix)
unfoldable pub starts_with : List ℕ → List ℕ → Bool
starts_with [] s = true
starts_with (c ∷ cs) [] = false
starts_with (c ∷ cs) (d ∷ ds) = c == d && starts_with cs ds

-- s.includes(part)
unfoldable pub has_part : List ℕ → List ℕ → Bool
unfolding starts_with
has_part part [] = starts_with part []
has_part part (c ∷ s) = starts_with part (c ∷ s) || has_part part s

-- a === b
unfoldable pub same_codes : List ℕ → List ℕ → Bool
same_codes [] [] = true
same_codes (c ∷ cs) (d ∷ ds) = c == d && same_codes cs ds
same_codes _ _ = false

abbrev onto_first : ℕ → List (List ℕ) → List (List ℕ)
onto_first c [] = (c ∷ []) ∷ []
onto_first c (part ∷ parts) = (c ∷ part) ∷ parts

-- s.split(sep)
unfoldable pub split : ℕ → List ℕ → List (List ℕ)
split sep [] = [] ∷ []
split sep (c ∷ s) = let parts = split sep s in if c == sep then [] ∷ parts else onto_first c parts

-- Number(part), for a part of decimal digits
unfoldable pub decimal : ℕ → List ℕ → ℕ
decimal n [] = n
decimal n (c ∷ s) = decimal (n * 10 + (c - b'0')) s

-- s.toLowerCase(), in ASCII
abbrev lower : ℕ → ℕ
lower c = if leb b'A' c && leb c b'Z' then c + 32 else c

-- The version 4 tests, on the first three numbers.
unfoldable pub is_private_v4 : (a b c : ℕ) → Bool
is_private_v4 a b c =
    a == 10
    || a == 127
    || a == 0
    || (a == 169 && b == 254)
    || (a == 172 && leb 16 b && leb b 31)
    || (a == 192 && b == 0 && c == 0)
    || (a == 192 && b == 168)
    || (a == 100 && leb 64 b && leb b 127)
    || (a == 198 && (b == 18 || b == 19))
    || leb 224 a

unfoldable pub is_private_v4_text : List (List ℕ) → Bool
unfolding is_private_v4 decimal
is_private_v4_text (a ∷ b ∷ c ∷ rest) = is_private_v4 (decimal 0 a) (decimal 0 b) (decimal 0 c)
is_private_v4_text _ = false

abbrev first_part : List (List ℕ) → List ℕ
first_part [] = []
first_part (part ∷ parts) = part

unfoldable pub is_private_v6 : List ℕ → Bool
unfolding starts_with has_part same_codes split
is_private_v6 ip =
    let norm = map lower ip in
    let first = first_part (split b':' norm) in
    same_codes norm (codes "::")
    || same_codes norm (codes "::1")
    || has_part (codes ":ffff:") norm
    || (starts_with (codes "fc") first || starts_with (codes "fd") first)
    || starts_with (codes "fe") first
    || (same_codes first (codes "2002") || same_codes first (codes "64"))
    || starts_with (codes "2001:0:") norm

pub record Url : Type 0 where
  pub protocol : String
  pub hostname : List ℕ

pub record Entry : Type 0 where
  pub address : List ℕ
  pub family : ℕ

-- new URL(..), net.isIP and dns.lookup(.., { all: true }): `none` is a thrown error.
pub record Network : Type 0 where
  pub parse_url : String → Option Url
  pub is_ip : List ℕ → ℕ
  pub lookup : List ℕ → Option (List Entry)

pub record Target : Type 0 where
  pub url : Url
  pub address : List ℕ
  pub family : ℕ

-- hostname.replace(/^\[|\]$/g, '')
abbrev drop_front : List ℕ → List ℕ
drop_front [] = []
drop_front (c ∷ s) = if c == b'[' then s else c ∷ s

abbrev drop_back : List ℕ → List ℕ
drop_back [] = []
drop_back (c ∷ []) = if c == b']' then [] else c ∷ []
drop_back (c ∷ d ∷ s) = c ∷ drop_back (d ∷ s)

unfoldable pub host_of : Url → List ℕ
host_of url = map lower (drop_back (drop_front url.hostname))

module _ (net : Network) where
  unfoldable pub is_private_ip : List ℕ → Bool
  unfolding is_private_v4_text split is_private_v6
  is_private_ip ip =
      if net.is_ip ip == 4
      then is_private_v4_text (split b'.' ip)
      else if not (net.is_ip ip == 6)
      then true
      else is_private_v6 ip

  abbrev not_public : String
  not_public = "Webhook URL must resolve to a public (non-private) address."

  -- The end of the check of a host that is a name.
  unfoldable pub first_public : Url → List Entry → Result String Target
  unfolding is_private_ip
  first_public url [] = err not_public
  first_public url (e ∷ es) = do
    refuse (any (λ (entry : Entry). is_private_ip entry.address) (e ∷ es)) not_public
    ok (record { url = url; address = e.address; family = e.family })

  unfoldable pub resolve_host : Url → List ℕ → Result String Target
  unfolding is_private_ip first_public
  resolve_host url host =
      if not (net.is_ip host == 0)
      then (do
        refuse (is_private_ip host) not_public
        ok (record { url = url; address = host; family = net.is_ip host }))
      else (do
        entries ← present (net.lookup host) "Webhook URL host could not be resolved."
        first_public url entries)

  -- resolvePublicWebhookTarget: the error's message, or the address that a delivery connects to
  unfoldable pub resolve_public_webhook_target : String → Result String Target
  unfolding same_codes host_of resolve_host
  resolve_public_webhook_target raw_url = do
    url ← present (net.parse_url raw_url) "Invalid webhook URL."
    require (url.protocol == "https:") "Webhook URL must use https."
    refuse
        (same_codes (host_of url) (codes "localhost") || same_codes (host_of url) (codes "0.0.0.0"))
        "Localhost is not a valid webhook target."
    resolve_host url (host_of url)
