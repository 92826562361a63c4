-- ===== src/Webhooks/Targets/Blocks.antt =====
-- The private addresses of version 4 as blocks in the notation of their registry, `first/prefix`.
use twexthub.Shared.{
  ℕ, ◌+◌, ◌-◌, ◌*◌, ◌/◌, ◌^◌, ◌<◌, ◌≡◌, Bool, false, ◌&&◌, ◌||◌, List, [], ◌∷◌, arith, ◌==◌, nat_eq,
  leb, any, string_eq,
}
use twexthub.Webhooks.Targets.{is_private_v4}

-- The number that four octets write.
abbrev pub v4_address : (a b c d : ℕ) → ℕ
v4_address a b c d = ((a * 256 + b) * 256 + c) * 256 + d

pub record Block : Type 0 where
  pub first : ℕ
  pub prefix : ℕ

-- The address has the first `prefix` bits of the block.
abbrev pub in_block : Block → ℕ → Bool
in_block block n = n / 2 ^ (32 - block.prefix) == block.first / 2 ^ (32 - block.prefix)

abbrev block : (a b c d prefix : ℕ) → Block
block a b c d prefix = record { first = v4_address a b c d; prefix = prefix }

-- This network, private use, loopback, link-local, protocol assignments, shared address space,
-- benchmarking, and multicast with the reserved addresses above it.
abbrev pub private_blocks : List Block
private_blocks =
    block 10 0 0 0 8
    ∷ block 127 0 0 0 8
    ∷ block 0 0 0 0 8
    ∷ block 169 254 0 0 16
    ∷ block 172 16 0 0 12
    ∷ block 192 0 0 0 24
    ∷ block 192 168 0 0 16
    ∷ block 100 64 0 0 10
    ∷ block 198 18 0 0 15
    ∷ block 224 0 0 0 3
    ∷ []

module _ (a b c d : ℕ) (ha : a < 256) (hb : b < 256) (hc : c < 256) (hd : d < 256) where
  abbrev n : ℕ
  n = v4_address a b c d

  octet : (k : ℕ) → (a == k) ≡ (n / 16777216 == k)
  octet k = ground arith

  link_local : (a == 169 && b == 254) ≡ in_block (block 169 254 0 0 16) n
  link_local = ground arith

  site : (a == 172 && leb 16 b && leb b 31) ≡ in_block (block 172 16 0 0 12) n
  site = ground arith

  protocol : (a == 192 && b == 0 && c == 0) ≡ in_block (block 192 0 0 0 24) n
  protocol = ground arith

  home : (a == 192 && b == 168) ≡ in_block (block 192 168 0 0 16) n
  home = ground arith

  shared : (a == 100 && leb 64 b && leb b 127) ≡ in_block (block 100 64 0 0 10) n
  shared = ground arith

  benchmark : (a == 198 && (b == 18 || b == 19)) ≡ in_block (block 198 18 0 0 15) n
  benchmark = ground arith

  multicast : leb 224 a ≡ in_block (block 224 0 0 0 3) n
  multicast = ground arith

  or_false : (p : Bool) → (p || false) ≡ p
  or_false p = ground arith

  -- The tests on the octets of an address of version 4 accept exactly the addresses of the ten
  -- private blocks: each octet below 256, whatever the last one is.
  pub is_private_v4-eq-any : is_private_v4 a b c ≡ any (λ blk. in_block blk n) private_blocks
  unfolding is_private_v4
  is_private_v4-eq-any =
      rw
        (
          octet 10,
          octet 127,
          octet 0,
          link_local,
          site,
          protocol,
          home,
          shared,
          benchmark,
          multicast,
        )
        (ground arith)
