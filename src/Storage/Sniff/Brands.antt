-- ===== src/Storage/Sniff/Brands.antt =====
-- The loop over the compatible brands of an AVIF file.
use twexthub.Shared.{
  ℕ, zero, suc, ◌+◌, ◌*◌, ◌≤◌, ◌<◌, ◌≡◌, ◌↔◌, refl, true, ◌||◌, List, arith, Bool-cases, inl, inr,
  leb, leb→le, length,
}
use twexthub.Util.Regex.{codes}
use twexthub.Storage.Sniff.{stands_at, box_end, is_compatible, has_compatible, is_avif}

-- A brand of the list, and its place.
abbrev pub Brand : ℕ → List ℕ → Type 0
Brand offset b =
    (k : ℕ) × (offset + 4 * k + 4 ≤ box_end b) × (is_compatible (offset + 4 * k) b ≡ true)

module _ (b : List ℕ) where
  found : (fuel offset : ℕ) → has_compatible fuel offset b ≡ true → Brand offset b
  unfolding has_compatible
  found zero offset h = cc
  found (suc fuel) offset h = elim (Bool-cases (leb (offset + 4) (box_end b))) [
    | inr e ↦ absurd (let broken = rw e at h in cc)
    | inl e ↦ elim (Bool-cases (is_compatible offset b)) [
      | inl here ↦ let at : offset + 4 * 0 ≡ offset = omega arith in (0, ground arith, rw at here)
      | inr there ↦
          let (k, inside, brand) = found fuel (offset + 4) (rw (e, there) at h) in
          let at : offset + 4 * (k + 1) ≡ offset + 4 + 4 * k = omega arith in
          (k + 1, omega arith, rw at brand)
    ]
  ]

  reached :
      (fuel offset k : ℕ)
      → k < fuel
      → offset + 4 * k + 4 ≤ box_end b
      → is_compatible (offset + 4 * k) b ≡ true
      → has_compatible fuel offset b ≡ true
  unfolding has_compatible
  reached zero offset k more inside brand = absurd (omega arith)
  reached (suc fuel) offset zero more inside brand =
      let at : offset + 4 * 0 ≡ offset = omega arith in
      let here = rw at at brand in
      let room : leb (offset + 4) (box_end b) ≡ true = ground arith in rw (room, here) refl
  reached (suc fuel) offset (suc k) more inside brand =
      let at : offset + 4 * suc k ≡ offset + 4 + 4 * k = omega arith in
      let later = reached fuel (offset + 4) k (omega arith) (omega arith) (rw at at brand) in
      let room : leb (offset + 4) (box_end b) ≡ true = ground arith in
      rw (room, later) (ground arith)

  box_end-le : box_end b ≤ length b
  box_end-le = ground arith

  -- The test for AVIF, whose loop runs as often as the buffer has bytes at most, finds every brand there
  -- is: it accepts exactly the buffers of at least twelve bytes with an ftyp box of one of the two major
  -- brands, in which one of the brands from offset 16 on, in steps of four and wholly before the
  -- end of the box and of the buffer, is mif1 or miaf.
  pub is_avif_iff : (is_avif b ≡ true) ↔ (
      (12 ≤ length b)
      × (stands_at (codes "ftyp") 4 b ≡ true)
      × ((stands_at (codes "avif") 8 b || stands_at (codes "avis") 8 b) ≡ true)
      × Brand 16 b)
  unfolding is_avif
  is_avif_iff = (
    λ h. (
      leb→le 12 (length b) (ground arith),
      ground arith,
      ground arith,
      found (length b) 16 (ground arith),
    ),
    λ (size, box, major, (k, inside, brand)).
        let loop = reached (length b) 16 k (omega (arith, box_end-le)) inside brand in
        let long : leb 12 (length b) ≡ true = ground arith in rw (long, box, major, loop) refl,
  )
