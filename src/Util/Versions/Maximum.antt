-- ===== src/Util/Versions/Maximum.antt =====
-- The version that `maxVersionBySemver` picks is a greatest one.
use twexthub.Shared.{
  String, ◌≡◌, refl, true, false, Option, none, some, List, [], ◌∷◌, arith, Bool-cases, inl, inr,
  All, any, ◌==◌, string_eq, ==_refl, ◌⊎◌, ◌&&◌,
}
use twexthub.Util.Versions.{Semver, is_valid, step_max, max_from, max_version_by_semver}

-- No version that is greater than the accumulator.
abbrev pub Beaten : Semver → String → Option String → Type 0
Beaten sv w none = ⊥
Beaten sv w (some m) = sv.gt w m ≡ false

module _ (sv : Semver) where
  step_max-Beaten :
      (w v : String) (max : Option String) → Beaten sv w max → Beaten sv w (step_max sv max v)
  unfolding step_max
  step_max-Beaten w v (some m) h = ground (arith, sv.gt_trans w v m)
  step_max-Beaten w v none h = absurd h

  step_max-Beaten_self :
      (v : String) (max : Option String) → is_valid sv v ≡ true → Beaten sv v (step_max sv max v)
  unfolding step_max
  step_max-Beaten_self v (some m) h = ground (arith, sv.gt_irrefl v)
  step_max-Beaten_self v none h = ground (arith, sv.gt_irrefl v)

  max_from-Beaten :
      (w : String) (vs : List String) (max : Option String)
      → Beaten sv w max
      → Beaten sv w (max_from sv max vs)
  unfolding max_from
  max_from-Beaten w [] max h = h
  max_from-Beaten w (v ∷ vs) max h =
      max_from-Beaten w vs (step_max sv max v) (step_max-Beaten w v max h)

  max_from-Beaten-All :
      (vs : List String) (max : Option String)
      → All (λ v. is_valid sv v ≡ true → Beaten sv v (max_from sv max vs)) vs
  unfolding max_from
  max_from-Beaten-All [] max = tt
  max_from-Beaten-All (v ∷ vs) max = (
    λ h. max_from-Beaten v vs (step_max sv max v) (step_max-Beaten_self v max h),
    max_from-Beaten-All vs (step_max sv max v),
  )

  step_max_cases :
      (max : Option String) (v : String)
      → (step_max sv max v ≡ max) ⊎ ((is_valid sv v ≡ true) × (step_max sv max v ≡ some v))
  unfolding step_max
  step_max_cases none v = ground arith
  step_max_cases (some m) v = ground arith

  max_from-Listed :
      (vs : List String) (max : Option String) (m : String)
      → max_from sv max vs ≡ some m
      → (max ≡ some m) ⊎ ((is_valid sv m ≡ true) × (any (λ v. v == m) vs ≡ true))
  unfolding max_from
  max_from-Listed [] max m h = inl h
  max_from-Listed (v ∷ vs) max m h = ground (
    arith,
    max_from-Listed vs (step_max sv max v) m h,
    step_max_cases max v,
    ==_refl m,
    string_eq.beq_iff v m,
  )

  -- Where the scan answers a version, it is valid and listed, and no valid version of the list is
  -- greater.
  pub max_version_by_semver-greatest :
      (vs : List String) (m : String)
      → max_version_by_semver sv vs ≡ some m
      → (is_valid sv m ≡ true)
        × (any (λ v. v == m) vs ≡ true)
        × All (λ v. is_valid sv v ≡ true → sv.gt v m ≡ false) vs
  unfolding max_version_by_semver
  max_version_by_semver-greatest vs m h =
      let listed : (is_valid sv m ≡ true) × (any (λ v. v == m) vs ≡ true) =
        ground (arith, max_from-Listed vs none m h) in
      (listed.0, listed.1, rw h at (max_from-Beaten-All vs none))

  max_from-some :
      (vs : List String) (m : String) → (n : String) × (max_from sv (some m) vs ≡ some n)
  unfolding max_from step_max
  max_from-some [] m = (m, refl)
  max_from-some (v ∷ vs) m = elim (Bool-cases (is_valid sv v && sv.gt v m)) [
    | inl e ↦ let (n, p) = max_from-some vs v in (n, ground arith)
    | inr e ↦ let (n, p) = max_from-some vs m in (n, ground arith)
  ]

  -- The scan answers null only where no version of the list is valid.
  pub max_version_by_semver-none :
      (vs : List String) → max_version_by_semver sv vs ≡ none → All (λ v. is_valid sv v ≡ false) vs
  unfolding max_version_by_semver max_from step_max
  max_version_by_semver-none [] h = tt
  max_version_by_semver-none (v ∷ vs) h = elim (Bool-cases (is_valid sv v)) [
    | inl e ↦ let (n, p) = max_from-some vs v in ground arith
    | inr e ↦ (e, max_version_by_semver-none vs (ground arith))
  ]
