-- ===== src/Shared/Filters.antt =====
-- Laws of `keep`.
use twexthub.Shared.{
  ◌≡◌, refl, ap, Bool, true, false, not, ◌&&◌, List, [], ◌∷◌, any, keep, arith, Bool-cases, inl,
  inr, All,
}

module _ {ℓ} {A : Type ℓ} where
  pub keep_cong : (p q : A → Bool) (xs : List A) → All (λ x. p x ≡ q x) xs → keep p xs ≡ keep q xs
  keep_cong p q [] h = refl
  keep_cong p q (x ∷ xs) h = elim (Bool-cases (q x)) [
    | inl e ↦ rw (h.0, e) (ap (λ r. x ∷ r) (keep_cong p q xs h.1))
    | inr e ↦ rw (h.0, e) (keep_cong p q xs h.1)
  ]

  pub keep-All : (p : A → Bool) (xs : List A) → All (λ x. p x ≡ true) xs → keep p xs ≡ xs
  keep-All p [] h = refl
  keep-All p (x ∷ xs) h = rw h.0 (ap (λ r. x ∷ r) (keep-All p xs h.1))

  pub keep-keep : (p q : A → Bool) (xs : List A) → keep q (keep p xs) ≡ keep (λ x. p x && q x) xs
  keep-keep p q [] = refl
  keep-keep p q (x ∷ xs) = elim (Bool-cases (p x)) [
    | inr e ↦ rw e (keep-keep p q xs)
    | inl e ↦ elim (Bool-cases (q x)) [
      | inl k ↦ rw (e, k) (ap (λ r. x ∷ r) (keep-keep p q xs))
      | inr k ↦ rw (e, k) (keep-keep p q xs)
    ]
  ]

  pub none_hit :
      (p : A → Bool) (q : A → Bool) (xs : List A)
      → any p xs ≡ false
      → All (λ x. not (p x && q x) ≡ true) xs
  none_hit p q [] h = tt
  none_hit p q (x ∷ xs) h = (
    elim (Bool-cases (p x)) [ inl e ↦ absurd (ground arith) | inr e ↦ rw e refl ],
    none_hit p q xs (ground arith),
  )

pub everywhere {ℓ} : {A : Type ℓ} (P : A → Type 0) (xs : List A) → ((x : A) → P x) → All P xs
everywhere P [] h = tt
everywhere P (x ∷ xs) h = (h x, everywhere P xs h)
