-- ===== src/Shared/Rows.antt =====
-- Tables as lists of rows, with the statements that the program sends: a selection is `keep`, its
-- first row `find`, and `DELETE`, `UPDATE` and `INSERT ... ON CONFLICT DO NOTHING` are below.
use twexthub.Shared.{
  ◌≡◌, refl, ap, Bool, false, not, ◌||◌, List, [], ◌∷◌, ◌++◌, arith, if◌then◌else◌, any, keep,
  length, All, Bool-cases, inl, inr, true,
}

module _ {ℓ} {A : Type ℓ} where
  -- DELETE FROM t WHERE p
  abbrev pub delete : (A → Bool) → List A → List A
  delete p xs = keep (λ x. not (p x)) xs

  -- UPDATE t SET f WHERE p
  abbrev pub update : (A → Bool) → (A → A) → List A → List A
  update p f [] = []
  update p f (x ∷ xs) = (if p x then f x else x) ∷ update p f xs

  -- INSERT INTO t VALUES r ON CONFLICT (the key that `same` compares) DO NOTHING
  abbrev pub insert_new : (A → Bool) → A → List A → List A
  insert_new same r xs = if any same xs then xs else xs ++ r ∷ []

  -- INSERT ... ON CONFLICT DO UPDATE SET f
  abbrev pub upsert : (A → Bool) → (A → A) → A → List A → List A
  upsert same f r xs = if any same xs then update same f xs else xs ++ r ∷ []

  pub length-update : (p : A → Bool) (f : A → A) (xs : List A) → length (update p f xs) ≡ length xs
  length-update p f [] = refl
  length-update p f (x ∷ xs) = omega (arith, length-update p f xs)

  pub any-append : (p : A → Bool) (xs ys : List A) → any p (xs ++ ys) ≡ (any p xs || any p ys)
  any-append p [] ys = refl
  any-append p (x ∷ xs) ys = ground (arith, any-append p xs ys)

  -- No row that a DELETE named is left.
  pub any-delete_self : (p : A → Bool) (xs : List A) → any p (delete p xs) ≡ false
  any-delete_self p [] = refl
  any-delete_self p (x ∷ xs) = ground (arith, any-delete_self p xs)

  -- An UPDATE whose rows stay where its test finds them does not touch the others.
  pub delete-update :
      (p : A → Bool) (f : A → A) (xs : List A)
      → ((x : A) → p (f x) ≡ p x)
      → delete p (update p f xs) ≡ delete p xs
  delete-update p f [] h = refl
  delete-update p f (x ∷ xs) h = elim (Bool-cases (p x)) [
    | inl e ↦ rw (e, h x, e) (delete-update p f xs h)
    | inr e ↦ rw (e, e) (ap (λ r. x ∷ r) (delete-update p f xs h))
  ]

  pub keep-eq-nil : (p : A → Bool) (xs : List A) → any p xs ≡ false → keep p xs ≡ []
  keep-eq-nil p [] h = refl
  keep-eq-nil p (x ∷ xs) h = ground (arith, keep-eq-nil p xs)

  -- A DELETE brings no row back.
  pub any-delete : (q p : A → Bool) (xs : List A) → any q xs ≡ false → any q (delete p xs) ≡ false
  any-delete q p [] h = refl
  any-delete q p (x ∷ xs) h = ground (arith, any-delete q p xs)

module _ {ℓ κ} {A : Type ℓ} (P : A → Type κ) where
  -- An UPDATE keeps what it keeps of each row that it names.
  pub All-update :
      (p : A → Bool) (f : A → A) (xs : List A)
      → ((x : A) → P x → p x ≡ true → P (f x))
      → All P xs
      → All P (update p f xs)
  All-update p f [] keeps h = tt
  All-update p f (x ∷ xs) keeps h = elim (Bool-cases (p x)) [
    | inl e ↦ rw e (keeps x h.0 e, All-update p f xs keeps h.1)
    | inr e ↦ rw e (h.0, All-update p f xs keeps h.1)
  ]
