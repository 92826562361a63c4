-- ===== src/Shared/Results.antt =====
-- A handler that may throw: `ok` with its value, or the error that it threw.
use mathlib.Core.Path.{◌≡◌, refl, ap}
use mathlib.Core.Bool.{Bool, true, false}
use mathlib.Core.Option.{Option, none, some}
use mathlib.Core.Logic.{◌⊎◌, inl, inr}

pub data Result {ℓ κ} (E : Type ℓ) (A : Type κ) : Type (ℓ ⊔ κ) where
  ok : A → Result E A
  err : E → Result E A

module _ {ℓ} {E : Type ℓ} where
  infixl 5 ◌>>=◌
  abbrev pub ◌>>=◌ {κ ι} : {X : Type κ} {Y : Type ι} → Result E X → (X → Result E Y) → Result E Y
  err thrown >>= next = err thrown
  ok value >>= next = next value

  -- if (!test) throw e;
  abbrev pub require : Bool → E → Result E (Unit {0})
  require true e = ok tt
  require false e = err e

  -- if (test) throw e;
  abbrev pub refuse : Bool → E → Result E (Unit {0})
  refuse true e = err e
  refuse false e = ok tt

  -- if (!row) throw e;
  abbrev pub present {κ} : {A : Type κ} → Option A → E → Result E A
  present none e = err e
  present (some a) e = ok a

  -- A step that answers nothing, before another.
  infixl 5 ◌>>◌
  abbrev pub ◌>>◌ {κ} : {Y : Type κ} → Result E (Unit {0}) → Result E Y → Result E Y
  step >> rest = step >>= λ _. rest

-- The inversion of a chain that returned.
module _ {ℓ κ ι} {E : Type ℓ} {X : Type κ} {Y : Type ι} where
  pub >>=-eq-ok :
      (first : Result E X) (next : X → Result E Y) {end : Y}
      → (first >>= next) ≡ ok end
      → (x : X) × (first ≡ ok x) × (next x ≡ ok end)
  >>=-eq-ok (err thrown) next h = cc
  >>=-eq-ok (ok x) next h = (x, refl, h)

-- The inversion of each kind of step, in a chain that returned.
module _ {ℓ κ} {E : Type ℓ} {A : Type κ} where
  pub require-ok :
      (b : Bool) (e : E) (k : Result E A) {x : A}
      → (require b e >> k) ≡ ok x
      → (b ≡ true) × (k ≡ ok x)
  require-ok true e k h = (refl, h)
  require-ok false e k h = cc

  pub refuse-ok :
      (b : Bool) (e : E) (k : Result E A) {x : A}
      → (refuse b e >> k) ≡ ok x
      → (b ≡ false) × (k ≡ ok x)
  refuse-ok false e k h = (refl, h)
  refuse-ok true e k h = cc

module _ {ℓ κ ι} {E : Type ℓ} {A : Type κ} {B : Type ι} where
  pub present-ok :
      (o : Option A) (e : E) (k : A → Result E B) {x : B}
      → (present o e >>= k) ≡ ok x
      → (a : A) × (o ≡ some a) × (k a ≡ ok x)
  present-ok none e k h = cc
  present-ok (some a) e k h = (a, refl, h)

module _ {ℓ} {E : Type ℓ} where
  pub refuse-last : (b : Bool) (e : E) {t : Unit {0}} → refuse b e ≡ ok t → b ≡ false
  refuse-last false e h = refl
  refuse-last true e h = cc

  pub require-last : (b : Bool) (e : E) {t : Unit {0}} → require b e ≡ ok t → b ≡ true
  require-last true e h = refl
  require-last false e h = cc

abbrev pub value_or {ℓ κ} : {E : Type ℓ} {A : Type κ} → A → Result E A → A
value_or d (ok a) = a
value_or d (err e) = d

pub ok-injective {ℓ κ} :
    {E : Type ℓ} {A : Type κ} {a b : A} → ◌≡◌ {A = Result E A} (ok a) (ok b) → a ≡ b
ok-injective {a} h = ap (value_or a) h

pub present-last {ℓ κ} :
    {E : Type ℓ} {A : Type κ} (o : Option A) (e : E) {a : A} → present o e ≡ ok a → o ≡ some a
present-last none e h = cc
present-last (some a) e h = ap some (ok-injective h)

pub Result-cases {ℓ κ} :
    {E : Type ℓ} {A : Type κ} (r : Result E A) → ((e : E) × (r ≡ err e)) ⊎ ((a : A) × (r ≡ ok a))
Result-cases (err e) = inl (e, refl)
Result-cases (ok a) = inr (a, refl)
