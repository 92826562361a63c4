-- ===== src/Configuration/Typed.antt =====
-- A value that is read for a setting has the setting's type.
use twexthub.Shared.{
  ℕ, ◌≤◌, ◌≡◌, ◌⊎◌, refl, ap, sym, ◌∙◌, String, Bool, true, false, not, ◌||◌, Option, none, some,
  List, [], ◌∷◌, ◌==◌, nat_eq, string_eq, eq_of_==, any, arith, Bool-cases, inl, inr, All, ok,
  present-ok, >>=-eq-ok, ok-injective,
}
use twexthub.Util.Text.{trim}
use twexthub.Configuration.Settings.{
  SettingType, number_type, bytes_type, boolean_type, origins_type, url_type, Setting, Number,
  whole, below_zero, no_whole, Value, null, other, number, text, flag, texts,
}
use twexthub.Configuration.Coercion.{
  Parsers, coerce, coerce_kind, coerce_number, coerce_boolean, coerce_origins, coerce_url,
  url_value, serialized, serialized_as, origin_list, as_number, is_under, is_over, without_slash,
}

abbrev pub IsAtLeast : ℕ → Option ℕ → Type 0
IsAtLeast n none = Unit
IsAtLeast n (some min) = min ≤ n

abbrev pub IsAtMost : ℕ → Option ℕ → Type 0
IsAtMost n none = Unit
IsAtMost n (some max) = n ≤ max

module _ (p : Parsers) where
  -- The origin of some URL.
  abbrev pub IsOrigin : String → Type 0
  IsOrigin o = (input : String) × (p.origin_of input ≡ some o) × ((o == "null") ≡ false)

  -- A number within the bounds, a flag, a list of origins or `*`, or a URL of http or https.
  abbrev pub IsOfType : SettingType → Setting → Value → Type 0
  IsOfType number_type s v = (n : ℕ) × (v ≡ number (whole n)) × IsAtLeast n s.min × IsAtMost n s.max
  IsOfType bytes_type s v = (n : ℕ) × (v ≡ number (whole n)) × IsAtLeast n s.min × IsAtMost n s.max
  IsOfType boolean_type s v = (b : Bool) × (v ≡ flag b)
  IsOfType origins_type s v =
      (v ≡ text "*") ⊎ ((os : List String) × (v ≡ texts os) × All IsOrigin os)
  IsOfType url_type s v =
      (t : String) × (v ≡ text t)
      × ((p.protocol_of t ≡ some "http:") ⊎ (p.protocol_of t ≡ some "https:"))

  abbrev pub IsAllowed : Setting → Value → Type 0
  IsAllowed s v = IsOfType s.kind s v

  abbrev pub IsBounded : SettingType → Setting → Type 0
  IsBounded boolean_type s = Unit
  IsBounded origins_type s = Unit
  IsBounded url_type s = Unit
  IsBounded _ s = (n : ℕ) × (s.min ≡ some n)

  within_min : (n : ℕ) (o : Option ℕ) → is_under n o ≡ false → IsAtLeast n o
  within_min n none h = tt
  within_min n (some min) h = ground arith

  within_max : (n : ℕ) (o : Option ℕ) → is_over n o ≡ false → IsAtMost n o
  within_max n none h = tt
  within_max n (some max) h = ground arith

  number-allowed :
      (s : Setting) (x : Number) (v : Value)
      → IsBounded number_type s
      → coerce_number p s x ≡ ok v
      → (n : ℕ) × (v ≡ number (whole n)) × IsAtLeast n s.min × IsAtMost n s.max
  unfolding coerce_number
  number-allowed s no_whole v bounded h = cc
  number-allowed s below_zero v (n, e) h = absurd (let broken = rw e at h in cc)
  number-allowed s (whole n) v bounded h = elim (Bool-cases (is_under n s.min)) [
    | inl low ↦ absurd (let broken = rw low at h in cc)
    | inr in_min ↦ elim (Bool-cases (is_over n s.max)) [
      | inl high ↦ absurd (let broken = rw (in_min, high) at h in cc)
      | inr in_max ↦ (
        n,
        sym (ok-injective (rw (in_min, in_max) at h)),
        within_min n s.min in_min,
        within_max n s.max in_max,
      )
    ]
  ]

  boolean-allowed :
      (s : Setting) (x v : Value) → coerce_boolean p s x ≡ ok v → (b : Bool) × (v ≡ flag b)
  unfolding coerce_boolean
  boolean-allowed s null v h = cc
  boolean-allowed s other v h = cc
  boolean-allowed s (number n) v h = cc
  boolean-allowed s (texts l) v h = cc
  boolean-allowed s (flag b) v h = (b, sym (ok-injective h))
  boolean-allowed s (text t) v h = elim (Bool-cases (t == "true")) [
    | inl e ↦ (true, sym (ok-injective (rw e at h)))
    | inr e ↦ elim (Bool-cases (t == "false")) [
      | inl k ↦ (false, sym (ok-injective (rw (e, k) at h)))
      | inr k ↦ absurd (let broken = rw (e, k) at h in cc)
    ]
  ]

  url-allowed :
      (s : Setting) (x : String) (v : Value) (o : Option String)
      → p.protocol_of x ≡ o
      → url_value p s x o ≡ ok v
      → (t : String) × (v ≡ text t)
        × ((p.protocol_of t ≡ some "http:") ⊎ (p.protocol_of t ≡ some "https:"))
  url-allowed s x v none parsed h = cc
  url-allowed s x v (some protocol) parsed h = elim (Bool-cases (protocol == "http:")) [
    | inl k ↦
        (x, sym (ok-injective (rw k at h)), inl (parsed ∙ ap some (eq_of_== protocol "http:" k)))
    | inr k ↦ elim (Bool-cases (protocol == "https:")) [
      | inl k' ↦ (
        x,
        sym (ok-injective (rw (k, k') at h)),
        inr (parsed ∙ ap some (eq_of_== protocol "https:" k')),
      )
      | inr k' ↦ absurd (let broken = rw (k, k') at h in cc)
    ]
  ]

  serialized-IsOrigin :
      (input o : String) (parsed : Option String)
      → p.origin_of input ≡ parsed
      → serialized_as p input parsed ≡ some o
      → IsOrigin o
  serialized-IsOrigin input o none e h = cc
  serialized-IsOrigin input o (some origin) e h =
      elim (Bool-cases (origin == "null" || not (origin == without_slash input))) [
        | inl k ↦ absurd (let broken = rw k at h in cc)
        | inr k ↦
            let same : origin ≡ o = ground (arith, rw k at h) in
            rw (← same) (input, e, ground arith)
      ]

  origins-allowed :
      (s : Setting) (list os : List String) → coerce_origins p s list ≡ ok os → All IsOrigin os
  unfolding coerce_origins serialized
  origins-allowed s [] os h = rw (← ok-injective h) tt
  origins-allowed s (input ∷ rest) os h =
      let (parsed, is_origin, h1) = present-ok (serialized_as p input (p.origin_of input)) _ _ h in
      let (origins, others, h2) = >>=-eq-ok (coerce_origins p s rest) _ h1 in
      rw (← ok-injective h2) (
        serialized-IsOrigin input parsed (p.origin_of input) refl is_origin,
        origins-allowed s rest origins others,
      )

  kind-allowed :
      (kind : SettingType) (s : Setting) (value v : Value)
      → IsBounded kind s
      → coerce_kind p kind s value ≡ ok v
      → IsOfType kind s v
  unfolding coerce_kind coerce_url
  kind-allowed number_type s value v bounded h = number-allowed s (as_number p value) v bounded h
  kind-allowed bytes_type s value v bounded h = number-allowed s (as_number p value) v bounded h
  kind-allowed boolean_type s value v bounded h = boolean-allowed s value v h
  kind-allowed url_type s value v bounded h =
      url-allowed s (trim (p.text_of value)) v (p.protocol_of (trim (p.text_of value))) refl h
  kind-allowed origins_type s value v bounded h =
      elim (Bool-cases (any (λ t. t == "*") (origin_list p value))) [
        | inl e ↦ inl (sym (ok-injective (rw e at h)))
        | inr e ↦
            let (os, listed, h1) =
              >>=-eq-ok (coerce_origins p s (origin_list p value)) _ (rw e at h) in
            inr (os, sym (ok-injective h1), origins-allowed s (origin_list p value) os listed)
      ]

  pub coerce-IsAllowed :
      (s : Setting) (value v : Value) → IsBounded s.kind s → coerce p s value ≡ ok v → IsAllowed s v
  unfolding coerce
  coerce-IsAllowed s null v bounded h = cc
  coerce-IsAllowed s other v bounded h = kind-allowed s.kind s other v bounded h
  coerce-IsAllowed s (number n) v bounded h = kind-allowed s.kind s (number n) v bounded h
  coerce-IsAllowed s (text t) v bounded h = kind-allowed s.kind s (text t) v bounded h
  coerce-IsAllowed s (flag b) v bounded h = kind-allowed s.kind s (flag b) v bounded h
  coerce-IsAllowed s (texts l) v bounded h = kind-allowed s.kind s (texts l) v bounded h
