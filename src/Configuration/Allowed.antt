-- ===== src/Configuration/Allowed.antt =====
-- What a change of the configuration may write.
use twexthub.Shared.{
  ◌≡◌, ◌⊎◌, refl, ap, sym, ◌∙◌, String, Bool, Option, none, some, List, [], ◌∷◌, ◌==◌, nat_eq,
  string_eq, eq_of_==, Bool-cases, inl, inr, All, All-Memᴰ, ok, err, require-ok, >>=-eq-ok,
  ok-injective, Result,
}
use mathlib.Core.List.{Memᴰ}
use twexthub.Http.Errors.{FieldError}
use twexthub.Db.{Db}
use twexthub.Access.Credentials.{Auth}
use twexthub.Access.Guards.{assert_admin}
use twexthub.Transfer.Offers.{is_empty}
use twexthub.Configuration.Settings.{
  Setting, editable_settings, Value, Config, Values, value_at, write_at,
}
use twexthub.Configuration.Coercion.{Parsers, coerce}
use twexthub.Configuration.Files.{Platform, config_storage}
use twexthub.Configuration.{
  Change, with_setting, with_value, if_persistent, scan, applied, Applied, apply_server_config,
  put_config, unknown_errors, is_same,
}
use twexthub.Configuration.Typed.{IsAllowed, IsBounded, coerce-IsAllowed}

module _ (p : Parsers) where
  -- A change of a known setting to an allowed value that the request asked for.
  abbrev pub IsAsked : List Setting → Values → Change → Type 0
  IsAsked known patch c =
      Memᴰ c.setting known
      × IsAllowed p c.setting c.after
      × ((raw : Value) × (value_at patch c.setting.key ≡ some raw)
          × (coerce p c.setting raw ≡ ok c.after))

  module _ (known : List Setting) (config : Config) (patch : Values) where
    valued-IsAsked :
        (s : Setting) (raw : Value) (r : Result (List FieldError) Value)
        (found : List Change × List FieldError)
        → Memᴰ s known
        → IsBounded p s.kind s
        → value_at patch s.key ≡ some raw
        → coerce p s raw ≡ r
        → All (IsAsked known patch) found.0
        → All (IsAsked known patch) (with_value p config s r found).0
    valued-IsAsked s raw (err es) (changes, errors) m bounded asked e rest = rest
    valued-IsAsked s raw (ok after) (changes, errors) m bounded asked e rest =
        elim (Bool-cases (is_same (config s.key) after)) [
          | inl same ↦ rw same rest
          | inr new ↦ rw new ((m, coerce-IsAllowed p s raw after bounded e, (raw, asked, e)), rest)
        ]

    named-IsAsked :
        (s : Setting) (o : Option Value) (found : List Change × List FieldError)
        → Memᴰ s known
        → IsBounded p s.kind s
        → value_at patch s.key ≡ o
        → All (IsAsked known patch) found.0
        → All (IsAsked known patch) (with_setting p config s o found).0
    named-IsAsked s none found m bounded asked rest = rest
    named-IsAsked s (some raw) found m bounded asked rest =
        valued-IsAsked s raw (coerce p s raw) found m bounded asked refl rest

    scan-IsAsked :
        (settings : List Setting)
        → ((s : Setting) → Memᴰ s settings → Memᴰ s known)
        → All (λ s. IsBounded p s.kind s) settings
        → All (IsAsked known patch) (scan p config patch settings).0
    unfolding scan
    scan-IsAsked [] there bounded = tt
    scan-IsAsked (s ∷ ss) there bounded =
        named-IsAsked s (value_at patch s.key) (scan p config patch ss) (there s (Memᴰ.head refl))
          bounded.0 refl (scan-IsAsked ss (λ t m. there t (Memᴰ.tail m)) bounded.1)

-- The last change of a key is the one that is seen.
applied-cases :
    (changes : List Change) (config : Config) (key : String)
    → (applied changes config key ≡ config key)
      ⊎ ((c : Change) × Memᴰ c changes
          × (c.setting.key ≡ key)
          × (applied changes config key ≡ some c.after))
applied-cases [] config key = inl refl
applied-cases (c ∷ cs) config key =
    elim (applied-cases cs (write_at c.setting.key c.after config) key) [
      | inr (d, m, at, e) ↦ inr (d, Memᴰ.tail m, at, e)
      | inl e ↦ elim (Bool-cases (c.setting.key == key)) [
        | inr k ↦ inl (e ∙ rw k refl)
        | inl k ↦ inr (c, Memᴰ.head refl, eq_of_== c.setting.key key k, e ∙ rw k refl)
      ]
    ]

editable_settings-IsBounded : (p : Parsers) → All (λ s. IsBounded p s.kind s) editable_settings
editable_settings-IsBounded p = (
  tt,
  (
    (_, refl),
    (
      (_, refl),
      (
        (_, refl),
        (
          (_, refl),
          (
            (_, refl),
            ((_, refl), ((_, refl), ((_, refl), ((_, refl), ((_, refl), (tt, (tt, tt))))))),
          ),
        ),
      ),
    ),
  ),
)

-- An admin changes editable settings alone, to allowed values alone: after a request to change the
-- configuration that is answered, every key has the value that it had, or it is the key of an editable
-- setting, the request names a value for it, and its new value is what that value is read as, a
-- whole number within the bounds of the setting, a flag, `*` or a list of origins, or the text of
-- an http or https URL, whichever type the setting has.
pub put_config-IsAllowed :
    (p : Parsers) (platform : Platform) (caller : Option Auth) (is_object : Bool) (patch : Values)
    (config : Config) (db db' : Db) (result : Applied) (key : String)
    → put_config p platform caller is_object (some patch) config db ≡ ok (result, db')
    → (result.config key ≡ config key)
      ⊎ ((c : Change) × (c.setting.key ≡ key)
          × (result.config key ≡ some c.after)
          × IsAsked p editable_settings patch c)
unfolding put_config apply_server_config
put_config-IsAllowed p platform caller is_object patch config db db' result key r =
    let (admin, _, r1) = >>=-eq-ok (assert_admin caller) _ r in
    let (_, r2) = require-ok is_object _ _ r1 in
    let (_, r3) = require-ok (is_empty (unknown_errors patch)) _ _ r2 in
    let (done, written, r4) = >>=-eq-ok (apply_server_config p platform config patch) _ r3 in
    let same = ap (λ (q : Applied × Db). q.0) (ok-injective r4) in
    let changes = (scan p config patch editable_settings).0 in
    let asked =
      scan-IsAsked p editable_settings config patch editable_settings (λ s m. m)
        (editable_settings-IsBounded p) in
    let (_, _, w) = >>=-eq-ok (if_persistent (config_storage platform)) _ written in
    let (_, w1) = require-ok (is_empty (scan p config patch editable_settings).1) _ _ w in
    let live : applied changes config ≡ result.config =
      ap (λ (a : Applied). a.config) (ok-injective w1 ∙ same) in
    elim (applied-cases changes config key) [
      | inl kept ↦ inl (ap (λ (f : Config). f key) (sym live) ∙ kept)
      | inr (c, m, at, now) ↦
          inr (c, at, ap (λ (f : Config). f key) (sym live) ∙ now, All-Memᴰ _ changes c m asked)
    ]
