-- ===== src/Packages/Tags/Lookup.antt =====
-- What a lookup of a dist-tag finds after it was set or removed.
use twexthub.Shared.{
  ℕ, String, ◌≡◌, refl, Bool, true, false, not, ◌||◌, Option, none, some, List, [], ◌∷◌, ◌++◌, ◌==◌,
  string_eq, ==_refl, eq_of_==, arith, Bool-cases, inl, inr, any, find, ok, require-ok, refuse-ok,
  present-ok, >>=-eq-ok, ok-injective,
}
use twexthub.Shared.Rows.{update, upsert, delete, any-delete_self}
use twexthub.Util.Versions.{Semver}
use twexthub.Db.{Db, Address, Row, Tag}
use twexthub.Notify.{audit}
use twexthub.Access.Credentials.{Auth}
use twexthub.Packages.Requests.{Field, Effect, scope_chain, valid_address, is_extension_owner}
use twexthub.Util.Regex.{test}
use twexthub.Packages.Resolve.{find_tag, tag_pattern}
use twexthub.Packages.Tags.{is_tag, tag_row, retag, normalized, is_released, set_tag, remove_tag}

module _ {ℓ} {A : Type ℓ} (q : A → Bool) where
  find-none : (xs : List A) → any q xs ≡ false → find q xs ≡ none
  find-none [] h = refl
  find-none (x ∷ xs) h = ground (arith, find-none xs)

  find-append_hit :
      (r : A) (xs : List A) → q r ≡ true → any q xs ≡ false → find q (xs ++ r ∷ []) ≡ some r
  find-append_hit r [] hit h = rw hit refl
  find-append_hit r (x ∷ xs) hit h = ground (arith, find-append_hit r xs)

  find-append_miss : (r : A) (xs : List A) → q r ≡ false → find q (xs ++ r ∷ []) ≡ find q xs
  find-append_miss r [] miss = rw miss refl
  find-append_miss r (x ∷ xs) miss = ground (arith, find-append_miss r xs)

  find-update_miss :
      (p : A → Bool) (f : A → A) (xs : List A)
      → ((x : A) → p x ≡ true → (q x ≡ false) × (q (f x) ≡ false))
      → find q (update p f xs) ≡ find q xs
  find-update_miss p f [] apart = refl
  find-update_miss p f (x ∷ xs) apart = elim (Bool-cases (p x)) [
    | inl e ↦ rw (e, (apart x e).0, (apart x e).1) (find-update_miss p f xs apart)
    | inr e ↦ rw (e, find-update_miss p f xs apart) refl
  ]

  find-delete_miss :
      (p : A → Bool) (xs : List A)
      → ((x : A) → p x ≡ true → q x ≡ false)
      → find q (delete p xs) ≡ find q xs
  find-delete_miss p [] apart = refl
  find-delete_miss p (x ∷ xs) apart = elim (Bool-cases (p x)) [
    | inl e ↦ rw (e, apart x e) (find-delete_miss p xs apart)
    | inr e ↦ rw (e, find-delete_miss p xs apart) refl
  ]

module _ {ℓ κ} {A : Type ℓ} (P : A → Type κ) (q : A → Bool) where
  -- The row that is found after an UPDATE of the rows that `q` names is an updated one.
  find-update_hit :
      (f : A → A) (xs : List A)
      → ((x : A) → q x ≡ true → (q (f x) ≡ true) × P (f x))
      → any q xs ≡ true
      → (y : A) × (find q (update q f xs) ≡ some y) × P y
  find-update_hit f [] keeps h = cc
  find-update_hit f (x ∷ xs) keeps h = elim (Bool-cases (q x)) [
    | inl e ↦ rw (e, (keeps x e).0) (f x, refl, (keeps x e).1)
    | inr e ↦ rw (e, e) (find-update_hit f xs keeps (ground arith))
  ]

  find-upsert_hit :
      (f : A → A) (r : A) (xs : List A)
      → (q r ≡ true) × P r
      → ((x : A) → q x ≡ true → (q (f x) ≡ true) × P (f x))
      → (y : A) × (find q (upsert q f r xs) ≡ some y) × P y
  find-upsert_hit f r xs fresh keeps = elim (Bool-cases (any q xs)) [
    | inl e ↦ rw e (find-update_hit f xs keeps e)
    | inr e ↦ rw e (r, find-append_hit q r xs fresh.0 e, fresh.1)
  ]

find-upsert_miss :
    {A : Type 0} (q p : A → Bool) (f : A → A) (r : A) (xs : List A)
    → q r ≡ false
    → ((x : A) → p x ≡ true → (q x ≡ false) × (q (f x) ≡ false))
    → find q (upsert p f r xs) ≡ find q xs
find-upsert_miss q p f r xs fresh apart = elim (Bool-cases (any p xs)) [
  | inl e ↦ rw e (find-update_miss q p f xs apart)
  | inr e ↦ rw e (find-append_miss q r xs fresh)
]

is_tag_other :
    (a b : Address) (t tag : String) (r : Row Tag)
    → (tag == t) ≡ false
    → is_tag a tag r ≡ true
    → is_tag b t r ≡ false
is_tag_other a b t tag r other same =
    let named : r.cols.tag ≡ tag = eq_of_== r.cols.tag tag (ground arith) in
    let apart : (r.cols.tag == t) ≡ false = rw named other in ground arith

is_tag_self :
    (auth : Auth) (a : Address) (tag v : String) → is_tag a tag (tag_row auth a tag v) ≡ true
is_tag_self auth a tag v = ground (arith, ==_refl a.namespace, ==_refl a.id, ==_refl tag)

module _ (sv : Semver) (terms : Option ℕ) (caller : Option Auth) (is_object : Bool) (a : Address)
    (tag : String) (version : Field) (db : Db) (e : Effect) where
  -- A dist-tag that was set names a published version of the extension, in the spelling of the package
  -- semver, and the next lookup of it finds that version, whether the tag was new or was moved. A
  -- lookup of any other tag, of any extension, finds what it found before.
  pub set_tag-find_tag :
      set_tag sv terms caller is_object a tag version db ≡ ok e
      → (v : String) × (normalized sv version ≡ some v)
        × (is_released db a v ≡ true)
        × ((r : Row Tag) × (find_tag e.db a tag ≡ some r) × (r.cols.version ≡ v))
        × ((b : Address) (t : String) → (tag == t) ≡ false → find_tag e.db b t ≡ find_tag db b t)
  unfolding set_tag find_tag audit
  set_tag-find_tag h =
      let (auth, _, r1) = >>=-eq-ok (scope_chain "publish" terms caller) _ h in
      let (_, _, r2) = >>=-eq-ok (valid_address a) _ r1 in
      let (_, r3) = refuse-ok (tag == "latest" || not (test tag_pattern tag)) _ _ r2 in
      let (_, r4) = require-ok (is_extension_owner db auth.user a) _ _ r3 in
      let (_, r5) = require-ok is_object _ _ r4 in
      let (v, valid, r6) = present-ok (normalized sv version) _ _ r5 in
      let (released, r7) = require-ok (is_released db a v) _ _ r6 in
      rw (← ok-injective r7) (
        v,
        valid,
        released,
        find-upsert_hit (λ r. r.cols.version ≡ v) (is_tag a tag) (retag auth v)
            (tag_row auth a tag v) db.dist_tags (is_tag_self auth a tag v, refl)
            (λ r same. (same, refl)),
        λ b t other.
            find-upsert_miss (is_tag b t) (is_tag a tag) (retag auth v) (tag_row auth a tag v)
              db.dist_tags
              (is_tag_other a b t tag (tag_row auth a tag v) other (is_tag_self auth a tag v))
              (λ r same. let apart = is_tag_other a b t tag r other same in (apart, apart)),
      )

module _ (terms : Option ℕ) (caller : Option Auth) (a : Address) (tag : String) (db : Db)
    (e : Effect) where
  -- A dist-tag that was removed was there, and is not found afterwards. A lookup of any other tag, of any
  -- extension, finds what it found before.
  pub remove_tag-find_tag :
      remove_tag terms caller a tag db ≡ ok e
      → (any (is_tag a tag) db.dist_tags ≡ true)
        × (find_tag e.db a tag ≡ none)
        × ((b : Address) (t : String) → (tag == t) ≡ false → find_tag e.db b t ≡ find_tag db b t)
  unfolding remove_tag find_tag audit
  remove_tag-find_tag h =
      let (auth, _, r1) = >>=-eq-ok (scope_chain "publish" terms caller) _ h in
      let (_, _, r2) = >>=-eq-ok (valid_address a) _ r1 in
      let (_, r3) = refuse-ok (tag == "latest") _ _ r2 in
      let (_, r4) = require-ok (is_extension_owner db auth.user a) _ _ r3 in
      let (listed, r5) = require-ok (any (is_tag a tag) db.dist_tags) _ _ r4 in
      rw (← ok-injective r5) (
        listed,
        find-none (is_tag a tag) _ (any-delete_self (is_tag a tag) db.dist_tags),
        λ b t other.
            find-delete_miss (is_tag b t) (is_tag a tag) db.dist_tags
              (λ r same. is_tag_other a b t tag r other same),
      )
