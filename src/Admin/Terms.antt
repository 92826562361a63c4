-- ===== src/Admin/Terms.antt =====
-- Publishing terms, and the gate behind it.
use twexthub.Shared.{
  false, sym, List, [], ◌∷◌, ◌++◌, keep, map, if◌then◌else◌, ℕ, suc, ◌≤◌, ◌≡◌, refl, ap, String,
  Bool, true, Option, none, some, ◌==◌, nat_eq, string_eq, ltb, arith, Bool-cases, inl, inr, All,
  All-imp, All-Memᴰ, ok, err, refuse-ok, require-ok, >>=-eq-ok, ok-injective,
}
use mathlib.Core.List.{Memᴰ, append-nil}
use twexthub.Http.Errors.{forbidden}
use twexthub.Db.{Db, User, Notification}
use twexthub.Notify.{notify_users_matching, note_for}
use twexthub.Access.Credentials.{Auth}
use twexthub.Access.Terms.{TermsCache, require_terms, invalidate, gate_with, outdated}
use twexthub.Access.Proofs.Gate.{IsCurrent, refresh-eq-published}
use twexthub.Packages.Requests.{Field}
use twexthub.Accounts.Signing.{field_text}
use twexthub.Admin.{
  Document, Site, version_of, admin_chain, next_document, after_terms, patch_terms,
}

abbrev pub or_nothing : Option ℕ → ℕ
or_nothing none = 0
or_nothing (some n) = n

-- No account is ahead of the published terms.
abbrev pub IsKnown : Site → Type 0
IsKnown s =
    All (λ (u : User). or_nothing u.terms_accepted_version ≤ or_nothing (version_of s.terms))
      s.db.users

after_terms-users :
    (print : ℕ → String) (v : ℕ) (db : Db) → (after_terms print v db).users ≡ db.users
unfolding after_terms notify_users_matching
after_terms-users print v db = elim (Bool-cases (ltb 1 v)) [ inl e ↦ rw e refl | inr e ↦ rw e refl ]

-- An account that accepted some version of the terms.
abbrev pub has_accepted : User → Bool
has_accepted u = elim u.terms_accepted_version [ none ↦ false | some v ↦ true ]

module _ (kind : String) (f : User → Notification) (same_id : (u : User) → (f u).user_id ≡ u.id)
    (same_kind : (u : User) → (f u).kind ≡ kind) where
  ids_of_notes :
      (us : List User)
      → map (λ (n : Notification). n.user_id) (map f us) ≡ map (λ (u : User). u.id) us
  ids_of_notes [] = refl
  ids_of_notes (u ∷ us) = rw (same_id u) (ap (λ l. u.id ∷ l) (ids_of_notes us))

  kinds_of_notes : (us : List User) → All (λ (n : Notification). n.kind ≡ kind) (map f us)
  kinds_of_notes [] = tt
  kinds_of_notes (u ∷ us) = (same_kind u, kinds_of_notes us)

-- The notifications that are new say that the terms changed, and go to these accounts, one to each.
pub record Told (recipients : List User) (db db' : Db) : Type 0 where
  pub fresh : List Notification
  pub added : db'.notifications ≡ db.notifications ++ fresh
  pub recipients_of :
      map (λ (n : Notification). n.user_id) fresh ≡ map (λ (u : User). u.id) recipients
  pub kinds : All (λ (n : Notification). n.kind ≡ "terms.bumped") fresh

after_terms-Told :
    (print : ℕ → String) (v : ℕ) (db : Db)
    → Told (if ltb 1 v then keep has_accepted db.users else []) db (after_terms print v db)
unfolding after_terms notify_users_matching
after_terms-Told print v db = elim (Bool-cases (ltb 1 v)) [
  | inl e ↦ rw e (record {
    fresh = map (λ u. note_for "terms.bumped" _ _ u.id) (keep has_accepted db.users);
    added = refl;
    recipients_of =
        ids_of_notes "terms.bumped" _ (λ u. refl) (λ u. refl) (keep has_accepted db.users);
    kinds = kinds_of_notes "terms.bumped" _ (λ u. refl) (λ u. refl) (keep has_accepted db.users);
  })
  | inr e ↦ rw e (record {
    fresh = [];
    added = sym (append-nil db.notifications);
    recipients_of = refl;
    kinds = tt;
  })
]

next_document-version :
    (d : Option Document) (body : String)
    → (next_document d body).version ≡ suc (or_nothing (version_of d))
next_document-version none body = refl
next_document-version (some d) body = omega arith

behind : (v : ℕ) (o : Option ℕ) → or_nothing o ≤ v → outdated (some (suc v)) o ≡ true
unfolding outdated
behind v none h = refl
behind v (some a) h = ground arith

bumps : (n : ℕ) → ltb 1 (suc n) ≡ ltb 0 n
bumps n = ground arith

blocked :
    (v now : ℕ) (auth : Auth) (c : TermsCache)
    → or_nothing auth.user.terms_accepted_version ≤ v
    → IsCurrent (some (suc v)) c
    → (require_terms (some (suc v)) now (some auth) c).1
      ≡ err (forbidden "The current Terms of Service have not been accepted yet.")
unfolding require_terms gate_with
blocked v now auth c h current =
    rw
      (
        refresh-eq-published (some (suc v)) now c current,
        behind v auth.user.terms_accepted_version h,
      )
      refl

-- New terms stop whoever accepted the old ones: if no account is ahead of the published version and
-- a request that publishes terms is answered, the version is the next one, no account is ahead of it
-- either, and the gate, with whatever the cache held before, from then on refuses each account that had
-- accepted a previous version, as long as its row stays. If there were terms before, one notification
-- of the change goes to each account that had accepted any, and none to the others; for the
-- first terms there is none.
pub patch_terms-blocks :
    (print : ℕ → String) (now : ℕ) (caller : Option Auth) (is_object : Bool) (body : Field)
    (s s' : Site)
    → IsKnown s
    → patch_terms print now caller is_object body s ≡ ok s'
    → (version_of s'.terms ≡ some (suc (or_nothing (version_of s.terms))))
      × IsKnown s'
      × ((auth : Auth) (later : ℕ)
          → Memᴰ auth.user s'.db.users
          → has_accepted auth.user ≡ true
          → (require_terms (version_of s'.terms) later (some auth) s'.cache).1
            ≡ err (forbidden "The current Terms of Service have not been accepted yet."))
      × Told
          (if ltb 0 (or_nothing (version_of s.terms)) then keep has_accepted s'.db.users else [])
          s.db
          s'.db
unfolding patch_terms invalidate
patch_terms-blocks print now caller is_object body s s' known r =
    let (auth, _, r1) = >>=-eq-ok (admin_chain now caller s) _ r in
    let (_, r2) = require-ok is_object _ _ r1 in
    let (_, r3) = refuse-ok (field_text body == "") _ _ r2 in
    let done = ok-injective r3 in
    let document = next_document s.terms (field_text body) in
    let old = or_nothing (version_of s.terms) in
    let version = next_document-version s.terms (field_text body) in
    let same_users = after_terms-users print document.version s.db in
    let known_before : All (λ (u : User). or_nothing u.terms_accepted_version ≤ old) s'.db.users =
      rw (← done, same_users) known in
    let told : Told (if ltb 0 old then keep has_accepted s'.db.users else []) s.db s'.db =
      let bump : ltb 1 document.version ≡ ltb 0 old = rw version (bumps old) in
      rw (← done, same_users, ← bump) (after_terms-Told print document.version s.db) in
    let published : version_of s'.terms ≡ some (suc old) = rw (← done) (ap some version) in
    (
      published,
      rw published (
          All-imp _ _ (λ (u : User) (p : or_nothing u.terms_accepted_version ≤ old). omega arith)
            s'.db.users known_before),
      (λ auth later m accepted.
          let at = All-Memᴰ _ s'.db.users auth.user m known_before in
          let fresh : IsCurrent (some (suc old)) s'.cache = rw (← done) (inl refl) in
          rw published (blocked old later auth s'.cache at fresh)),
      told,
    )
