-- ===== src/Organizations/Owned.antt =====
-- Every organization has an owner, an account that can sign in: what the routes that write accounts and
-- owner lists keep.
pub mod Leaving
pub mod Staying
use twexthub.Shared.{
  ℕ, zero, suc, ◌+◌, ◌-◌, ◌≤◌, ◌≡◌, ◌⊎◌, refl, ap, sym, ◌∙◌, String, Bool, true, false, not, ◌&&◌,
  ◌||◌, Option, none, some, List, [], ◌∷◌, ◌++◌, arith, ◌==◌, nat_eq, string_eq, if◌then◌else◌, ltb,
  any, find, keep, length, All, All-append, All-imp, All-keep, Bool-cases, inl, inr, ==_refl,
}
use twexthub.Shared.Rows.{update, delete, insert_new}
use twexthub.Db.{Db, User, Membership, is_organization}
use twexthub.Organizations.Members.{is_member}

abbrev pub is_person : List User → ℕ → Bool
is_person users id = any (λ (u : User). u.id == id && not (is_organization u.kind)) users

abbrev pub has_owner : List Membership → User → Bool
has_owner members u =
    not (is_organization u.kind) || any (λ (g : Membership). g.org_id == u.id) members

-- Owners are accounts and no organizations, every organization has one, and the tables have their keys.
pub record IsOwned (users : List User) (members : List Membership) (n : ℕ) : Type 0 where
  pub people : All (λ (g : Membership). is_person users g.user_id ≡ true) members
  pub owned : All (λ (u : User). has_owner members u ≡ true) users
  pub once : (org_id user_id : ℕ) → length (keep (is_member org_id user_id) members) ≤ 1
  pub unique : (id : ℕ) → length (keep (λ (u : User). u.id == id) users) ≤ 1
  pub numbered : All (λ (u : User). ltb u.id n ≡ true) users
  pub linked : All (λ (g : Membership). ltb g.org_id n ≡ true) members

abbrev pub AllOwned : Db → Type 0
AllOwned db = IsOwned db.users db.organization_owners db.next_user_id

module _ {ℓ} {A : Type ℓ} where
  length-keep_append :
      (p : A → Bool) (xs : List A) (r : A)
      → length (keep p (xs ++ r ∷ [])) ≡ length (keep p xs) + (if p r then 1 else 0)
  length-keep_append p [] r = ground arith
  length-keep_append p (x ∷ xs) r = ground (arith, length-keep_append p xs r)

  length-keep-delete :
      (p q : A → Bool) (xs : List A) → length (keep p (delete q xs)) ≤ length (keep p xs)
  length-keep-delete p q [] = omega arith
  length-keep-delete p q (x ∷ xs) = ground (arith, length-keep-delete p q xs)

  length-keep_none : (p : A → Bool) (xs : List A) → any p xs ≡ false → length (keep p xs) ≡ 0
  length-keep_none p [] h = refl
  length-keep_none p (x ∷ xs) h = ground (arith, length-keep_none p xs)

  length-keep_some : (p : A → Bool) (xs : List A) → any p xs ≡ true → 1 ≤ length (keep p xs)
  length-keep_some p [] h = cc
  length-keep_some p (x ∷ xs) h = ground (arith, length-keep_some p xs)

  any-of_length : (p : A → Bool) (xs : List A) → 1 ≤ length (keep p xs) → any p xs ≡ true
  any-of_length p [] h = absurd (omega arith)
  any-of_length p (x ∷ xs) h = ground (arith, any-of_length p xs)

  any-append_left : (p : A → Bool) (xs ys : List A) → any p xs ≡ true → any p (xs ++ ys) ≡ true
  any-append_left p [] ys h = cc
  any-append_left p (x ∷ xs) ys h = ground (arith, any-append_left p xs ys)

none_of_length {ℓ} :
    {A : Type ℓ} (p : A → Bool) (xs : List A) → length (keep p xs) ≡ 0 → any p xs ≡ false
none_of_length p [] h = refl
none_of_length p (x ∷ xs) h = ground (arith, none_of_length p xs)

owned_last :
    (u : User) (owner_id : ℕ) (members : List Membership)
    → has_owner (members ++ record { org_id = u.id; user_id = owner_id } ∷ []) u ≡ true
owned_last u owner_id [] = ground (arith, ==_refl u.id)
owned_last u owner_id (g ∷ gs) = ground (arith, owned_last u owner_id gs)

fresh_count :
    (n : ℕ) (users : List User)
    → All (λ (u : User). ltb u.id n ≡ true) users
    → length (keep (λ (u : User). u.id == n) users) ≡ 0
fresh_count n [] h = refl
fresh_count n (u ∷ us) h = ground (arith, fresh_count n us, nat_eq.beq_iff u.id n)

fresh_member :
    (n user_id : ℕ) (members : List Membership)
    → All (λ (g : Membership). ltb g.org_id n ≡ true) members
    → length (keep (is_member n user_id) members) ≡ 0
fresh_member n user_id [] h = refl
fresh_member n user_id (g ∷ gs) h =
    ground (arith, fresh_member n user_id gs, nat_eq.beq_iff g.org_id n)

below_suc : (a n : ℕ) → ltb a n ≡ true → ltb a (n + 1) ≡ true
below_suc a n h = ground arith

has_owner-more :
    (members more : List Membership) (users : List User)
    → All (λ (u : User). has_owner members u ≡ true) users
    → All (λ (u : User). has_owner (members ++ more) u ≡ true) users
has_owner-more members more [] h = tt
has_owner-more members more (u ∷ us) h = (
  elim (Bool-cases (is_organization u.kind)) [
    | inr e ↦ rw e refl
    | inl e ↦
        rw e (any-append_left (λ (g : Membership). g.org_id == u.id) members more (ground arith))
  ],
  has_owner-more members more us h.1,
)

module _ (users : List User) (members : List Membership) (n : ℕ) (h : IsOwned users members n) where
  -- A new account, or a new organization with its first owner.
  added_unique :
      (u : User)
      → u.id ≡ n
      → (id : ℕ) → length (keep (λ (v : User). v.id == id) (users ++ u ∷ [])) ≤ 1
  added_unique u e id = elim (Bool-cases (u.id == id)) [
    | inr other ↦
        let count = length-keep_append (λ (v : User). v.id == id) users u in
        omega (arith, rw other at count, h.unique id)
    | inl same ↦
        let count = length-keep_append (λ (v : User). v.id == id) users u in
        let at = (nat_eq.beq_iff u.id id).0 same in
        let none_yet : length (keep (λ (v : User). v.id == id) users) ≡ 0 =
          rw (← at, e) (fresh_count n users h.numbered) in
        omega (arith, rw same at count, none_yet)
  ]

  pub account-IsOwned :
      (u : User)
      → u.id ≡ n
      → is_organization u.kind ≡ false
      → IsOwned (users ++ u ∷ []) members (n + 1)
  account-IsOwned u e person = record {
    people =
        All-imp _ _ (λ (g : Membership) p. any-append_left _ users (u ∷ []) p) members h.people;
    owned = All-append _ users (u ∷ []) h.owned (rw person refl, tt);
    once = h.once;
    unique = added_unique u e;
    numbered =
        All-append _ users (u ∷ [])
          (All-imp _ _ (λ (v : User) b. below_suc v.id n b) users h.numbered) (ground arith, tt);
    linked = All-imp _ _ (λ (g : Membership) b. below_suc g.org_id n b) members h.linked;
  }

  counted_once :
      (r : Membership)
      → any (is_member r.org_id r.user_id) members ≡ false
      → (o t : ℕ) → length (keep (is_member o t) (members ++ r ∷ [])) ≤ 1
  counted_once r new o t =
      let count = length-keep_append (is_member o t) members r in
      elim (Bool-cases (is_member o t r)) [
        | inr other ↦ omega (arith, rw other at count, h.once o t)
        | inl same ↦
            let at = (nat_eq.beq_iff r.org_id o).0 (ground arith) in
            let by = (nat_eq.beq_iff r.user_id t).0 (ground arith) in
            let none_yet : length (keep (is_member o t) members) ≡ 0 =
              rw (← at, ← by) (length-keep_none (is_member r.org_id r.user_id) members new) in
            omega (arith, rw same at count, none_yet)
      ]

  pub organization-IsOwned :
      (u : User) (owner_id : ℕ)
      → u.id ≡ n
      → is_person users owner_id ≡ true
      → IsOwned
          (users ++ u ∷ [])
          (members ++ record { org_id = u.id; user_id = owner_id } ∷ [])
          (n + 1)
  organization-IsOwned u owner_id e person =
      let r : Membership = record { org_id = u.id; user_id = owner_id } in
      let new : any (is_member u.id owner_id) members ≡ false =
        none_of_length (is_member u.id owner_id) members
          (rw e (fresh_member n owner_id members h.linked)) in
      record {
        people =
            All-append _ members (r ∷ [])
              (All-imp _ _ (λ (g : Membership) p. any-append_left _ users (u ∷ []) p) members
                h.people)
              (any-append_left _ users (u ∷ []) person, tt);
        owned =
            All-append _ users (u ∷ []) (has_owner-more members (r ∷ []) users h.owned)
              (owned_last u owner_id members, tt);
        once = counted_once r new;
        unique = added_unique u e;
        numbered =
            All-append _ users (u ∷ [])
              (All-imp _ _ (λ (v : User) b. below_suc v.id n b) users h.numbered)
              (ground arith, tt);
        linked =
            All-append _ members (r ∷ [])
              (All-imp _ _ (λ (g : Membership) b. below_suc g.org_id n b) members h.linked)
              (ground arith, tt);
      }

  -- An owner who is added once more changes nothing.
  pub member-IsOwned :
      (r : Membership)
      → ltb r.org_id n ≡ true
      → is_person users r.user_id ≡ true
      → IsOwned users (insert_new (is_member r.org_id r.user_id) r members) n
  member-IsOwned r below person = elim (Bool-cases (any (is_member r.org_id r.user_id) members)) [
    | inl there ↦ rw there h
    | inr new ↦ rw new (record {
      people = All-append _ members (r ∷ []) h.people (person, tt);
      owned = has_owner-more members (r ∷ []) users h.owned;
      once = counted_once r new;
      unique = h.unique;
      numbered = h.numbered;
      linked = All-append _ members (r ∷ []) h.linked (below, tt);
    })
  ]
