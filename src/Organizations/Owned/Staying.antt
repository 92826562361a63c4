-- ===== src/Organizations/Owned/Staying.antt =====
-- An owner who is taken off the list, an organization that is deleted, and a row that is edited.
use twexthub.Shared.{
  ℕ, ◌≤◌, ◌≡◌, refl, Bool, true, false, not, ◌&&◌, List, [], ◌∷◌, arith, ◌==◌, nat_eq, string_eq,
  any, keep, length, All, All-imp, All-keep, Bool-cases, inl, inr,
}
use twexthub.Shared.Rows.{update, delete, All-update}
use twexthub.Db.{User, Membership, is_organization}
use twexthub.Organizations.Members.{is_member}
use twexthub.Organizations.Owned.{
  is_person, has_owner, IsOwned, length-keep-delete, length-keep_some,
}
use twexthub.Organizations.Owned.Leaving.{of_org, person_left}

of_other :
    (i : ℕ) (p : Membership → Bool) (members : List Membership)
    → ((g : Membership) → p g ≡ true → (g.org_id == i) ≡ false)
    → any (of_org i) (delete p members) ≡ any (of_org i) members
of_other i p [] apart = refl
of_other i p (g ∷ gs) apart = elim (Bool-cases (p g)) [
  | inl e ↦ rw (e, not, apart g e) (of_other i p gs apart)
  | inr e ↦ rw (e, not, of_other i p gs apart) refl
]

module _ (users : List User) (members : List Membership) (n : ℕ) (h : IsOwned users members n) where
  -- An owner leaves a list that is not empty then.
  removed_owner :
      (o t : ℕ) (u : User)
      → any (of_org o) (delete (is_member o t) members) ≡ true
      → has_owner members u ≡ true
      → has_owner (delete (is_member o t) members) u ≡ true
  removed_owner o t u left owned = elim (Bool-cases (u.id == o)) [
    | inl e ↦ let at = (nat_eq.beq_iff u.id o).0 e in rw (at, left) (ground arith)
    | inr e ↦
        rw
          (of_other u.id (is_member o t) members (λ g p. ground (
            arith,
            nat_eq.beq_iff g.org_id o,
            nat_eq.beq_iff g.org_id u.id,
            nat_eq.beq_iff u.id o,
          )))
          owned
  ]

  pub removed-IsOwned :
      (o t : ℕ)
      → any (of_org o) (delete (is_member o t) members) ≡ true
      → IsOwned users (delete (is_member o t) members) n
  removed-IsOwned o t left = record {
    people = All-keep _ _ members h.people;
    owned = All-imp _ _ (λ (u : User) p. removed_owner o t u left p) users h.owned;
    once = λ a b.
        omega (arith, length-keep-delete (is_member a b) (is_member o t) members, h.once a b);
    unique = h.unique;
    numbered = h.numbered;
    linked = All-keep _ _ members h.linked;
  }

-- An id is a person's or an organization's, never both.
two_kinds :
    (o : ℕ) (users : List User)
    → any (λ (u : User). u.id == o && is_organization u.kind) users ≡ true
    → is_person users o ≡ true
    → 2 ≤ length (keep (λ (u : User). u.id == o) users)
two_kinds o [] org person = cc
two_kinds o (u ∷ us) org person = elim (Bool-cases (u.id == o)) [
  | inr e ↦ rw e (two_kinds o us (rw e at org) (rw e at person))
  | inl e ↦ elim (Bool-cases (is_organization u.kind)) [
    | inl k ↦
        let rest : 1 ≤ length (keep (λ (v : User). v.id == o) us) =
          length-keep_some (λ (v : User). v.id == o) us (person_id us (rw (e, k, not) at person)) in
        rw e (omega (arith, rest))
    | inr k ↦
        let rest : 1 ≤ length (keep (λ (v : User). v.id == o) us) =
          length-keep_some (λ (v : User). v.id == o) us (org_id us (rw (e, k) at org)) in
        rw e (omega (arith, rest))
  ]
]
  where
    person_id : (vs : List User) → is_person vs o ≡ true → any (λ (v : User). v.id == o) vs ≡ true
    person_id [] p = cc
    person_id (v ∷ vs) p = ground (arith, person_id vs)

    org_id :
        (vs : List User)
        → any (λ (v : User). v.id == o && is_organization v.kind) vs ≡ true
        → any (λ (v : User). v.id == o) vs ≡ true
    org_id [] p = cc
    org_id (v ∷ vs) p = ground (arith, org_id vs)

module _ (users : List User) (members : List Membership) (n : ℕ) (h : IsOwned users members n)
    (o : ℕ) (is_org : any (λ (u : User). u.id == o && is_organization u.kind) users ≡ true) where
  no_person : (id : ℕ) → is_person users id ≡ true → (id == o) ≡ false
  no_person id p = elim (Bool-cases (id == o)) [
    | inr e ↦ e
    | inl e ↦
        let at = (nat_eq.beq_iff id o).0 e in
        absurd (omega (arith, two_kinds o users is_org (rw (← at) p), h.unique o))
  ]

  people_kept :
      (gs : List Membership)
      → All (λ (g : Membership). is_person users g.user_id ≡ true) gs
      → All
          (λ (g : Membership). is_person (delete (λ (u : User). u.id == o) users) g.user_id ≡ true)
          (delete (of_org o) gs)
  people_kept [] p = tt
  people_kept (g ∷ gs) p = elim (Bool-cases (of_org o g)) [
    | inl e ↦ rw (e, not) (people_kept gs p.1)
    | inr e ↦
        rw (e, not)
          (person_left o g.user_id users (no_person g.user_id p.0) p.0, people_kept gs p.1)
  ]

  owners_kept :
      (us : List User)
      → All (λ (u : User). has_owner members u ≡ true) us
      → All
          (λ (u : User). has_owner (delete (of_org o) members) u ≡ true)
          (delete (λ (u : User). u.id == o) us)
  owners_kept [] p = tt
  owners_kept (u ∷ us) p = elim (Bool-cases (u.id == o)) [
    | inl e ↦ rw (e, not) (owners_kept us p.1)
    | inr e ↦
        rw (e, not)
          (
            rw
                (of_other u.id (of_org o) members (λ g q. ground (
                  arith,
                  nat_eq.beq_iff g.org_id o,
                  nat_eq.beq_iff g.org_id u.id,
                  nat_eq.beq_iff u.id o,
                )))
                p.0,
            owners_kept us p.1,
          )
  ]

  pub dissolved-IsOwned :
      IsOwned (delete (λ (u : User). u.id == o) users) (delete (of_org o) members) n
  dissolved-IsOwned = record {
    people = people_kept members h.people;
    owned = owners_kept users h.owned;
    once = λ a b. omega (arith, length-keep-delete (is_member a b) (of_org o) members, h.once a b);
    unique = λ i. omega (
      arith,
      length-keep-delete (λ (u : User). u.id == i) (λ (u : User). u.id == o) users,
      h.unique i,
    );
    numbered = All-keep _ _ users h.numbered;
    linked = All-keep _ _ members h.linked;
  }

-- An edit that keeps the id and the kind of each row.
module _ (p : User → Bool) (f : User → User)
    (kept : (u : User) → ((f u).id ≡ u.id) × ((f u).kind ≡ u.kind)) where
  edited-is_person :
      (users : List User) (id : ℕ) → is_person (update p f users) id ≡ is_person users id
  edited-is_person [] id = refl
  edited-is_person (u ∷ us) id = elim (Bool-cases (p u)) [
    | inl e ↦ rw (e, (kept u).0, (kept u).1, edited-is_person us id) refl
    | inr e ↦ rw (e, edited-is_person us id) refl
  ]

  edited_count :
      (users : List User) (id : ℕ)
      → length (keep (λ (u : User). u.id == id) (update p f users))
        ≡ length (keep (λ (u : User). u.id == id) users)
  edited_count [] id = refl
  edited_count (u ∷ us) id = elim (Bool-cases (p u)) [
    | inl e ↦ rw (e, (kept u).0) (ground (arith, edited_count us id))
    | inr e ↦ rw e (ground (arith, edited_count us id))
  ]

  pub edited-IsOwned :
      (users : List User) (members : List Membership) (n : ℕ)
      → IsOwned users members n
      → IsOwned (update p f users) members n
  edited-IsOwned users members n h = record {
    people =
        All-imp _ _ (λ (g : Membership) q. rw (edited-is_person users g.user_id) q) members
          h.people;
    owned = All-update _ p f users (λ u q hit. rw ((kept u).0, (kept u).1) q) h.owned;
    once = h.once;
    unique = λ i. rw (edited_count users i) (h.unique i);
    numbered = All-update _ p f users (λ u q hit. rw (kept u).0 q) h.numbered;
    linked = h.linked;
  }
