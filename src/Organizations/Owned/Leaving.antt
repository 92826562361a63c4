-- ===== src/Organizations/Owned/Leaving.antt =====
-- An account or an organization that goes, and an owner who leaves, do not leave an organization alone.
use twexthub.Shared.{
  ℕ, ◌+◌, ◌≤◌, ◌≡◌, refl, Bool, true, false, not, ◌||◌, List, [], ◌∷◌, arith, ◌==◌, nat_eq,
  string_eq, any, keep, length, All, All-keep, Bool-cases, inl, inr,
}
use twexthub.Shared.Rows.{delete}
use twexthub.Db.{User, Membership, is_organization}
use twexthub.Organizations.Members.{is_member}
use twexthub.Organizations.Owned.{
  is_person, has_owner, IsOwned, length-keep-delete, length-keep_some, any-of_length,
  length-keep_none,
}
use twexthub.Accounts.Deletion.{is_sole_owner, owners_of}

abbrev pub by_user : ℕ → Membership → Bool
by_user t g = g.user_id == t

abbrev pub of_org : ℕ → Membership → Bool
of_org o g = g.org_id == o

-- An organization's owners are the rows of one account and those of the others.
owners-split :
    (o t : ℕ) (members : List Membership)
    → length (owners_of o members)
      ≡ length (keep (is_member o t) members) + length (owners_of o (delete (by_user t) members))
owners-split o t [] = refl
owners-split o t (g ∷ gs) = ground (arith, owners-split o t gs)

pub person_left :
    (t id : ℕ) (users : List User)
    → (id == t) ≡ false
    → is_person users id ≡ true
    → is_person (delete (λ (u : User). u.id == t) users) id ≡ true
person_left t id [] other h = cc
person_left t id (u ∷ us) other h = ground (
  arith,
  person_left t id us other,
  nat_eq.beq_iff u.id t,
  nat_eq.beq_iff u.id id,
  nat_eq.beq_iff id t,
)

module _ (users : List User) (members : List Membership) (n : ℕ) (h : IsOwned users members n)
    (t : ℕ) where
  -- An owner is left unless the account was the only one.
  owner_left :
      (u : User)
      → (not (is_organization u.kind) || not (is_sole_owner t members u)) ≡ true
      → has_owner members u ≡ true
      → has_owner (delete (by_user t) members) u ≡ true
  owner_left u free owned = elim (Bool-cases (is_organization u.kind)) [
    | inr e ↦ rw e refl
    | inl e ↦
        let any_before : any (of_org u.id) members ≡ true = ground arith in
        let some_before = length-keep_some (of_org u.id) members any_before in
        let split = owners-split u.id t members in
        let left : 1 ≤ length (keep (of_org u.id) (delete (by_user t) members)) =
          elim (Bool-cases (any (is_member u.id t) members)) [
            | inr never ↦
                omega (arith, split, some_before, length-keep_none (is_member u.id t) members never)
            | inl one ↦ ground (arith, split, some_before, h.once u.id t)
          ] in
        rw e (any-of_length (of_org u.id) (delete (by_user t) members) left)
  ]

  owners_left :
      (us : List User)
      → All
          (λ (u : User). (not (is_organization u.kind) || not (is_sole_owner t members u)) ≡ true)
          us
      → All (λ (u : User). has_owner members u ≡ true) us
      → All (λ (u : User). has_owner (delete (by_user t) members) u ≡ true) us
  owners_left [] free owned = tt
  owners_left (u ∷ us) free owned = (owner_left u free.0 owned.0, owners_left us free.1 owned.1)

  people_left :
      (gs : List Membership)
      → All (λ (g : Membership). is_person users g.user_id ≡ true) gs
      → All
          (λ (g : Membership). is_person (delete (λ (u : User). u.id == t) users) g.user_id ≡ true)
          (delete (by_user t) gs)
  people_left [] p = tt
  people_left (g ∷ gs) p = elim (Bool-cases (by_user t g)) [
    | inl e ↦ rw (e, not) (people_left gs p.1)
    | inr e ↦ rw (e, not) (person_left t g.user_id users e p.0, people_left gs p.1)
  ]

  -- DELETE of an account that is the only owner of no organization.
  pub left-IsOwned :
      All
        (λ (u : User). (not (is_organization u.kind) || not (is_sole_owner t members u)) ≡ true)
        users
      → IsOwned (delete (λ (u : User). u.id == t) users) (delete (by_user t) members) n
  left-IsOwned free = record {
    people = people_left members h.people;
    owned = All-keep _ _ users (owners_left users free h.owned);
    once = λ o s. omega (arith, length-keep-delete (is_member o s) (by_user t) members, h.once o s);
    unique = λ i. omega (
      arith,
      length-keep-delete (λ (u : User). u.id == i) (λ (u : User). u.id == t) users,
      h.unique i,
    );
    numbered = All-keep _ _ users h.numbered;
    linked = All-keep _ _ members h.linked;
  }
