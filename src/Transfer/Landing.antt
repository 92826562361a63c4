-- ===== src/Transfer/Landing.antt =====
-- The rows of the new address once the statements of a transfer have cleared it and moved the others.
use twexthub.Shared.{
  ℕ, String, ◌≡◌, ◌≢◌, refl, ap, sym, Bool, true, false, not, ◌&&◌, ◌||◌, Option, List, [], ◌∷◌,
  arith, any, keep, map, Bool-cases, inl, inr, ==_refl, eq_of_==, ◌==◌, string_eq, nat_eq,
}
use twexthub.Shared.Rows.{update, delete, insert_new, any-append}
use twexthub.Db.{User, Row, Owner, Hook, Address, is_at}
use twexthub.Transfer.Move.{move, rename, hooks, owned_by_account}
use twexthub.Transfer.Accepted.{destination}

module _ {C : Type 0} (a : Address) (to : String) (differ : a.namespace ≢ to) where
  not_there : (r : Row C) → is_at a r ≡ true → is_at (destination a to) r ≡ false
  not_there r e = ground (
    arith,
    string_eq.beq_iff r.address.namespace a.namespace,
    string_eq.beq_iff r.address.namespace to,
  )

  lands : (r : Row C) → is_at a r ≡ true → is_at (destination a to) (rename to r) ≡ true
  lands r e = ground (arith, ==_refl to)

  rename-there : (r : Row C) → is_at (destination a to) r ≡ true → rename to r ≡ r
  rename-there r e =
      let same : r.address.namespace ≡ to = eq_of_== r.address.namespace to (ground arith) in
      ap
        (λ n.
          let moved : Row C = record r { address = record r.address { namespace = n } } in moved)
        (sym same)

  -- A moved table has exactly the old rows at a destination that was cleared.
  pub keep-move :
      (rows : List (Row C))
      → keep (is_at (destination a to)) (move a to (delete (is_at (destination a to)) rows))
        ≡ map (rename to) (keep (is_at a) rows)
  keep-move [] = refl
  keep-move (r ∷ rs) = elim (Bool-cases (is_at a r)) [
    | inl e ↦ rw (not_there r e, e, lands r e) (ap (λ l. rename to r ∷ l) (keep-move rs))
    | inr e ↦ elim (Bool-cases (is_at (destination a to) r)) [
      | inl f ↦ rw (e, f) (keep-move rs)
      | inr f ↦ rw (e, f, e, f) (keep-move rs)
    ]
  ]

  -- And beside the rows of a destination that was not.
  pub keep-move_onto :
      (f : Row C → Row C)
      → ((r : Row C) → (f r).address ≡ r.address)
      → (rows : List (Row C))
      → keep (is_at (destination a to)) (update (is_at (destination a to)) f (move a to rows))
        ≡ map (λ r. f (rename to r)) (keep (λ r. is_at a r || is_at (destination a to) r) rows)
  keep-move_onto f h [] = refl
  keep-move_onto f h (r ∷ rs) = elim (Bool-cases (is_at a r)) [
    | inl e ↦
        let there : is_at (destination a to) (f (rename to r)) ≡ true =
          ground (arith, h (rename to r), lands r e) in
        rw (e, lands r e, there) (ap (λ l. f (rename to r) ∷ l) (keep-move_onto f h rs))
    | inr e ↦ elim (Bool-cases (is_at (destination a to) r)) [
      | inl g ↦
          let there : is_at (destination a to) (f r) ≡ true = ground (arith, h r) in
          rw (e, g, there, rename-there r g) (ap (λ l. f r ∷ l) (keep-move_onto f h rs))
      | inr g ↦ rw (e, g, g) (keep-move_onto f h rs)
    ]
  ]

abbrev pub moved_hook : String → Hook → Hook
moved_hook to h = record h { namespace = to }

-- An account that stands on the owner list of the address.
abbrev pub owns : Address → ℕ → Row Owner → Bool
owns b n r = is_at b r && r.cols.owner_id == n

-- One that does so at the old address, and is not the sender itself.
abbrev pub co_owns : Address → Option User → ℕ → Row Owner → Bool
co_owns a sender n r = owns a n r && not (owned_by_account sender r)

module _ (a : Address) (to : String) (differ : a.namespace ≢ to) where
  pub keep-move_hooks :
      (hs : List Hook)
      → keep
          (hooks (destination a to))
          (update (hooks a) (moved_hook to) (delete (hooks (destination a to)) hs))
        ≡ map (moved_hook to) (keep (hooks a) hs)
  keep-move_hooks [] = refl
  keep-move_hooks (h ∷ hs) = elim (Bool-cases (hooks a h)) [
    | inl e ↦
        let other : hooks (destination a to) h ≡ false =
          ground
            (arith, string_eq.beq_iff h.namespace a.namespace, string_eq.beq_iff h.namespace to) in
        let there : hooks (destination a to) (moved_hook to h) ≡ true =
          ground (arith, ==_refl to) in
        rw (other, e, there) (ap (λ l. moved_hook to h ∷ l) (keep-move_hooks hs))
    | inr e ↦ elim (Bool-cases (hooks (destination a to) h)) [
      | inl f ↦ rw (e, f) (keep-move_hooks hs)
      | inr f ↦ rw (e, f, e, f) (keep-move_hooks hs)
    ]
  ]

  pub any-move_owners :
      (sender : Option User) (n : ℕ) (rows : List (Row Owner))
      → any (owns (destination a to) n) (
          move a to (
            delete
              (λ r. is_at a r && owned_by_account sender r)
              (delete (is_at (destination a to)) rows)))
        ≡ any (co_owns a sender n) rows
  any-move_owners sender n [] = refl
  any-move_owners sender n (r ∷ rs) = elim (Bool-cases (is_at a r)) [
    | inl e ↦ elim (Bool-cases (owned_by_account sender r)) [
      | inl f ↦ rw (not_there a to differ r e, e, f) (ground (arith, any-move_owners sender n rs))
      | inr f ↦
          rw (not_there a to differ r e, e, f, e, lands a to differ r e)
            (ground (arith, any-move_owners sender n rs))
    ]
    | inr e ↦ elim (Bool-cases (is_at (destination a to) r)) [
      | inl g ↦ rw (e, g) (any-move_owners sender n rs)
      | inr g ↦ rw (e, g, e) (ground (arith, any-move_owners sender n rs))
    ]
  ]

  pub any-insert_owner :
      (recipient actor n : ℕ) (rows : List (Row Owner))
      → any (owns (destination a to) n) (
          insert_new
            (owns (destination a to) recipient)
            (record {
              address = destination a to;
              cols = record { owner_id = recipient; added_by = actor };
            })
            rows)
        ≡ (recipient == n || any (owns (destination a to) n) rows)
  any-insert_owner recipient actor n rows =
      let new : Row Owner = record {
        address = destination a to;
        cols = record { owner_id = recipient; added_by = actor };
      } in
      elim (Bool-cases (any (owns (destination a to) recipient) rows)) [
        | inl held ↦ elim (Bool-cases (recipient == n)) [
          | inl e ↦
              let same : n ≡ recipient = sym (eq_of_== recipient n e) in rw (held, e) (rw same held)
          | inr e ↦ rw (held, e) refl
        ]
        | inr free ↦
            rw (free, any-append (owns (destination a to) n) rows (new ∷ []))
              (ground (arith, ==_refl to, ==_refl a.id))
      ]
