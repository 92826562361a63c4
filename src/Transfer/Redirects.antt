-- ===== src/Transfer/Redirects.antt =====
-- The redirects stay collapsed: a lookup of an old address never has to follow a second redirect.
use twexthub.Shared.{
  String, ◌≡◌, ◌≢◌, refl, ap, Bool, true, false, ◌||◌, List, [], ◌∷◌, ◌++◌, arith, any, All,
  All-append, ok, Bool-cases, inl, inr, string_eq,
}
use twexthub.Shared.Rows.{update, upsert}
use twexthub.Db.{Db, User, Address, Redirect, same_address}
use twexthub.Transfer.Offers.{Limits}
use twexthub.Transfer.Move.{Moved, move_extension, accept_transfer}
use twexthub.Transfer.Accepted.{accept_transfer-Accepted, destination}

-- Some redirect starts at `x`.
abbrev pub starts : Address → List Redirect → Bool
starts x rs = any (λ (r : Redirect). same_address r.source x) rs

-- No redirect leads to the start of another.
abbrev pub IsCollapsed : List Redirect → Type 0
IsCollapsed rs = All (λ (r : Redirect). starts r.target rs ≡ false) rs

pub same_address_sym : (a b : Address) → same_address a b ≡ same_address b a
same_address_sym a b = ground (
  arith,
  string_eq.beq_iff a.namespace b.namespace,
  string_eq.beq_iff b.namespace a.namespace,
  string_eq.beq_iff a.id b.id,
  string_eq.beq_iff b.id a.id,
)

abbrev pub retarget : Address → Redirect → Redirect
retarget b r = record r { target = b }

starts-update :
    (x b : Address) (p : Redirect → Bool) (rs : List Redirect)
    → starts x (update p (retarget b) rs) ≡ starts x rs
starts-update x b p [] = refl
starts-update x b p (r ∷ rs) = ground (arith, starts-update x b p rs)

starts-append :
    (x a b : Address) (rs : List Redirect)
    → starts x (rs ++ record { source = a; target = b } ∷ []) ≡ (starts x rs || same_address a x)
starts-append x a b [] = ground arith
starts-append x a b (r ∷ rs) = ground (arith, starts-append x a b rs)

module _ (a b : Address) (rs : List Redirect) where
  abbrev pub inserted : List Redirect
  inserted =
      upsert (λ r. same_address r.source a) (retarget b) (record { source = a; target = b }) rs

  abbrev pub collapsed : List Redirect
  collapsed = update (λ r. same_address r.target a) (retarget b) inserted

  starts-collapsed :
      (x : Address) → starts x rs ≡ false → same_address a x ≡ false → starts x collapsed ≡ false
  starts-collapsed x h k = ground (
    arith,
    starts-update x b (λ r. same_address r.target a) inserted,
    starts-update x b (λ r. same_address r.source a) rs,
    starts-append x a b rs,
  )

  -- A target that is no start, old or new.
  abbrev IsEnd : Address → Type 0
  IsEnd x = (starts x rs ≡ false) × (same_address a x ≡ false)

  abbrev IsOldEnd : Redirect → Type 0
  IsOldEnd r = starts r.target rs ≡ false

  update-All :
      (p : Redirect → Bool) (qs : List Redirect)
      → starts b rs ≡ false
      → All IsOldEnd qs
      → All IsOldEnd (update p (retarget b) qs)
  update-All p [] h k = tt
  update-All p (q ∷ qs) h k = ground (arith, update-All p qs h)

  inserted-All : starts b rs ≡ false → All IsOldEnd rs → All IsOldEnd inserted
  inserted-All h k = elim (Bool-cases (starts a rs)) [
    | inl e ↦ rw e (update-All (λ r. same_address r.source a) rs h k)
    | inr e ↦ rw e (All-append IsOldEnd rs _ k (h, tt))
  ]

  collapse-All :
      (qs : List Redirect)
      → IsEnd b
      → All IsOldEnd qs
      → All
          (λ (r : Redirect). IsEnd r.target)
          (update (λ r. same_address r.target a) (retarget b) qs)
  collapse-All [] h k = tt
  collapse-All (q ∷ qs) h k = ground (arith, collapse-All qs h, same_address_sym q.target a)

module _ (a b : Address) (rs : List Redirect) where
  ends-All :
      (qs : List Redirect)
      → All (λ (r : Redirect). IsEnd a b rs r.target) qs
      → All (λ (r : Redirect). starts r.target (collapsed a b rs) ≡ false) qs
  ends-All [] h = tt
  ends-All (q ∷ qs) h = (starts-collapsed a b rs q.target h.0.0 h.0.1, ends-All qs h.1)

  collapsed-IsCollapsed : IsEnd a b rs b → IsCollapsed rs → IsCollapsed (collapsed a b rs)
  collapsed-IsCollapsed h k =
      ends-All (collapsed a b rs)
        (collapse-All a b rs (inserted a b rs) h (inserted-All a b rs h.0 k))

pub same_address-eq : (a b : Address) → same_address a b ≡ true → a ≡ b
same_address-eq a b h =
    ground (arith, string_eq.beq_iff a.namespace b.namespace, string_eq.beq_iff a.id b.id)

-- An accepted transfer keeps the redirects collapsed, if the two namespaces differ.
pub accept_transfer-IsCollapsed :
    (limits : Limits) (actor : User) (a : Address) (to : String) (recipient : User) (db db' : Db)
    (m : Moved)
    → a.namespace ≢ to
    → IsCollapsed db.extension_redirects
    → accept_transfer limits actor a to recipient db ≡ ok (db', m)
    → IsCollapsed db'.extension_redirects
unfolding move_extension
accept_transfer-IsCollapsed limits actor a to recipient db db' m differ h e =
    let acc = accept_transfer-Accepted limits actor a to recipient db db' m e in
    let other : same_address a (destination a to) ≡ false =
      ground (arith, string_eq.beq_iff a.namespace to) in
    rw (ap (λ (d : Db). d.extension_redirects) acc.tables.same)
      (collapsed-IsCollapsed a (destination a to) db.extension_redirects (acc.unmoved, other) h)
