-- ===== src/Transfer/Lookups.antt =====
-- What the lookup of an address answers after a transfer.
use twexthub.Shared.{
  String, ◌≡◌, ◌≢◌, refl, sym, ap, true, false, Option, none, some, List, [], ◌∷◌, ◌++◌, ◌⊎◌, arith,
  find, if◌then◌else◌, ok, Bool-cases, inl, inr, string_eq,
}
use twexthub.Shared.Rows.{update}
use twexthub.Db.{Db, User, Address, Redirect, same_address}
use twexthub.Transfer.Offers.{Limits}
use twexthub.Transfer.Move.{Moved, move_extension, accept_transfer, redirect_for}
use twexthub.Transfer.Accepted.{accept_transfer-Accepted, destination}
use twexthub.Transfer.Redirects.{starts, retarget, inserted, same_address-eq}

abbrev target_of : Address → List Redirect → Option Address
target_of x rs = elim (find (λ (r : Redirect). same_address r.source x) rs) [
  | none ↦ none
  | some r ↦ some r.target
]

-- Where `a` moved to `b`, an answer `a` becomes `b`.
abbrev pub follow : Address → Address → Option Address → Option Address
follow a b none = none
follow a b (some t) = if same_address t a then some b else some t

same_address-left :
    (s a x : Address) → same_address s a ≡ true → same_address s x ≡ same_address a x
same_address-left s a x h = ap (λ (c : Address). same_address c x) (same_address-eq s a h)

same_address-right :
    (s a x : Address) → same_address a x ≡ true → same_address s x ≡ same_address s a
same_address-right s a x h = ap (λ (c : Address). same_address s c) (sym (same_address-eq a x h))

module _ (a b x : Address) where
  target_of-collapse :
      (rs : List Redirect)
      → target_of x (update (λ r. same_address r.target a) (retarget b) rs)
        ≡ follow a b (target_of x rs)
  target_of-collapse [] = refl
  target_of-collapse (r ∷ rs) = ground (arith, target_of-collapse rs)

  target_of-append :
      (rs : List Redirect)
      → starts a rs ≡ false
      → target_of x (rs ++ record { source = a; target = b } ∷ [])
        ≡ (if same_address a x then some b else target_of x rs)
  target_of-append [] h = ground arith
  target_of-append (r ∷ rs) h = elim (Bool-cases (same_address a x)) [
    | inl e ↦ let same = same_address-right r.source a x e in ground (arith, target_of-append rs)
    | inr e ↦ ground (arith, target_of-append rs)
  ]

  target_of-update :
      (rs : List Redirect)
      → starts a rs ≡ true ⊎ same_address a x ≡ false
      → target_of x (update (λ r. same_address r.source a) (retarget b) rs)
        ≡ (if same_address a x then some b else target_of x rs)
  target_of-update [] h = ground arith
  target_of-update (r ∷ rs) h =
      ground (
        arith,
        target_of-update rs,
        same_address-right r.source a x,
        same_address-left r.source a x,
      )

  target_of-inserted :
      (rs : List Redirect)
      → target_of x (inserted a b rs) ≡ (if same_address a x then some b else target_of x rs)
  target_of-inserted rs = elim (Bool-cases (starts a rs)) [
    | inl e ↦ rw e (target_of-update rs (inl e))
    | inr e ↦ rw e (target_of-append rs e)
  ]

-- After a transfer the old address leads to the new one; every other address that led to the old
-- one leads to the new one, and all else is as it was.
pub redirect_for-accept_transfer :
    (limits : Limits) (actor : User) (a : Address) (to : String) (recipient : User) (db db' : Db)
    (m : Moved) (x : Address)
    → a.namespace ≢ to
    → accept_transfer limits actor a to recipient db ≡ ok (db', m)
    → redirect_for db' x ≡ (
        if same_address a x
        then some (destination a to)
        else follow a (destination a to) (redirect_for db x))
unfolding move_extension redirect_for
redirect_for-accept_transfer limits actor a to recipient db db' m x differ e =
    let acc = accept_transfer-Accepted limits actor a to recipient db db' m e in
    let b = destination a to in
    let other : same_address b a ≡ false = ground (arith, string_eq.beq_iff to a.namespace) in
    let rs = db.extension_redirects in
    rw (ap (λ (d : Db). d.extension_redirects) acc.tables.same)
      (rw (target_of-collapse a b x (inserted a b rs), target_of-inserted a b x rs) (ground arith))
