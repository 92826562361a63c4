-- ===== src/Webhooks/Queue/Leases/Claims.antt =====
-- A claim keeps every lease apart: what it takes is under nobody's lease.
use twexthub.Shared.{
  ℕ, ◌+◌, ◌≤◌, ◌≡◌, ◌⊎◌, refl, Bool, true, false, ◌||◌, List, [], ◌∷◌, ◌++◌, arith, Bool-cases, inl,
  inr, All, if◌then◌else◌, ◌==◌, nat_eq, ltb, string_eq,
}
use twexthub.Shared.Rows.{update}
use twexthub.Db.{Delivery, is_waiting, is_delivering}
use twexthub.Webhooks.Queue.{claimable, claim_due, leased, delivery_lease}
use twexthub.Webhooks.Queue.Due.{due-All, due-One, update-none}
use twexthub.Webhooks.Queue.Leases.{
  World, deliveries_of, deadline, Follows, Apart, Behind, IsLeased,
}

claimable-late :
    (now : ℕ) (d : Delivery)
    → claimable now d ≡ true
    → (is_waiting d.status ≡ true) ⊎ ((is_delivering d.status ≡ true) × (deadline d ≤ now))
unfolding claimable
claimable-late now d h = elim (Bool-cases (is_waiting d.status)) [
  | inl e ↦ inl e
  | inr e ↦ inr (ground arith, ground arith)
]

-- Nothing that is under way for a claimable row is still under its lease.
abbrev Free : ℕ → List Delivery → Delivery → Type 0
Free now attempts d =
    All (λ (c : Delivery). (if c.id == d.id then deadline c else 0) ≤ now) attempts

claimable-Free :
    (now : ℕ) (d : Delivery) (attempts : List Delivery)
    → claimable now d ≡ true
    → All (Behind now d) attempts
    → Free now attempts d
claimable-Free now d [] late h = tt
claimable-Free now d (c ∷ cs) late h = (
  elim (claimable-late now d late) [ inl e ↦ ground arith | inr (e, over) ↦ ground arith ],
  claimable-Free now d cs late h.1,
)

module _ {ℓ} {A : Type ℓ} where
  pub All-both {κ ι} :
      (P : A → Type κ) (Q : A → Type ι) (xs : List A)
      → All P xs
      → All Q xs
      → All (λ x. P x × Q x) xs
  All-both P Q [] h k = tt
  All-both P Q (x ∷ xs) h k = ((h.0, k.0), All-both P Q xs h.1 k.1)

  pub All-split {κ} :
      (P : A → Type κ) (newer : List A) (c : A) (older : List A)
      → All P (newer ++ c ∷ older)
      → All P (newer ++ older) × P c
  All-split P [] c older h = (h.1, h.0)
  All-split P (n ∷ ns) c older h = let (rest, at) = All-split P ns c older h.1 in ((h.0, rest), at)

pub Apart-split :
    (newer : List Delivery) (c : Delivery) (older : List Delivery)
    → Apart (newer ++ c ∷ older)
    → Apart (newer ++ older) × All (λ (n : Delivery). Follows n c) newer × All (Follows c) older
Apart-split [] c older h = (h.1, tt, h.0)
Apart-split (n ∷ ns) c older h =
    let (rest, after, before) = Apart-split ns c older h.1 in
    let (others, at) = All-split (Follows n) ns c older h.0 in ((others, rest), (at, after), before)

-- A row after a claim of `d`, and the attempts that are under way then.
module _ (now : ℕ) (d : Delivery) (attempts : List Delivery) (free : Free now attempts d)
    (near : All (λ (c : Delivery). deadline c ≤ now + delivery_lease) attempts) where
  leased-Follows : (cs : List Delivery) → Free now cs d → All (Follows (leased now d)) cs
  leased-Follows [] h = tt
  leased-Follows (c ∷ cs) h =
      (ground (arith, nat_eq.beq_iff c.id d.id, nat_eq.beq_iff d.id c.id), leased-Follows cs h.1)

  leased-Behind :
      (r : Delivery) (cs : List Delivery)
      → All (λ (c : Delivery). deadline c ≤ now + delivery_lease) cs
      → All (Behind now (leased now r)) cs
  leased-Behind r [] h = tt
  leased-Behind r (c ∷ cs) h = (ground arith, leased-Behind r cs h.1)

  claimed-row :
      (r : Delivery) (hit : Bool)
      → (d.id == r.id || false) ≡ hit
      → All (Behind now r) attempts
      → All (Behind now (if hit then leased now r else r)) (leased now d ∷ attempts)
  claimed-row r true e h = (ground arith, leased-Behind r attempts near)
  claimed-row r false e h = (ground arith, h)

  claimed-rows :
      (rows : List Delivery)
      → All (λ (r : Delivery). All (Behind now r) attempts) rows
      → All
          (λ (r : Delivery). All (Behind now r) (leased now d ∷ attempts))
          (update (λ r. d.id == r.id || false) (leased now) rows)
  claimed-rows [] h = tt
  claimed-rows (r ∷ rs) h = (claimed-row r (d.id == r.id || false) refl h.0, claimed-rows rs h.1)

ids_kept :
    (n now : ℕ) (p : Delivery → Bool) (rows : List Delivery)
    → All (λ (r : Delivery). ltb r.id n ≡ true) rows
    → All (λ (r : Delivery). ltb r.id n ≡ true) (update p (leased now) rows)
ids_kept n now p [] h = tt
ids_kept n now p (r ∷ rs) h = elim (Bool-cases (p r)) [
  | inl e ↦ rw e (h.0, ids_kept n now p rs h.1)
  | inr e ↦ rw e (h.0, ids_kept n now p rs h.1)
]

-- A claim, with the one row that it took or none.
pub claim-IsLeased :
    (w : World)
    → IsLeased w
    → IsLeased (record w {
      db = (claim_due w.now 1 w.db).0;
      attempts = deliveries_of (claim_due w.now 1 w.db).1 ++ w.attempts;
    })
unfolding claim_due
claim-IsLeased w h =
    let rows = All-both _ _ w.db.webhook_deliveries h.rows h.numbered in
    let ready =
      due-All
        (λ (d : Delivery).
          All (Behind w.now d) w.attempts × (ltb d.id w.db.next_delivery_id ≡ true))
        (λ (d : Delivery). Free w.now w.attempts d × (ltb d.id w.db.next_delivery_id ≡ true)) w.now
        (λ d p late. (claimable-Free w.now d w.attempts late p.0, p.1)) 1 w.db.webhook_deliveries
        rows in
    elim (due-One _ w.now w.db.webhooks w.db.webhook_deliveries ready) [
      | inl nothing ↦
          rw (nothing, update-none)
            (record {
              rows = h.rows;
              apart = h.apart;
              near = h.near;
              numbered = h.numbered;
              known = h.known;
            })
      | inr (d, url, taken, (free, numbered)) ↦ rw taken (record {
        rows = claimed-rows w.now d w.attempts free h.near w.db.webhook_deliveries h.rows;
        apart = (leased-Follows w.now d w.attempts free h.near w.attempts free, h.apart);
        near = (ground arith, h.near);
        numbered = ids_kept w.db.next_delivery_id w.now _ w.db.webhook_deliveries h.numbered;
        known = (numbered, h.known);
      })
    ]
