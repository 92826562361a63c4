-- ===== src/Webhooks/Queue/Leases/Outcomes.antt =====
-- The other steps keep every lease apart: an outcome that is recorded, an attempt that is lost, a
-- delivery that is scheduled, a hook that is removed.
use twexthub.Shared.{
  ℕ, ◌+◌, ◌≤◌, ◌≡◌, refl, String, Bool, true, false, ◌&&◌, Option, none, some, List, [], ◌∷◌, ◌++◌,
  arith, All, All-append, if◌then◌else◌, ◌==◌, nat_eq, ltb, string_eq,
}
use twexthub.Shared.Rows.{update, All-update}
use twexthub.Db.{Delivery, is_delivering}
use twexthub.Webhooks.Queue.{Reply, delivery_lease, record_outcome, settled, holds}
use twexthub.Webhooks.Queue.Leases.{World, deadline, time_of, Follows, Behind, IsLeased}
use twexthub.Db.{delivered, retrying, failed}
use twexthub.Shared.{eq_of_==}
use twexthub.Webhooks.Queue.{is_success, is_retrying, same_time}
use twexthub.Webhooks.Queue.Leases.Claims.{All-split, Apart-split}

-- The rows that one attempt less is under way for.
fewer_rows :
    (now : ℕ) (newer older : List Delivery) (c : Delivery) (rows : List Delivery)
    → All (λ (d : Delivery). All (Behind now d) (newer ++ c ∷ older)) rows
    → All (λ (d : Delivery). All (Behind now d) (newer ++ older)) rows
fewer_rows now newer older c [] h = tt
fewer_rows now newer older c (d ∷ ds) h =
    ((All-split (Behind now d) newer c older h.0).0, fewer_rows now newer older c ds h.1)

pub lost-IsLeased :
    (w : World) (newer older : List Delivery) (c : Delivery)
    → w.attempts ≡ newer ++ c ∷ older
    → IsLeased w
    → IsLeased (record w { attempts = newer ++ older })
lost-IsLeased w newer older c e h = record {
  rows = fewer_rows w.now newer older c w.db.webhook_deliveries (rw (← e) h.rows);
  apart = (Apart-split newer c older (rw (← e) h.apart)).0;
  near = (All-split _ newer c older (rw (← e) h.near)).0;
  numbered = h.numbered;
  known = (All-split _ newer c older (rw (← e) h.known)).0;
}

All-front {ℓ κ} : {A : Type ℓ} (P : A → Type κ) (xs ys : List A) → All P (xs ++ ys) → All P xs
All-front P [] ys h = tt
All-front P (x ∷ xs) ys h = (h.0, All-front P xs ys h.1)

ended-status :
    (p q : Bool) → is_delivering (if p then delivered else if q then retrying else failed) ≡ false
ended-status true q = refl
ended-status false true = refl
ended-status false false = refl

same_time-eq : (s t : Option ℕ) → same_time s t ≡ true → time_of s ≡ time_of t
same_time-eq none none h = cc
same_time-eq none (some t) h = cc
same_time-eq (some s) none h = cc
same_time-eq (some s) (some t) h = eq_of_== s t h

pub holds-deadline :
    (c d : Delivery)
    → holds c d ≡ true
    → (c.id ≡ d.id) × (is_delivering d.status ≡ true) × (deadline d ≡ deadline c)
unfolding holds
holds-deadline c d h = (
  eq_of_== c.id d.id (ground arith),
  ground arith,
  same_time-eq d.next_attempt_at c.next_attempt_at (ground arith),
)

module _ (print : ℕ → String) (now : ℕ) (c : Delivery) (reply : Reply)
    (near : deadline c ≤ now + delivery_lease) where
  over-Behind :
      (d n : Delivery)
      → (if n.id == d.id then deadline n else 0) ≤ now
      → Behind now (settled print c reply now d) n
  unfolding settled
  over-Behind d n over =
      let ended = ended-status (is_success reply) (is_retrying c reply) in
      (rw (ended, ◌&&◌) (ground arith), ground arith)

  -- The attempts beside the one that holds a row are over their leases.
  newer-over :
      (d : Delivery) (cs : List Delivery)
      → holds c d ≡ true
      → All (λ (n : Delivery). Follows n c) cs
      → All (Behind now d) cs
      → All (Behind now (settled print c reply now d)) cs
  newer-over d [] held after h = tt
  newer-over d (n ∷ ns) held after h =
      let (same, delivers, equal) = holds-deadline c d held in
      (
        over-Behind d n (ground (arith, nat_eq.beq_iff n.id c.id, nat_eq.beq_iff n.id d.id)),
        newer-over d ns held after.1 h.1,
      )

  older-over :
      (d : Delivery) (cs : List Delivery)
      → holds c d ≡ true
      → All (Follows c) cs
      → All (Behind now (settled print c reply now d)) cs
  older-over d [] held before = tt
  older-over d (o ∷ os) held before =
      let (same, delivers, equal) = holds-deadline c d held in
      (
        over-Behind d o (ground (arith, nat_eq.beq_iff c.id o.id, nat_eq.beq_iff o.id d.id)),
        older-over d os held before.1,
      )

  -- Every row after the outcome, with the attempts that are left.
  ended-row :
      (newer older : List Delivery) (d : Delivery) (hit : Bool)
      → holds c d ≡ hit
      → All (λ (n : Delivery). Follows n c) newer
      → All (Follows c) older
      → All (Behind now d) (newer ++ c ∷ older)
      → All (Behind now (if hit then settled print c reply now d else d)) (newer ++ older)
  ended-row newer older d false e after before h = (All-split (Behind now d) newer c older h).0
  ended-row newer older d true e after before h =
      All-append (Behind now (settled print c reply now d)) newer older
        (newer-over d newer e after (All-front (Behind now d) newer (c ∷ older) h))
        (older-over d older e before)

  ended-rows :
      (newer older rows : List Delivery)
      → All (λ (n : Delivery). Follows n c) newer
      → All (Follows c) older
      → All (λ (d : Delivery). All (Behind now d) (newer ++ c ∷ older)) rows
      → All
          (λ (d : Delivery). All (Behind now d) (newer ++ older))
          (update (holds c) (settled print c reply now) rows)
  ended-rows newer older [] after before h = tt
  ended-rows newer older (d ∷ ds) after before h = (
    ended-row newer older d (holds c d) refl after before h.0,
    ended-rows newer older ds after before h.1,
  )

  ended_ids :
      (n : ℕ) (rows : List Delivery)
      → All (λ (r : Delivery). ltb r.id n ≡ true) rows
      → All
          (λ (r : Delivery). ltb r.id n ≡ true)
          (update (holds c) (settled print c reply now) rows)
  unfolding settled
  ended_ids n rows h =
      All-update (λ (r : Delivery). ltb r.id n ≡ true) (holds c) (settled print c reply now) rows
        (λ r below held. below) h

pub ended-IsLeased :
    (print : ℕ → String) (w : World) (newer older : List Delivery) (c : Delivery) (reply : Reply)
    → w.attempts ≡ newer ++ c ∷ older
    → IsLeased w
    → IsLeased
        (record w { db = record_outcome print c reply w.now w.db; attempts = newer ++ older })
unfolding record_outcome
ended-IsLeased print w newer older c reply e h =
    let (apart, after, before) = Apart-split newer c older (rw (← e) h.apart) in
    let (near, at) =
      All-split (λ (x : Delivery). deadline x ≤ w.now + delivery_lease) newer c older
        (rw (← e) h.near) in
    record {
      rows =
          ended-rows print w.now c reply at newer older w.db.webhook_deliveries after before
            (rw (← e) h.rows);
      apart = apart;
      near = near;
      numbered =
          ended_ids print w.now c reply at w.db.next_delivery_id w.db.webhook_deliveries h.numbered;
      known =
          (All-split (λ (x : Delivery). ltb x.id w.db.next_delivery_id ≡ true) newer c older
            (rw (← e) h.known)).0;
    }
