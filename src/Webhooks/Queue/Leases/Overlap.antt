-- ===== src/Webhooks/Queue/Leases/Overlap.antt =====
-- Every state that the workers and the rest of the hub reach keeps the leases apart.
use twexthub.Shared.{
  ℕ, ◌+◌, ◌≤◌, ◌≡◌, refl, String, true, Option, List, [], ◌∷◌, ◌++◌, arith, Bool-cases, inl, inr,
  All, All-append, All-imp, All-keep, keep, nat_eq, false, ltb, string_eq,
}
use twexthub.Db.{Db, Hook, Delivery, Address}
use twexthub.Webhooks.Messages.{Payload}
use twexthub.Webhooks.Registry.{schedule_for, schedule_each, delivery_for, remove}
use twexthub.Shared.Rows.{update}
use twexthub.Webhooks.Queue.{record_outcome, Reply, settled, holds}
use twexthub.Webhooks.Queue.Leases.{
  World, Step, waited, scheduled, removed, claimed, ended, lost, Reach, here, next, Follows, Apart,
  Behind, IsLeased,
}
use twexthub.Webhooks.Queue.Leases.Claims.{All-split, Apart-split}
use twexthub.Webhooks.Queue.Leases.Claims.{claim-IsLeased, Apart-split, All-split}
use twexthub.Webhooks.Queue.Leases.Outcomes.{holds-deadline, lost-IsLeased, ended-IsLeased}
use twexthub.Webhooks.Messages.{render_webhook_message}
use twexthub.Webhooks.Registry.{listens}
use twexthub.Shared.{Option-cases}

Behind-later :
    (now t : ℕ) (d : Delivery) (cs : List Delivery)
    → now ≤ t
    → All (Behind now d) cs
    → All (Behind t d) cs
Behind-later now t d [] le h = tt
Behind-later now t d (c ∷ cs) le h = ((h.0.0, omega arith), Behind-later now t d cs le h.1)

waited-IsLeased : (w : World) (t : ℕ) → w.now ≤ t → IsLeased w → IsLeased (record w { now = t })
waited-IsLeased w t le h = record {
  rows =
      All-imp _ _ (λ d behind. Behind-later w.now t d w.attempts le behind) w.db.webhook_deliveries
        h.rows;
  apart = h.apart;
  near = All-imp _ _ (λ (c : Delivery) at. omega (arith, at, le)) w.attempts h.near;
  numbered = h.numbered;
  known = h.known;
}

Behind-new :
    (now n : ℕ) (d : Delivery) (cs : List Delivery)
    → d.id ≡ n
    → All (λ (c : Delivery). ltb c.id n ≡ true) cs
    → All (Behind now d) cs
Behind-new now n d [] e known = tt
Behind-new now n d (c ∷ cs) e known = (
  (ground (arith, nat_eq.beq_iff c.id d.id), ground (arith, nat_eq.beq_iff c.id d.id)),
  Behind-new now n d cs e known.1,
)

below_next : (n m : ℕ) → ltb n m ≡ true → ltb n (m + 1) ≡ true
below_next n m h = ground arith

module _ (sign : String → Payload → String) (a : Address) (event : String) (base : Payload) where
  added : Hook → String → Db → Db
  added hook message db = record db {
    webhook_deliveries =
        db.webhook_deliveries
        ++ delivery_for sign db.next_delivery_id a event base message hook ∷ [];
    next_delivery_id = db.next_delivery_id + 1;
  }

  added-IsLeased :
      (hook : Hook) (message : String) (w : World)
      → IsLeased w
      → IsLeased (record w { db = added hook message w.db })
  unfolding added delivery_for
  added-IsLeased hook message w h = record {
    rows = All-append _ w.db.webhook_deliveries _ h.rows (
      Behind-new w.now w.db.next_delivery_id
          (delivery_for sign w.db.next_delivery_id a event base message hook) w.attempts refl
          h.known,
      tt,
    );
    apart = h.apart;
    near = h.near;
    numbered =
        All-append _ w.db.webhook_deliveries _
          (All-imp _ _ (λ (d : Delivery) at. below_next d.id w.db.next_delivery_id at)
            w.db.webhook_deliveries h.numbered)
          (ground arith, tt);
    known =
        All-imp _ _ (λ (c : Delivery) at. below_next c.id w.db.next_delivery_id at) w.attempts
          h.known;
  }

  scheduled-IsLeased :
      (hooks : List Hook) (w : World)
      → IsLeased w
      → IsLeased (record w { db = schedule_each sign a event base hooks w.db })
  unfolding schedule_each added
  scheduled-IsLeased [] w h = h
  scheduled-IsLeased (hook ∷ hooks) w h =
      elim (Option-cases (render_webhook_message event a.namespace a.id base)) [
        | inl e ↦ rw (e, schedule_each) h
        | inr found ↦
            rw (found.1, schedule_each)
              (scheduled-IsLeased hooks (record w { db = added hook found.0 w.db })
                (added-IsLeased hook found.0 w h))
      ]

removed-IsLeased :
    (w : World) (namespace : String) (extension_id : Option String) (id : ℕ)
    → IsLeased w
    → IsLeased (record w { db = (remove namespace extension_id id w.db).0 })
unfolding remove
removed-IsLeased w namespace extension_id id h = record {
  rows = All-keep _ _ w.db.webhook_deliveries h.rows;
  apart = h.apart;
  near = h.near;
  numbered = All-keep _ _ w.db.webhook_deliveries h.numbered;
  known = h.known;
}

module _ (print : ℕ → String) (sign : String → Payload → String) where
  Step-IsLeased : {w v : World} → Step print sign w v → IsLeased w → IsLeased v
  unfolding schedule_for
  Step-IsLeased {w} (waited t le) h = waited-IsLeased w t le h
  Step-IsLeased {w} (scheduled a event base) h =
      scheduled-IsLeased sign a event base (keep (listens a event) w.db.webhooks) w h
  Step-IsLeased {w} (removed namespace extension_id id) h =
      removed-IsLeased w namespace extension_id id h
  Step-IsLeased {w} (claimed) h = claim-IsLeased w h
  Step-IsLeased {w} (ended newer older c reply e) h = ended-IsLeased print w newer older c reply e h
  Step-IsLeased {w} (lost newer older c e) h = lost-IsLeased w newer older c e h

  Reach-IsLeased : {s w : World} → IsLeased s → Reach print sign s w → IsLeased w
  Reach-IsLeased h here = h
  Reach-IsLeased h (next past step) = Step-IsLeased step (Reach-IsLeased h past)

  -- Two attempts of one delivery overlap only after the lease of the first ran out: whatever workers
  -- claim, end and lose attempts, and whatever events are scheduled and hooks removed meanwhile, from
  -- tables whose deliveries are numbered below their sequence and with no attempt under way, of any two
  -- attempts of one delivery that are under way, the one claimed later was claimed when the lease of
  -- the other was over.
  pub Reach-Apart :
      {s w : World}
      → s.attempts ≡ []
      → All (λ (d : Delivery). ltb d.id s.db.next_delivery_id ≡ true) s.db.webhook_deliveries
      → Reach print sign s w
      → Apart w.attempts
  Reach-Apart {s} none_yet numbered past =
      (Reach-IsLeased
        (record {
          rows =
              rw none_yet (All-imp _ _ (λ (d : Delivery) at. tt) s.db.webhook_deliveries numbered);
          apart = rw none_yet tt;
          near = rw none_yet tt;
          numbered = numbered;
          known = rw none_yet tt;
        })
        past).apart

  late_row :
      (later late d : Delivery) (reply : Reply) (now : ℕ)
      → Follows later late
      → later.id ≡ late.id
      → (holds later d ≡ true)
      → holds late d ≡ false
  late_row later late d reply now behind same held = elim (Bool-cases (holds late d)) [
    | inr free ↦ free
    | inl both ↦
        let (_, _, ends) = holds-deadline later d held in
        let (_, _, ends') = holds-deadline late d both in
        absurd (ground (arith, nat_eq.beq_iff later.id late.id))
  ]

  settled-holds :
      (later late d : Delivery) (reply : Reply) (now : ℕ)
      → holds later (settled print late reply now d) ≡ false
  unfolding settled holds
  settled-holds later late d reply now = ground arith

  late_rows :
      (later late : Delivery) (reply : Reply) (now : ℕ) (rows : List Delivery)
      → Follows later late
      → later.id ≡ late.id
      → keep (holds later) (update (holds late) (settled print late reply now) rows)
        ≡ keep (holds later) rows
  late_rows later late reply now [] behind same = refl
  late_rows later late reply now (d ∷ ds) behind same = elim (Bool-cases (holds later d)) [
    | inl held ↦
        rw
          (
            late_row later late d reply now behind same held,
            held,
            late_rows later late reply now ds behind same,
          )
          refl
    | inr free ↦ elim (Bool-cases (holds late d)) [
      | inl mine ↦
          rw
            (
              mine,
              settled-holds later late d reply now,
              free,
              late_rows later late reply now ds behind same,
            )
            refl
      | inr other ↦ rw (other, free, late_rows later late reply now ds behind same) refl
    ]
  ]

  -- The result of an attempt whose delivery another attempt was claimed for meanwhile is dropped:
  -- recording it leaves the deliveries that are under the lease of that later attempt as they are.
  pub record_outcome-late :
      {s w : World} (newer middle older : List Delivery) (later late : Delivery) (reply : Reply)
      → s.attempts ≡ []
      → All (λ (r : Delivery). ltb r.id s.db.next_delivery_id ≡ true) s.db.webhook_deliveries
      → Reach print sign s w
      → w.attempts ≡ newer ++ later ∷ (middle ++ late ∷ older)
      → later.id ≡ late.id
      → keep (holds later) (record_outcome print late reply w.now w.db).webhook_deliveries
        ≡ keep (holds later) w.db.webhook_deliveries
  unfolding record_outcome
  record_outcome-late {s} {w} newer middle older later late reply none_yet numbered past e same =
      let apart =
        Apart-split newer later (middle ++ late ∷ older)
          (rw (← e) (Reach-Apart none_yet numbered past)) in
      let behind : Follows later late = (All-split (Follows later) middle late older apart.2).1 in
      late_rows later late reply w.now w.db.webhook_deliveries behind same
