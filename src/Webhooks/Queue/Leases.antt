-- ===== src/Webhooks/Queue/Leases.antt =====
-- Workers side by side: two attempts of one delivery overlap only after the lease of the first ran out.
pub mod Claims
pub mod Outcomes
pub mod Overlap
use twexthub.Shared.{
  ℕ, ◌+◌, ◌≤◌, ◌≡◌, ◌⊎◌, refl, String, Bool, true, false, not, ◌&&◌, ◌||◌, Option, none, some, List,
  [], ◌∷◌, ◌++◌, arith, Bool-cases, inl, inr, All, All-append, All-imp, All-keep, find, keep, take,
  if◌then◌else◌, ◌==◌, nat_eq, ltb, string_eq,
}
use twexthub.Shared.Rows.{update}
use twexthub.Db.{Db, Hook, Delivery, Address, is_waiting, is_delivering}
use twexthub.Webhooks.Messages.{Payload}
use twexthub.Webhooks.Registry.{schedule_for, schedule_each, delivery_for, remove}
use twexthub.Webhooks.Queue.{
  Claim, Reply, claimable, claim_due, due, joined, leased, is_claimed, delivery_lease,
  record_outcome, settled, holds, retry_delay,
}
use twexthub.Webhooks.Queue.Due.{due-All, due-One, update-none}

-- The tables, the attempts under way, the newest first, and the clock that all workers read.
pub record World : Type 0 where
  pub db : Db
  pub attempts : List Delivery
  pub now : ℕ

abbrev pub deliveries_of : List Claim → List Delivery
deliveries_of [] = []
deliveries_of (c ∷ cs) = c.delivery ∷ deliveries_of cs

module _ (print : ℕ → String) (sign : String → Payload → String) where
  -- What may happen next: time passes, an event is scheduled, a hook is removed, a worker claims a
  -- delivery, an attempt ends and its outcome is recorded, or it is lost with its worker.
  pub data Step (w : World) : World → Type 0 where
    waited : (t : ℕ) → w.now ≤ t → Step w (record w { now = t })
    scheduled :
        (a : Address) (event : String) (base : Payload)
        → Step w (record w { db = schedule_for sign a event base w.db })
    removed :
        (namespace : String) (extension_id : Option String) (id : ℕ)
        → Step w (record w { db = (remove namespace extension_id id w.db).0 })
    claimed : Step w (record w {
      db = (claim_due w.now 1 w.db).0;
      attempts = deliveries_of (claim_due w.now 1 w.db).1 ++ w.attempts;
    })
    ended :
        (newer older : List Delivery) (c : Delivery) (reply : Reply)
        → w.attempts ≡ newer ++ c ∷ older
        → Step w
            (record w { db = record_outcome print c reply w.now w.db; attempts = newer ++ older })
    lost :
        (newer older : List Delivery) (c : Delivery)
        → w.attempts ≡ newer ++ c ∷ older
        → Step w (record w { attempts = newer ++ older })

  pub data Reach (s : World) : World → Type 0 where
    here : Reach s s
    next : {w v : World} → Reach s w → Step w v → Reach s v

abbrev pub time_of : Option ℕ → ℕ
time_of none = 0
time_of (some t) = t

abbrev pub deadline : Delivery → ℕ
deadline d = time_of d.next_attempt_at

-- An older attempt of the same delivery was over its lease when the newer one was claimed.
abbrev pub Follows : Delivery → Delivery → Type 0
Follows newer older =
    (if newer.id == older.id then deadline older + delivery_lease else 0) ≤ deadline newer

abbrev pub Apart : List Delivery → Type 0
Apart [] = Unit
Apart (c ∷ cs) = All (Follows c) cs × Apart cs

-- Where a row and an attempt of it stand: no attempt outlasts the lease of the row, and an attempt of a
-- row that waits is over its lease.
abbrev pub Behind : ℕ → Delivery → Delivery → Type 0
Behind now d c =
    ((if c.id == d.id && is_delivering d.status then deadline c else 0) ≤ deadline d)
    × ((if c.id == d.id && is_waiting d.status then deadline c else 0) ≤ now)

pub record IsLeased (w : World) : Type 0 where
  pub rows : All (λ (d : Delivery). All (Behind w.now d) w.attempts) w.db.webhook_deliveries
  pub apart : Apart w.attempts
  pub near : All (λ (c : Delivery). deadline c ≤ w.now + delivery_lease) w.attempts
  pub numbered :
      All (λ (d : Delivery). ltb d.id w.db.next_delivery_id ≡ true) w.db.webhook_deliveries
  pub known : All (λ (c : Delivery). ltb c.id w.db.next_delivery_id ≡ true) w.attempts
