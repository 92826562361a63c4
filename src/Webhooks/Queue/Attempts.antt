-- ===== src/Webhooks/Queue/Attempts.antt =====
-- How often a delivery is tried, when, and what ends it.
use twexthub.Shared.{
  ℕ, ◌+◌, ◌≤◌, ◌<◌, ◌≡◌, ◌⊎◌, refl, String, Bool, true, false, ◌&&◌, ◌||◌, some, List, [], ◌∷◌,
  arith, Bool-cases, inl, inr, find, ◌==◌, nat_eq, ltb, leb→le, any, length, ap, ◌∙◌, string_eq,
  ==_refl,
}
use twexthub.Shared.Rows.{update}
use twexthub.Db.{Db, Hook, Delivery, Progress, delivered, failed}
use twexthub.Webhooks.Queue.Due.{update-none}
use twexthub.Webhooks.Queue.{
  Claim, Reply, claimable, claim_due, due, order_due, insert_due, joined, leased, record_outcome,
  settled, holds, retry_delay, is_success, is_retrying, Turn, after_claim, deliver_turns, report,
  delivery_lease,
}

abbrev pub is_final : Progress → Bool
is_final delivered = true
is_final failed = true
is_final _ = false

abbrev pub is_failed : Progress → Bool
is_failed failed = true
is_failed _ = false

retry_delay-le : (n : ℕ) → 5000 ≤ retry_delay (n + 1)
unfolding retry_delay
retry_delay-le n = ground arith

any-update :
    {A : Type 0} (q p : A → Bool) (f : A → A) (xs : List A)
    → ((x : A) → q (f x) ≡ q x)
    → any q (update p f xs) ≡ any q xs
any-update q p f [] same = refl
any-update q p f (x ∷ xs) same = elim (Bool-cases (p x)) [
  | inl e ↦ rw (e, same x, any-update q p f xs same) refl
  | inr e ↦ rw (e, any-update q p f xs same) refl
]

find-any :
    {A : Type 0} (q : A → Bool) (xs : List A) → any q xs ≡ true → (x : A) × (find q xs ≡ some x)
find-any q [] h = cc
find-any q (x ∷ xs) h = elim (Bool-cases (q x)) [
  | inl e ↦ rw e (x, refl)
  | inr e ↦ rw e (find-any q xs (ground arith))
]

module _ (print : ℕ → String) where
  -- A delivery whose attempt failed waits: if a recorded outcome leaves a delivery that can be claimed
  -- at a time, then the attempt had failed, fewer attempts than the maximum were made, and the delay
  -- of the next attempt has passed since that one ended, which is five seconds at least.
  pub settled-backoff :
      (claimed d : Delivery) (reply : Reply) (completed_at now : ℕ)
      → claimable now (settled print claimed reply completed_at d) ≡ true
      → (is_success reply ≡ false)
        × (claimed.attempt + 1 < claimed.max_attempts)
        × (completed_at + retry_delay (claimed.attempt + 1) ≤ now)
        × (completed_at + 5000 ≤ now)
  unfolding settled claimable
  settled-backoff claimed d reply completed_at now h = elim (Bool-cases (is_success reply)) [
    | inl e ↦ let stuck = rw (e, ◌&&◌) at h in cc
    | inr e ↦ elim (Bool-cases (ltb (claimed.attempt + 1) claimed.max_attempts)) [
      | inl more ↦
          let late : completed_at + retry_delay (claimed.attempt + 1) ≤ now =
            leb→le (completed_at + retry_delay (claimed.attempt + 1)) now (ground arith) in
          (e, ground arith, late, omega (arith, late, retry_delay-le claimed.attempt))
      | inr last ↦ let stuck = rw (e, last, ◌&&◌) at h in cc
    ]
  ]

  -- The delivery after one turn that claimed it.
  abbrev pub after : Turn → Delivery → Delivery
  after t d = settled print (leased t.claimed_at d) t.reply t.completed_at (leased t.claimed_at d)

  -- Each turn comes when the delivery is due, until it is over.
  abbrev pub OnTime : List Turn → Delivery → Type 0
  OnTime [] d = Unit
  OnTime (t ∷ turns) d =
      (is_final d.status ≡ true) ⊎ ((claimable t.claimed_at d ≡ true) × OnTime turns (after t d))

update-hit :
    {A : Type 0} (p : A → Bool) (f : A → A) (x : A) → p x ≡ true → update p f (x ∷ []) ≡ f x ∷ []
update-hit p f x h = rw h refl

holds_self : (now : ℕ) (d : Delivery) → holds (leased now d) (leased now d) ≡ true
unfolding holds
holds_self now d = ground (arith, ==_refl d.id, ==_refl (now + delivery_lease))

claim_final : (now : ℕ) (d : Delivery) → is_final d.status ≡ true → claimable now d ≡ false
unfolding claimable
claim_final now d h = ground arith

due_none : (now : ℕ) (d : Delivery) → claimable now d ≡ false → due now 1 (d ∷ []) ≡ []
unfolding due order_due
due_none now d h = ground arith

due_one : (now : ℕ) (d : Delivery) → claimable now d ≡ true → due now 1 (d ∷ []) ≡ d ∷ []
unfolding due order_due insert_due
due_one now d h = ground arith

claim_none :
    (now : ℕ) (db : Db) → due now 1 db.webhook_deliveries ≡ [] → claim_due now 1 db ≡ (db, [])
unfolding claim_due
claim_none now db h = rw (h, update-none) refl

claim_one :
    (now : ℕ) (d : Delivery) (hook : Hook) (db : Db)
    → due now 1 db.webhook_deliveries ≡ d ∷ []
    → find (λ h. h.id == d.webhook_id) db.webhooks ≡ some hook
    → claim_due now 1 db ≡ (
      record db {
        webhook_deliveries = update (λ r. d.id == r.id || false) (leased now) db.webhook_deliveries;
      },
      record { delivery = leased now d; url = hook.url } ∷ [],
    )
unfolding claim_due
claim_one now d hook db h found = rw (h, found, joined) refl

module _ (print : ℕ → String) where
  deliver_turns-final :
      (turns : List Turn) (d : Delivery) (db : Db)
      → db.webhook_deliveries ≡ d ∷ []
      → is_final d.status ≡ true
      → (deliver_turns print turns db).0.webhook_deliveries ≡ d ∷ []
  unfolding deliver_turns
  deliver_turns-final [] d db only h = only
  deliver_turns-final (t ∷ turns) d db only h =
      let nothing =
        claim_none t.claimed_at db
          (rw only (due_none t.claimed_at d (claim_final t.claimed_at d h))) in
      ap
        (λ (r : Db × List Claim).
          (after_claim print t (deliver_turns print turns) r).0.webhook_deliveries)
        nothing
      ∙ only

  -- The tables after one turn that claimed the only delivery.
  turned : Turn → Delivery → Db → Db
  turned t d db = record_outcome print (leased t.claimed_at d) t.reply t.completed_at (record db {
    webhook_deliveries =
        update (λ r. d.id == r.id || false) (leased t.claimed_at) db.webhook_deliveries;
  })

  turned-deliveries :
      (t : Turn) (d : Delivery) (db : Db)
      → db.webhook_deliveries ≡ d ∷ []
      → (turned t d db).webhook_deliveries ≡ after print t d ∷ []
  unfolding turned record_outcome
  turned-deliveries t d db only = rw only (
      ap
        (update (holds (leased t.claimed_at d))
          (settled print (leased t.claimed_at d) t.reply t.completed_at))
        (update-hit (λ r. d.id == r.id || false) (leased t.claimed_at) d (rw (==_refl d.id) refl))
      ∙ update-hit (holds (leased t.claimed_at d))
          (settled print (leased t.claimed_at d) t.reply t.completed_at) (leased t.claimed_at d)
          (holds_self t.claimed_at d))

  turned-webhooks :
      (t : Turn) (d : Delivery) (db : Db)
      → any (λ h. h.id == d.webhook_id) (turned t d db).webhooks
        ≡ any (λ h. h.id == d.webhook_id) db.webhooks
  unfolding turned record_outcome report
  turned-webhooks t d db = elim (Bool-cases (is_success t.reply || is_retrying d t.reply)) [
    | inl e ↦ rw e (any-update (λ h. h.id == d.webhook_id) _ _ db.webhooks (λ h. refl))
    | inr e ↦ rw e refl
  ]

  after-final :
      (t : Turn) (d : Delivery)
      → (is_final (after print t d).status ≡ true)
        ⊎ ((after print t d).attempt + 1 ≤ (after print t d).max_attempts)
  unfolding settled
  after-final t d = elim (Bool-cases (is_success t.reply)) [
    | inl e ↦ inl (rw e refl)
    | inr e ↦ elim (Bool-cases (ltb (d.attempt + 1) d.max_attempts)) [
      | inl more ↦ inr (ground arith)
      | inr last ↦ inl (rw (e, last, ◌&&◌) refl)
    ]
  ]

  after_fields :
      (t : Turn) (d : Delivery)
      → ((after print t d).attempt ≡ d.attempt + 1)
        × ((after print t d).max_attempts ≡ d.max_attempts)
        × ((after print t d).webhook_id ≡ d.webhook_id)
  unfolding settled
  after_fields t d = (refl, refl, refl)

  -- Every delivery comes to an end: if the table holds one delivery, whose hook is there and which is
  -- over or has an attempt left, and the worker gets to it whenever it is due, then after as many turns
  -- as it has attempts left it is delivered or failed for good, whatever the receiver answers.
  pub deliver_turns-ends :
      (turns : List Turn) (d : Delivery) (db : Db)
      → db.webhook_deliveries ≡ d ∷ []
      → any (λ h. h.id == d.webhook_id) db.webhooks ≡ true
      → (is_final d.status ≡ true) ⊎ (d.attempt + 1 ≤ d.max_attempts)
      → OnTime print turns d
      → d.max_attempts ≤ d.attempt + length turns
      → (e : Delivery) × ((deliver_turns print turns db).0.webhook_deliveries ≡ e ∷ [])
        × (is_final e.status ≡ true)
  unfolding deliver_turns turned
  deliver_turns-ends turns d db only hooked (inl over) on_time enough =
      (d, deliver_turns-final turns d db only over, over)
  deliver_turns-ends [] d db only hooked (inr left) on_time enough = absurd (omega arith)
  deliver_turns-ends (t ∷ turns) d db only hooked (inr left) (inl over) enough =
      (d, deliver_turns-final (t ∷ turns) d db only over, over)
  deliver_turns-ends (t ∷ turns) d db only hooked (inr left) (inr (ready, on_time)) enough =
      let (hook, found) = find-any (λ h. h.id == d.webhook_id) db.webhooks hooked in
      let claims =
        claim_one t.claimed_at d hook db (rw only (due_one t.claimed_at d ready)) found in
      let (tried, bound, owner) = after_fields t d in
      let hooked' = turned-webhooks t d db ∙ hooked in
      let (e, rows, final) =
        deliver_turns-ends turns (after print t d) (turned t d db) (turned-deliveries t d db only)
          (rw owner hooked') (after-final t d) on_time (omega (arith, tried, bound, enough)) in
      (
        e,
        ap
              (λ (r : Db × List Claim).
                (after_claim print t (deliver_turns print turns) r).0.webhook_deliveries)
              claims
            ∙ rows,
        final,
      )
