-- ===== src/Webhooks/Queue.antt =====
-- `claimDue`, `deliverDue` and `attemptDelivery` of src/webhooks.js. Times are milliseconds. What a
-- receiver answers, and when, is an argument. Each statement is atomic, as the row locks make it.
pub mod Due
pub mod Leases
pub mod Attempts
use twexthub.Shared.{
  ℕ, zero, suc, ◌+◌, String, Bool, true, false, not, ◌&&◌, ◌||◌, Option, none, some, List, [], ◌∷◌,
  ◌++◌, ◌==◌, nat_eq, if◌then◌else◌, ltb, leb, any, find, keep, map, take,
}
use twexthub.Shared.Rows.{update}
use twexthub.Db.{
  Db, Hook, Delivery, Progress, delivering, delivered, retrying, failed, is_waiting, is_delivering,
}
use twexthub.Notify.{concat}

-- DELIVERY_LEASE_MS
abbrev pub delivery_lease : ℕ
delivery_lease = 60000

-- DELIVERY_BATCH
abbrev pub delivery_batch : ℕ
delivery_batch = 50

-- RETRY_DELAYS_MS[attempt] ?? RETRY_DELAYS_MS.at(-1)
unfoldable pub retry_delay : ℕ → ℕ
retry_delay attempt =
    if attempt == 0
    then 0
    else if attempt == 1
    then 5000
    else if attempt == 2
    then 30000
    else 300000

-- next_attempt_at <= now, which NULL is not
abbrev pub is_over : ℕ → Option ℕ → Bool
is_over now none = false
is_over now (some t) = leb t now

abbrev pub is_unset : Option ℕ → Bool
is_unset none = true
is_unset (some t) = false

-- The WHERE clause of `claimable`.
unfoldable pub claimable : ℕ → Delivery → Bool
claimable now d =
    (is_waiting d.status && (is_unset d.next_attempt_at || is_over now d.next_attempt_at))
    || (is_delivering d.status && is_over now d.next_attempt_at)

-- next_attempt_at NULLS FIRST
abbrev pub comes_first : Option ℕ → Option ℕ → Bool
comes_first none t = true
comes_first (some s) none = false
comes_first (some s) (some t) = leb s t

unfoldable pub insert_due : Delivery → List Delivery → List Delivery
insert_due d [] = d ∷ []
insert_due d (e ∷ es) =
    if comes_first d.next_attempt_at e.next_attempt_at then d ∷ e ∷ es else e ∷ insert_due d es

-- ORDER BY next_attempt_at NULLS FIRST, in the order of the table where the times are equal
unfoldable pub order_due : List Delivery → List Delivery
unfolding insert_due
order_due [] = []
order_due (d ∷ ds) = insert_due d (order_due ds)

-- A row that a claim returned: the delivery after the UPDATE, and its hook's url.
pub record Claim : Type 0 where
  pub delivery : Delivery
  pub url : String

abbrev pub leased : ℕ → Delivery → Delivery
leased now d = record d { status = delivering; next_attempt_at = some (now + delivery_lease) }

abbrev hook_of : List Hook → Delivery → Option Hook
hook_of hooks d = find (λ h. h.id == d.webhook_id) hooks

-- The rows of `claimable` that join a hook.
abbrev pub joined : ℕ → List Hook → List Delivery → List Claim
joined now hooks [] = []
joined now hooks (d ∷ ds) = elim (hook_of hooks d) [
  | none ↦ joined now hooks ds
  | some h ↦ record { delivery = leased now d; url = h.url } ∷ joined now hooks ds
]

abbrev pub is_claimed : List Claim → Delivery → Bool
is_claimed claims d = any (λ c. c.delivery.id == d.id) claims

unfoldable pub due : ℕ → ℕ → List Delivery → List Delivery
unfolding claimable order_due
due now limit deliveries = take limit (order_due (keep (claimable now) deliveries))

-- claimDue
unfoldable pub claim_due : ℕ → ℕ → Db → Db × List Claim
unfolding due
claim_due now limit db =
    let claims = joined now db.webhooks (due now limit db.webhook_deliveries) in
    (
      record db {
        webhook_deliveries = update (is_claimed claims) (leased now) db.webhook_deliveries;
      },
      claims,
    )

-- What an attempt came to: the status code of the answer, or the message of the error that was
-- thrown by the check of the address or by the request.
pub data Reply : Type 0 where
  code : ℕ → Reply
  thrown : String → Reply

-- res.statusCode >= 200 && res.statusCode < 300
abbrev pub is_success : Reply → Bool
is_success (code n) = leb 200 n && ltb n 300
is_success (thrown message) = false

-- The `WHERE` of the outcome's UPDATE: the row is still under the lease of this claim.
abbrev pub same_time : Option ℕ → Option ℕ → Bool
same_time (some s) (some t) = s == t
same_time _ _ = false

unfoldable pub holds : Delivery → Delivery → Bool
holds claimed d =
    d.id == claimed.id
    && is_delivering d.status
    && same_time d.next_attempt_at claimed.next_attempt_at

-- attempt < delivery.max_attempts, where it failed
abbrev pub is_retrying : Delivery → Reply → Bool
is_retrying claimed reply = not (is_success reply) && ltb (claimed.attempt + 1) claimed.max_attempts

pub record Attempted : Type 0 where
  pub id : ℕ
  pub success : Bool
  pub retrying : Bool

-- One turn of the loop: the clock at the claim, and the attempt's end.
pub record Turn : Type 0 where
  pub claimed_at : ℕ
  pub reply : Reply
  pub completed_at : ℕ

-- UPDATE webhooks SET last_delivery_status, whether or not the claim still holds its row
unfoldable pub report : Delivery → Reply → List Hook → List Hook
report claimed reply hooks =
    if is_success reply || is_retrying claimed reply
    then update (λ h. h.id == claimed.webhook_id)
        (λ h. record h { last_delivery_status = some (if is_success reply then "ok" else "error") })
        hooks
    else hooks

module _ (print : ℕ → String) where
  -- error: `HTTP ${res.status}`, or the message
  unfoldable pub error_text : Reply → String
  unfolding concat
  error_text (code n) = concat ("HTTP " ∷ print n ∷ [])
  error_text (thrown message) = message

  -- The SET of the outcome's UPDATE.
  unfoldable pub settled : Delivery → Reply → (completed_at : ℕ) → Delivery → Delivery
  unfolding retry_delay error_text
  settled claimed reply completed_at d = record d {
    status =
        if is_success reply
        then delivered
        else if is_retrying claimed reply
        then retrying
        else failed;
    attempt = claimed.attempt + 1;
    last_error = if is_success reply then none else some (error_text reply);
    next_attempt_at =
        if is_retrying claimed reply
        then some (completed_at + retry_delay (claimed.attempt + 1))
        else none;
  }

  -- attemptDelivery, from the end of the attempt on
  unfoldable pub record_outcome : Delivery → Reply → (completed_at : ℕ) → Db → Db
  unfolding holds settled report
  record_outcome claimed reply completed_at db = record db {
    webhook_deliveries =
        update (holds claimed) (settled claimed reply completed_at) db.webhook_deliveries;
    webhooks = report claimed reply db.webhooks;
  }

  -- One turn, from the claim on: no row ends the pass, and a row is attempted before `rest`.
  abbrev pub after_claim : Turn → (Db → Db × List Attempted) → Db × List Claim → Db × List Attempted
  after_claim t rest (db, []) = (db, [])
  after_claim t rest (db, c ∷ cs) =
      let (db', results) = rest (record_outcome c.delivery t.reply t.completed_at db) in
      (
        db',
        record {
          id = c.delivery.id;
          success = is_success t.reply;
          retrying = is_retrying c.delivery t.reply;
        }
            ∷ results,
      )

  -- The turns of one pass, at most one for each attempt of the batch.
  unfoldable pub deliver_turns : List Turn → Db → Db × List Attempted
  deliver_turns [] db = (db, [])
  deliver_turns (t ∷ turns) db = after_claim t (deliver_turns turns) (claim_due t.claimed_at 1 db)

  -- deliverDue
  unfoldable pub deliver_due : List Turn → Db → Db × List Attempted
  unfolding deliver_turns claim_due record_outcome
  deliver_due turns db = deliver_turns (take delivery_batch turns) db
