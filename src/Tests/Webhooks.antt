-- ===== src/Tests/Webhooks.antt =====
-- Destinations, scheduling and the queue of deliveries on a sample hook.
use twexthub.Shared.{
  ℕ, ◌+◌, ◌≤◌, ◌<◌, ◌≡◌, refl, String, true, false, none, some, [], ◌∷◌, ◌++◌, arith, inr, All, any,
  keep, ok, ltb, if◌then◌else◌,
}
use twexthub.Util.Regex.{codes}
use twexthub.Db.{Db, Hook, Delivery, pending, delivering}
use twexthub.Webhooks.Targets.{
  Url, Network, Target, is_private_v4, is_private_ip, host_of, same_codes,
  resolve_public_webhook_target,
}
use twexthub.Webhooks.Targets.Blocks.{v4_address, in_block, private_blocks, is_private_v4-eq-any}
use twexthub.Webhooks.Targets.Public.{resolve_public_webhook_target-public}
use twexthub.Webhooks.Messages.{Payload}
use twexthub.Webhooks.Queue.{
  code, Turn, claim_due, claimable, deliver_turns, holds, is_success, record_outcome, retry_delay,
  settled,
}
use twexthub.Webhooks.Queue.Attempts.{is_final, settled-backoff, deliver_turns-ends}
use twexthub.Webhooks.Queue.Leases.{World, Reach, Apart, waited, claimed, here, next, deliveries_of}
use twexthub.Webhooks.Queue.Leases.Overlap.{Reach-Apart, record_outcome-late}
use twexthub.Tests.Data.{registry}

is_private_v4-eq-any_example :
    is_private_v4 172 31 0 ≡ any (λ blk. in_block blk (v4_address 172 31 0 9)) private_blocks
is_private_v4-eq-any_example =
    is_private_v4-eq-any 172 31 0 9 (omega arith) (omega arith) (omega arith) (omega arith)

abbrev site : Url
site = record { protocol = "https:"; hostname = codes "Hooks.example" }

abbrev network : Network
network = record {
  parse_url = λ s. some site;
  is_ip = λ s. if same_codes s (codes "8.8.4.4") then 4 else 0;
  lookup = λ s. some (record { address = codes "8.8.4.4"; family = 4 } ∷ []);
}

abbrev destination : Target
destination = record { url = site; address = codes "8.8.4.4"; family = 4 }

resolved : resolve_public_webhook_target network "https://Hooks.example" ≡ ok destination
unfolding resolve_public_webhook_target
resolved = refl

resolve_public_webhook_target-public_example :
    (some site ≡ some site)
    × (site.protocol ≡ "https:")
    × (same_codes (host_of site) (codes "localhost") ≡ false)
    × (is_private_ip network (codes "8.8.4.4") ≡ false)
resolve_public_webhook_target-public_example =
    resolve_public_webhook_target-public network "https://Hooks.example" destination resolved

abbrev print : ℕ → String
print n = "500"

abbrev sign : String → Payload → String
sign secret body = secret

abbrev hook : Hook
hook = record {
  id = 1;
  namespace = "alice";
  extension_id = none;
  url = "https://Hooks.example";
  secret = "k";
  events = "version.yanked" ∷ [];
  active = true;
  last_delivery_status = none;
}

abbrev hooked : Db
hooked = record registry { webhooks = hook ∷ [] }

abbrev unsent : Delivery
unsent = record {
  id = 1;
  webhook_id = 1;
  event = "version.yanked";
  body = [];
  signature = "k";
  attempt = 0;
  max_attempts = 4;
  status = pending;
  next_attempt_at = none;
  last_error = none;
}

abbrev queued : Db
queued = record hooked { webhook_deliveries = unsent ∷ []; next_delivery_id = 2 }

abbrev idle : World
idle = record { db = queued; attempts = []; now = 5 }

-- Two workers, the second of them after the lease of the first ran out.
abbrev first_claim : World
first_claim = record idle {
  db = (claim_due 5 1 queued).0;
  attempts = deliveries_of (claim_due 5 1 queued).1 ++ [];
}

abbrev late : World
late = record first_claim { now = 60005 }

abbrev second_claim : World
second_claim = record late {
  db = (claim_due 60005 1 late.db).0;
  attempts = deliveries_of (claim_due 60005 1 late.db).1 ++ late.attempts;
}

abbrev past : Reach print sign idle second_claim
past = next (next (next here claimed) (waited 60005 (omega arith))) claimed

numbered : All (λ (r : Delivery). ltb r.id 2 ≡ true) (unsent ∷ [])
numbered = (refl, tt)

Reach-Apart_example : Apart second_claim.attempts
Reach-Apart_example = Reach-Apart print sign {s = idle} {w = second_claim} refl numbered past

abbrev by_first : Delivery
by_first = record unsent { status = delivering; next_attempt_at = some 60005 }

abbrev by_second : Delivery
by_second = record unsent { status = delivering; next_attempt_at = some 120005 }

both_run : second_claim.attempts ≡ [] ++ by_second ∷ ([] ++ by_first ∷ [])
unfolding claim_due
both_run = refl

record_outcome-late_example :
    keep
      (holds by_second)
      (record_outcome print by_first (code 500) 60005 second_claim.db).webhook_deliveries
    ≡ keep (holds by_second) second_claim.db.webhook_deliveries
record_outcome-late_example =
    record_outcome-late print sign {s = idle} {w = second_claim} [] [] [] by_second by_first
      (code 500) refl numbered past both_run refl

waits : claimable 5007 (settled print by_first (code 500) 7 by_first) ≡ true
unfolding claimable settled
waits = refl

settled-backoff_example :
    (is_success (code 500) ≡ false) × (1 < 4) × (7 + retry_delay 1 ≤ 5007) × (7 + 5000 ≤ 5007)
settled-backoff_example = settled-backoff print by_first by_first (code 500) 7 5007 waits

abbrev last_try : Delivery
last_try = record unsent { attempt = 3 }

abbrev turn : Turn
turn = record { claimed_at = 5; reply = code 500; completed_at = 9 }

ready : claimable 5 last_try ≡ true
unfolding claimable
ready = refl

deliver_turns-ends_example :
    (e : Delivery) × ((deliver_turns print
        (turn ∷ [])
        (record queued { webhook_deliveries = last_try ∷ [] })).0.webhook_deliveries
      ≡ e ∷ [])
    × (is_final e.status ≡ true)
deliver_turns-ends_example =
    deliver_turns-ends print (turn ∷ []) last_try
      (record queued { webhook_deliveries = last_try ∷ [] }) refl refl (inr (omega arith))
      (inr (ready, tt)) (omega arith)
