-- ===== src/Notify.antt =====
-- src/notify.js and src/audit.js: the notifications and the audit trail that an operation writes.
pub mod Frame
use Prim.Native.String
use twexthub.Shared.{
  ℕ, String, Bool, true, false, ◌&&◌, Option, none, some, List, [], ◌∷◌, ◌++◌, map, keep, any, ◌==◌,
  nat_eq, if◌then◌else◌,
}
use twexthub.Db.{Db, User, Notification, AuditEntry, Datum, Membership, is_organization}

-- A template literal: its pieces in order.
unfoldable pub concat : List String → String
concat [] = ""
concat (s ∷ ss) = String.◌++◌ s (concat ss)

-- @namespace/id
unfoldable pub address_text : String → String → String
unfolding concat
address_text namespace id = concat ("@" ∷ namespace ∷ "/" ∷ id ∷ [])

abbrev Payload : Type 0
Payload = List (String × Datum)

abbrev pub note_for : String → String → Payload → ℕ → Notification
note_for kind message payload user_id = record {
  user_id = user_id;
  kind = kind;
  message = message;
  payload = payload;
}

unfoldable pub notify_user : ℕ → String → String → List (String × Datum) → Db → Db
notify_user user_id kind message payload db = record db {
  notifications = db.notifications ++ note_for kind message payload user_id ∷ [];
}

-- INSERT INTO notifications SELECT .. FROM users WHERE ..
unfoldable pub notify_users_matching :
    (User → Bool) → String → String → List (String × Datum) → Db → Db
notify_users_matching where_test kind message payload db = record db {
  notifications =
      db.notifications ++ map (λ u. note_for kind message payload u.id) (keep where_test db.users);
}

-- An organization's message goes to each account on its owner list.
unfoldable pub notify_owner_candidate : User → String → String → List (String × Datum) → Db → Db
unfolding notify_user notify_users_matching
notify_owner_candidate candidate kind message payload db =
    if is_organization candidate.kind
    then notify_users_matching
        (λ u.
          any (λ (g : Membership). g.org_id == candidate.id && g.user_id == u.id)
            db.organization_owners)
        kind message payload db
    else notify_user candidate.id kind message payload db

unfoldable pub audit :
    User → String → (namespace id version : Option String) → List (String × Datum) → Db → Db
audit actor action namespace id version detail db = record db {
  audit_log =
      db.audit_log
      ++ record {
        actor_id = some actor.id;
        actor_namespace = actor.namespace;
        action = action;
        target_namespace = namespace;
        target_id = id;
        target_version = version;
        detail = detail;
      }
        ∷ [];
}

module _ (actor namespace id : String) where
  unfoldable pub added_as_owner_message : String
  unfolding concat address_text
  added_as_owner_message =
      concat
        ("You can now manage " ∷ address_text namespace id ∷ " (added by @" ∷ actor ∷ ")." ∷ [])

  unfoldable pub removed_as_owner_message : String
  unfolding concat address_text
  removed_as_owner_message =
      concat (
        "You were removed as an owner of " ∷ address_text namespace id ∷ " by @" ∷ actor ∷ "." ∷ [])

  unfoldable pub invited_as_owner_message : String
  unfolding concat address_text
  invited_as_owner_message = concat (
      "You can now accept management of "
      ∷ address_text namespace id
      ∷ ", invited by @"
      ∷ actor
      ∷ "."
      ∷ [])

  unfoldable pub withdrawn_as_owner_message : String
  unfolding concat address_text
  withdrawn_as_owner_message = concat (
      "The invitation to manage "
      ∷ address_text namespace id
      ∷ " was withdrawn by @"
      ∷ actor
      ∷ "."
      ∷ [])

  unfoldable pub transfer_requested_message : String → String
  unfolding concat address_text
  transfer_requested_message to = concat (
      address_text namespace id
      ∷ " was offered to @"
      ∷ to
      ∷ " by @"
      ∷ actor
      ∷ ". Accept it to take the extension over."
      ∷ [])

  -- transferOutcomeMessage(.., 'accepted')
  unfoldable pub transfer_accepted_message : String → String
  unfolding concat address_text
  transfer_accepted_message to = concat (
      address_text namespace id
      ∷ " now belongs to @"
      ∷ to
      ∷ ", accepted by @"
      ∷ actor
      ∷ ". The old address redirects."
      ∷ [])

  -- transferOutcomeMessage(.., 'withdrawn')
  unfoldable pub transfer_withdrawn_message : String → String
  unfolding concat address_text
  transfer_withdrawn_message to = concat (
      "The transfer of "
      ∷ address_text namespace id
      ∷ " to @"
      ∷ to
      ∷ " was withdrawn by @"
      ∷ actor
      ∷ "."
      ∷ [])

unfoldable pub review_approved_message : (namespace id version : String) → String
unfolding concat address_text
review_approved_message namespace id version = concat (
    id
    ∷ "@"
    ∷ version
    ∷ " was approved and is live. View it at "
    ∷ address_text namespace id
    ∷ "."
    ∷ [])

-- `reason` is trimmed by the caller's `trim`.
unfoldable pub review_rejected_message : (id version reason : String) → String
unfolding concat
review_rejected_message id version reason =
    concat (id ∷ "@" ∷ version ∷ " was rejected: " ∷ reason ∷ [])
