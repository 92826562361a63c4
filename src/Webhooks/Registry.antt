-- ===== src/Webhooks/Registry.antt =====
-- `makeWebhooks` of src/webhooks.js: creating and removing hooks, and scheduling an event's deliveries,
-- with the two routes of src/routes/packages.js around the hooks of an extension. The random secret, the
-- HMAC and the parser of URLs are parameters. A body is kept as its fields, of which `allowed_mentions`,
-- the same empty list in every delivery, is left out.
pub mod Bodies
pub mod Scheduling
use twexthub.Shared.{
  ℕ, ◌+◌, String, Bool, true, false, not, ◌&&◌, ◌||◌, Option, none, some, List, [], ◌∷◌, ◌++◌, ◌==◌,
  nat_eq, string_eq, if◌then◌else◌, any, all, keep, map, Result, ok, err, require, present, ◌>>=◌,
  ◌>>◌,
}
use twexthub.Shared.Rows.{delete}
use twexthub.Db.{Db, Hook, Delivery, Address, surviving, pending}
use twexthub.Http.Errors.{FieldError, field_errors, forbidden, not_found}
use twexthub.Access.Credentials.{Auth}
use twexthub.Access.Guards.{Answered}
use twexthub.Transfer.Offers.{is_empty}
use twexthub.Packages.Requests.{
  Field, text, scope_chain, valid_address, object_body, is_extension_owner,
}
use twexthub.Packages.Publish.{crash}
use twexthub.Webhooks.Targets.{Network, resolve_public_webhook_target}
use twexthub.Webhooks.Messages.{Payload, is_valid_webhook_event, render_webhook_message}

-- a IS NOT DISTINCT FROM b
abbrev pub same_extension : Option String → Option String → Bool
same_extension none none = true
same_extension (some a) (some b) = a == b
same_extension _ _ = false

-- The body's `events`: no array, or an array, with `none` for an item that is no string.
pub data Events : Type 0 where
  no_array : Events
  array : List (Option String) → Events

pub record Input : Type 0 where
  pub events : Events
  pub url : Field
  pub active : Bool

abbrev is_event : Option String → Bool
is_event none = false
is_event (some event) = is_valid_webhook_event event

abbrev given : List (Option String) → List String
given [] = []
given (none ∷ items) = given items
given (some event ∷ items) = event ∷ given items

unfoldable pub are_events : Events → Bool
unfolding is_valid_webhook_event
are_events no_array = false
are_events (array items) = not (is_empty items) && all is_event items

abbrev event_list : Events → List String
event_list no_array = []
event_list (array items) = given items

abbrev url_text : Field → String
url_text (text url) = url
url_text _ = ""

abbrev input_error : String → String → FieldError
input_error field message = record { field = field; message = message }

unfoldable pub input_errors : Input → List FieldError
unfolding are_events
input_errors input =
    (if are_events input.events
      then []
      else input_error "events" "Must be a non-empty array of supported events." ∷ [])
    ++ (if url_text input.url == "" then input_error "url" "URL is required." ∷ [] else [])

abbrev checked : {A : Type 0} → Result String A → Result (List FieldError) A
checked (ok a) = ok a
checked (err message) = err (input_error "url" message ∷ [])

-- create: an error is the fields of the WebhookInputError
unfoldable pub create :
    Network
    → (id : ℕ) → (secret : String) → String
    → Option String
    → Input
    → Db
    → Result (List FieldError) (Hook × Db)
unfolding input_errors resolve_public_webhook_target
create net id secret namespace extension_id input db = do
  require (is_empty (input_errors input)) (input_errors input)
  target ← checked (resolve_public_webhook_target net (url_text input.url))
  let hook : Hook = record {
    id = id;
    namespace = namespace;
    extension_id = extension_id;
    url = url_text input.url;
    secret = secret;
    events = event_list input.events;
    active = input.active;
    last_delivery_status = none;
  }
  ok (hook, record db { webhooks = db.webhooks ++ hook ∷ [] })

abbrev pub is_named : String → Option String → ℕ → Hook → Bool
is_named namespace extension_id id h =
    h.id == id && h.namespace == namespace && same_extension h.extension_id extension_id

unfoldable pub remove : String → Option String → ℕ → Db → Db × Bool
remove namespace extension_id id db =
    let gone = is_named namespace extension_id id in
    (
      record db {
        webhooks = delete gone db.webhooks;
        webhook_deliveries = surviving gone db.webhooks db.webhook_deliveries;
      },
      any gone db.webhooks,
    )

-- active AND event = ANY (events), for the extension or for its whole namespace
unfoldable pub listens : Address → String → Hook → Bool
listens a event h =
    h.namespace == a.namespace
    && (elim h.extension_id [ none ↦ true | some id ↦ id == a.id ])
    && h.active
    && any (λ e. e == event) h.events

-- { ...fields, [key]: value }: a key that is there keeps its place
abbrev pub assign : String → String → Payload → Payload
assign key value [] = (key, value) ∷ []
assign key value ((k, v) ∷ rest) =
    if k == key then (k, value) ∷ rest else (k, v) ∷ assign key value rest

abbrev pub spread : Payload → Payload → Payload
spread fields [] = fields
spread fields ((k, v) ∷ rest) = spread (assign k v fields) rest

unfoldable pub body_of : Address → String → Payload → String → Payload
body_of a event base message = assign "text" message (
    assign "content" message (
      assign "message" message
        (spread (("event", event) ∷ ("namespace", a.namespace) ∷ ("id", a.id) ∷ []) base)))

module _ (sign : String → Payload → String) where
  -- The row that the INSERT adds for one hook.
  unfoldable pub delivery_for : ℕ → Address → String → Payload → String → Hook → Delivery
  unfolding body_of
  delivery_for id a event base message hook = record {
    id = id;
    webhook_id = hook.id;
    event = event;
    body = body_of a event base message;
    signature = sign hook.secret (body_of a event base message);
    attempt = 0;
    max_attempts = 4;
    status = pending;
    next_attempt_at = none;
    last_error = none;
  }

  -- The loop over the hooks; an error of the rendering ends it, and is only logged.
  unfoldable pub schedule_each : Address → String → Payload → List Hook → Db → Db
  unfolding render_webhook_message delivery_for
  schedule_each a event base [] db = db
  schedule_each a event base (hook ∷ hooks) db =
      elim (render_webhook_message event a.namespace a.id base) [
        | none ↦ db
        | some message ↦ schedule_each a event base hooks (record db {
          webhook_deliveries =
              db.webhook_deliveries
              ++ delivery_for db.next_delivery_id a event base message hook ∷ [];
          next_delivery_id = db.next_delivery_id + 1;
        })
      ]

  unfoldable pub schedule_for : Address → String → Payload → Db → Db
  unfolding schedule_each listens
  schedule_for a event base db = schedule_each a event base (keep (listens a event) db.webhooks) db

abbrev pub as_fields : {A : Type 0} → Result (List FieldError) A → Answered A
as_fields (ok a) = ok a
as_fields (err fields) = err (field_errors fields)

-- POST /@:namespace/:id/webhooks
unfoldable pub create_extension_webhook :
    Network
    → (id : ℕ) → (secret : String) → Option ℕ
    → Option Auth
    → (is_object : Bool) → Address
    → Input
    → Db
    → Answered (Hook × Db)
unfolding scope_chain valid_address is_extension_owner create
create_extension_webhook net id secret terms caller is_object a input db = do
  auth ← scope_chain "publish" terms caller
  valid_address a
  require (is_extension_owner db auth.user a)
      (forbidden "Only an owner or an admin can create webhooks.")
  object_body is_object
  as_fields (create net id secret a.namespace (some a.id) input db)

-- DELETE /@:namespace/:id/webhooks/:webhookId, where `none` is a last part that is no integer: the
-- query then fails.
unfoldable pub remove_extension_webhook :
    Option ℕ → Option Auth → Address → (webhook_id : Option ℕ) → Db → Answered Db
unfolding scope_chain valid_address is_extension_owner remove
remove_extension_webhook terms caller a webhook_id db = do
  auth ← scope_chain "publish" terms caller
  valid_address a
  require (is_extension_owner db auth.user a)
      (forbidden "Only an owner or an admin can delete webhooks.")
  id ← present webhook_id crash
  require (remove a.namespace (some a.id) id db).1 (not_found "Not found.")
  ok (remove a.namespace (some a.id) id db).0
