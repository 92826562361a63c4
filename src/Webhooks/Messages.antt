-- ===== src/Webhooks/Messages.antt =====
-- `renderWebhookMessage` of src/webhooks.js. A payload is its fields in order, all of them texts.
use twexthub.Shared.{
  String, Bool, true, false, Option, none, some, List, [], ◌∷◌, ◌==◌, string_eq, if◌then◌else◌,
  find, any,
}
use twexthub.Notify.{concat, address_text}

abbrev pub Payload : Type 0
Payload = List (String × String)

-- WEBHOOK_EVENTS
abbrev pub webhook_events : List String
webhook_events =
    "version.published" ∷ "version.yanked" ∷ "version.deprecated" ∷ "version.rejected"
    ∷ "owners.invited" ∷ "owners.changed" ∷ "extension.transferred" ∷ []

-- isValidWebhookEvent, of a string
unfoldable pub is_valid_webhook_event : String → Bool
is_valid_webhook_event event = any (λ e. e == event) webhook_events

unfoldable pub property : Payload → String → Option String
property payload key = elim (find (λ entry. entry.0 == key) payload) [
  | none ↦ none
  | some entry ↦ some entry.1
]

-- A property in a template literal.
unfoldable pub printed : Payload → String → String
unfolding property
printed payload key = elim (property payload key) [ none ↦ "undefined" | some value ↦ value ]

-- payload.key ? .. : ..
unfoldable pub has : Payload → String → Bool
unfolding property
has payload key = elim (property payload key) [
  | none ↦ false
  | some value ↦ if value == "" then false else true
]

-- The line of an event; `none` is the thrown error of an event that has none.
unfoldable pub render_webhook_message : (event namespace id : String) → Payload → Option String
unfolding concat address_text printed has
render_webhook_message event namespace id payload =
    let ref = address_text namespace id in
    let of_version =
      λ (end : String). some (concat (ref ∷ " " ∷ printed payload "version" ∷ end ∷ [])) in
    if event == "version.published"
    then of_version " was published."
    else if event == "version.yanked"
    then of_version " was yanked."
    else if event == "version.deprecated"
    then of_version " was deprecated."
    else if event == "version.rejected"
    then of_version " was rejected."
    else if event == "owners.invited"
    then some (
        if has payload "withdrawn"
        then concat (printed payload "withdrawn" ∷ " is no longer invited to own " ∷ ref ∷ "." ∷ [])
        else concat (printed payload "invited" ∷ " was invited to own " ∷ ref ∷ "." ∷ []))
    else if event == "owners.changed"
    then some (
        if has payload "added"
        then concat (printed payload "added" ∷ " was added as an owner of " ∷ ref ∷ "." ∷ [])
        else concat (printed payload "removed" ∷ " was removed as an owner of " ∷ ref ∷ "." ∷ []))
    else if event == "extension.transferred"
    then some (
        concat (
          "Moved from @"
          ∷ printed payload "from"
          ∷ "/"
          ∷ printed payload "id"
          ∷ " to @"
          ∷ printed payload "to"
          ∷ "/"
          ∷ printed payload "id"
          ∷ "."
          ∷ []))
    else none
