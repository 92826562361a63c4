-- ===== src/Webhooks/Registry/Bodies.antt =====
-- What stands under a key of the body of a delivery, `body_of` in src/webhooks.js's scheduleFor.
use twexthub.Shared.{
  ◌≡◌, refl, ap, ◌∙◌, String, false, ◌||◌, Option, none, some, [], ◌∷◌, ◌==◌, string_eq,
  if◌then◌else◌, Bool-cases, inl, inr, eq_of_==, arith,
}
use twexthub.Db.{Address}
use twexthub.Webhooks.Messages.{Payload}
use twexthub.Webhooks.Registry.{assign, spread, body_of}

-- The first field of the name.
abbrev pub value_of : String → Payload → Option String
value_of key [] = none
value_of key ((k, v) ∷ rest) = if k == key then some v else value_of key rest

-- The field that was given last under the name, and `before` without one.
abbrev pub last_of : String → Payload → (before : Option String) → Option String
last_of key [] before = before
last_of key ((k, v) ∷ rest) before = last_of key rest (if k == key then some v else before)

value_of-assign :
    (key k v : String) (fields : Payload)
    → value_of key (assign k v fields) ≡ (if k == key then some v else value_of key fields)
value_of-assign key k v [] = refl
value_of-assign key k v ((k', v') ∷ rest) = elim (Bool-cases (k' == k)) [
  | inl e ↦
      rw (e, eq_of_== k' k e)
        (elim (Bool-cases (k == key)) [ inl f ↦ rw f refl | inr f ↦ rw f refl ])
  | inr e ↦ elim (Bool-cases (k' == key)) [
    | inr f ↦ rw (e, f) (value_of-assign key k v rest)
    | inl f ↦
        let differ : (k == key) ≡ false =
          ground
            (arith, string_eq.beq_iff k' k, string_eq.beq_iff k' key, string_eq.beq_iff k key) in
        rw (e, f, differ) refl
  ]
]

value_of-spread :
    (key : String) (fields base : Payload)
    → value_of key (spread fields base) ≡ last_of key base (value_of key fields)
value_of-spread key fields [] = refl
value_of-spread key fields ((k, v) ∷ rest) =
    value_of-spread key (assign k v fields) rest
    ∙ ap (last_of key rest) (value_of-assign key k v fields)

-- The body under each key: the message under three, and else what the event's own payload says
-- there, or the name of the event and the address.
abbrev pub body_value : Address → String → Payload → String → String → Option String
body_value a event base message key =
    if "text" == key || "content" == key || "message" == key
    then some message
    else last_of key base
        (value_of key (("event", event) ∷ ("namespace", a.namespace) ∷ ("id", a.id) ∷ []))

pub value_of-body_of :
    (a : Address) (event : String) (base : Payload) (message key : String)
    → value_of key (body_of a event base message) ≡ body_value a event base message key
unfolding body_of
value_of-body_of a event base message key =
    let fields : Payload = ("event", event) ∷ ("namespace", a.namespace) ∷ ("id", a.id) ∷ [] in
    let spreaded = value_of-spread key fields base in
    rw
      (
        value_of-assign key "text" message
            (assign "content" message (assign "message" message (spread fields base))),
        value_of-assign key "content" message (assign "message" message (spread fields base)),
        value_of-assign key "message" message (spread fields base),
        spreaded,
      )
      (ground arith)
