-- ===== src/Webhooks/Registry/Scheduling.antt =====
-- What an event schedules.
use twexthub.Shared.{
  ◌⊎◌, none, any, ℕ, ◌+◌, ◌≡◌, refl, String, Bool, true, false, Option, some, List, [], ◌∷◌, arith,
  ◌==◌, string_eq, nat_eq, if◌then◌else◌,
}
use twexthub.Db.{Db, Hook, Delivery, Address, pending}
use twexthub.Webhooks.Messages.{Payload, is_valid_webhook_event, render_webhook_message}
use twexthub.Webhooks.Registry.Bodies.{value_of, body_value}
use twexthub.Webhooks.Registry.{delivery_for}

-- A conditional has a value if what is left has one where the test fails.
some-if :
    {A : Type 0} (test : Bool) (a : A) (rest : Option A)
    → (test ≡ false → (b : A) × (rest ≡ some b))
    → (b : A) × ((if test then some a else rest) ≡ some b)
some-if true a rest otherwise = (a, refl)
some-if false a rest otherwise = otherwise refl

not_named : (s t : String) → (s == t) ≡ false → (t == s) ≡ false
not_named s t h = ground (arith, string_eq.beq_iff t s, string_eq.beq_iff s t)

none_left :
    (event : String)
    → is_valid_webhook_event event ≡ true
    → (event == "version.published") ≡ false
    → (event == "version.yanked") ≡ false
    → (event == "version.deprecated") ≡ false
    → (event == "version.rejected") ≡ false
    → (event == "owners.invited") ≡ false
    → (event == "owners.changed") ≡ false
    → (event == "extension.transferred") ≡ false
    → false ≡ true
unfolding is_valid_webhook_event
none_left event h n1 n2 n3 n4 n5 n6 n7 =
    rw
      (
        not_named event "version.published" n1,
        not_named event "version.yanked" n2,
        not_named event "version.deprecated" n3,
        not_named event "version.rejected" n4,
        not_named event "owners.invited" n5,
        not_named event "owners.changed" n6,
        not_named event "extension.transferred" n7,
      )
      at h

-- Every event that a hook may listen to has a line.
pub render_webhook_message-some :
    (event namespace id : String) (payload : Payload)
    → is_valid_webhook_event event ≡ true
    → (message : String) × (render_webhook_message event namespace id payload ≡ some message)
unfolding render_webhook_message
render_webhook_message-some event namespace id payload h =
    some-if (event == "version.published") _ _ (λ n1. some-if (event == "version.yanked") _ _ (λ n2.
      some-if (event == "version.deprecated") _ _ (λ n3.
        some-if (event == "version.rejected") _ _ (λ n4.
          some-if (event == "owners.invited") _ _ (λ n5.
            some-if (event == "owners.changed") _ _ (λ n6.
              some-if (event == "extension.transferred") _ _
                (λ n7. let broken = none_left event h n1 n2 n3 n4 n5 n6 n7 in cc)))))))

module _ (sign : String → Payload → String) (a : Address) (event : String) (base : Payload)
    (message : String) where
  -- One delivery for each hook, numbered in order.
  abbrev one_each : ℕ → List Hook → List Delivery
  one_each n [] = []
  one_each n (h ∷ hs) = delivery_for sign n a event base message h ∷ one_each (n + 1) hs

module _ (sign : String → Payload → String) (a : Address) (event : String) (base : Payload)
    (message : String) where
  -- A hook to which the event is to be delivered.
  pub record Listens (h : Hook) : Type 0 where
    pub here : h.namespace ≡ a.namespace
    pub covers : (h.extension_id ≡ none) ⊎ (h.extension_id ≡ some a.id)
    pub active : h.active ≡ true
    pub subscribed : any (λ e. e == event) h.events ≡ true

  -- The n-th delivery, to this hook.
  pub record IsDelivery (n : ℕ) (h : Hook) (d : Delivery) : Type 0 where
    pub number : d.id ≡ n
    pub hook : d.webhook_id ≡ h.id
    pub event_of : d.event ≡ event
    pub body : (key : String) → value_of key d.body ≡ body_value a event base message key
    pub signed : d.signature ≡ sign h.secret d.body
    pub unsent : (d.status ≡ pending) × (d.attempt ≡ 0) × (d.next_attempt_at ≡ none)

  -- One delivery for each hook that listens, in the order of the hooks, and none for the others.
  pub data OneEach : ℕ → List Hook → List Delivery → Type 0 where
    done : {n : ℕ} → OneEach n [] []
    passed_over :
        {n : ℕ} {h : Hook} {hs : List Hook} {ds : List Delivery}
        → ¬ Listens h
        → OneEach n hs ds
        → OneEach n (h ∷ hs) ds
    delivered_to :
        {n : ℕ} {h : Hook} {d : Delivery} {hs : List Hook} {ds : List Delivery}
        → Listens h
        → IsDelivery n h d
        → OneEach (n + 1) hs ds
        → OneEach n (h ∷ hs) (d ∷ ds)

  abbrev covered : Option String → Bool
  covered e = elim e [ none ↦ true | some id ↦ id == a.id ]
