-- ===== src/Tests/Configuration.antt =====
-- A change of the configuration by an admin.
use twexthub.Shared.{
  ◌≡◌, ◌⊎◌, refl, true, false, none, some, [], ◌∷◌, ok, value_or, ◌==◌, string_eq, if◌then◌else◌,
}
use twexthub.Db.{Db, User, admin}
use twexthub.Configuration.Settings.{
  editable_settings, text, number, whole, no_whole, Config, Values,
}
use twexthub.Configuration.Files.{Platform}
use twexthub.Configuration.Coercion.{Parsers}
use twexthub.Configuration.{Change, Applied, put_config}
use twexthub.Configuration.Allowed.{IsAsked, put_config-IsAllowed}
use twexthub.Tests.Data.{alice, registry, as_account}

abbrev parsers : Parsers
parsers = record {
  number_of = λ v. no_whole;
  text_of = λ v. "https://hub.example";
  origin_of = λ s. none;
  protocol_of = λ s. some "https:";
  print = λ n. "1";
}

abbrev platform : Platform
platform = record {
  writable = true;
  mount_info = none;
  resolved = [];
  real_path = none;
  container = false;
}

abbrev config : Config
config key = if key == "pagination.maxLimit" then some (number (whole 100)) else none

abbrev request : Values
request =
    ("pagination.maxLimit", number (whole 200)) ∷ ("publicBaseUrl", text "https://hub.example") ∷ []

abbrev moderator : User
moderator = record alice { role = admin }

abbrev answer : Applied × Db
answer =
    value_or
      (record { config = config; document = []; changes = []; restart_required = [] }, registry)
      (put_config parsers platform (some (as_account moderator)) true (some request) config
        registry)

answered :
    put_config parsers platform (some (as_account moderator)) true (some request) config registry
    ≡ ok (answer.0, answer.1)
unfolding put_config
answered = refl

put_config-IsAllowed_example :
    (answer.0.config "pagination.maxLimit" ≡ some (number (whole 100)))
    ⊎ ((c : Change) × (c.setting.key ≡ "pagination.maxLimit")
        × (answer.0.config "pagination.maxLimit" ≡ some c.after)
        × IsAsked parsers editable_settings request c)
put_config-IsAllowed_example =
    put_config-IsAllowed parsers platform (some (as_account moderator)) true request config registry
      answer.1 answer.0 "pagination.maxLimit" answered
