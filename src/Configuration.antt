-- ===== src/Configuration.antt =====
-- src/server-config.js and PUT /admin/config of src/routes/admin.js. A configuration is a function of
-- the dotted keys, of which no editable one starts another; the document of the YAML library is the
-- list of the values that were set in it. Number(..), String(..) and the parser of URLs are parameters,
-- and so is what the file system says of the file. An array that holds anything but texts is left out.
pub mod Settings
pub mod Files
pub mod Coercion
pub mod Typed
pub mod Allowed
use Prim.Native.Char.{Char, code}
use twexthub.Shared.{
  ℕ, ◌+◌, ◌*◌, String, Bool, true, false, not, ◌&&◌, ◌||◌, Option, none, some, List, [], ◌∷◌, ◌++◌,
  ◌==◌, nat_eq, string_eq, if◌then◌else◌, leb, ltb, any, find, keep, map, length, Result, ok, err,
  refuse, require, present, ◌>>=◌, ◌>>◌,
}
use twexthub.Util.Text.{trim}
use twexthub.Http.Errors.{FieldError, field_errors, make}
use twexthub.Db.{Db, Datum}
use twexthub.Notify.{concat, audit}
use twexthub.Access.Credentials.{Auth}
use twexthub.Access.Guards.{Answered, assert_admin}
use twexthub.Transfer.Offers.{is_empty}
use twexthub.Packages.Requests.{object_body, field_error}
use twexthub.Webhooks.Targets.{starts_with, split, same_codes}
use twexthub.Configuration.Settings.{
  SettingType, number_type, bytes_type, boolean_type, origins_type, url_type, Setting,
  editable_settings, Number, whole, below_zero, no_whole, Value, null, other, number, text, flag,
  texts, Config, Values, value_at, write_at,
}
use twexthub.Configuration.Files.{Platform, config_storage}
use twexthub.Configuration.Coercion.{Parsers, Coerced, coerce}

pub record Change : Type 0 where
  pub setting : Setting
  pub before : Option Value
  pub after : Value

abbrev pub applied : List Change → Config → Config
applied [] config = config
applied (c ∷ cs) config = applied cs (write_at c.setting.key c.after config)

abbrev edits : List Change → Values
edits [] = []
edits (c ∷ cs) = (c.setting.key, c.after) ∷ edits cs

-- The live configuration, the values that were set in the file, and the changes.
pub record Applied : Type 0 where
  pub config : Config
  pub document : Values
  pub changes : List Change
  pub restart_required : List String

abbrev restarts : List Change → List String
restarts [] = []
restarts (c ∷ cs) = if c.setting.restart_required then c.setting.key ∷ restarts cs else restarts cs

abbrev pub if_persistent : Option String → Answered (Unit {0})
if_persistent none = ok tt
if_persistent (some reason) = err (make 409 (some "Configuration is read-only") (some reason))

abbrev same_number : Number → Number → Bool
same_number (whole a) (whole b) = a == b
same_number _ _ = false

-- before === value: two arrays are never the same one
abbrev pub is_same : Option Value → Value → Bool
is_same (some (number a)) (number b) = same_number a b
is_same (some (text a)) (text b) = a == b
is_same (some (flag a)) (flag b) = (a && b) || not (a || b)
is_same _ _ = false

module _ (p : Parsers) where
  abbrev pub with_value :
      Config → Setting → Coerced → List Change × List FieldError → List Change × List FieldError
  with_value config setting (err es) (changes, errors) = (changes, es ++ errors)
  with_value config setting (ok after) (changes, errors) =
      if is_same (config setting.key) after then (changes, errors) else (
        record { setting = setting; before = config setting.key; after = after } ∷ changes,
        errors,
      )

  -- The loop over the settings: the changes and the errors.
  abbrev pub with_setting :
      Config
      → Setting
      → Option Value
      → List Change × List FieldError
      → List Change × List FieldError
  with_setting config setting none found = found
  with_setting config setting (some value) found =
      with_value config setting (coerce p setting value) found

  unfoldable pub scan : Config → Values → List Setting → List Change × List FieldError
  unfolding coerce
  scan config patch [] = ([], [])
  scan config patch (setting ∷ settings) =
      with_setting config setting (value_at patch setting.key) (scan config patch settings)

  unfoldable pub apply_server_config : Platform → Config → Values → Answered Applied
  unfolding config_storage scan
  apply_server_config platform config patch = do
    if_persistent (config_storage platform)
    require (is_empty (scan config patch editable_settings).1)
        (field_errors (scan config patch editable_settings).1)
    ok (record {
      config = applied (scan config patch editable_settings).0 config;
      document = edits (scan config patch editable_settings).0;
      changes = (scan config patch editable_settings).0;
      restart_required = restarts (scan config patch editable_settings).0;
    })

abbrev is_known : String → Bool
is_known key = any (λ (setting : Setting). setting.key == key) editable_settings

abbrev unknown_errors : Values → List FieldError
unknown_errors [] = []
unknown_errors ((key, value) ∷ rest) =
    let errors = unknown_errors rest in
    if is_known key
    then errors
    else record {
      field = key;
      message = "This setting cannot be changed from the admin interface.";
    }
      ∷ errors

abbrev changed_keys : List Change → List (String × Datum)
changed_keys [] = []
changed_keys (c ∷ cs) = ("changed", Datum.text c.setting.key) ∷ changed_keys cs

-- PUT /admin/config: `none` is a body whose settings are no object. The audit entry has one field for
-- each change.
unfoldable pub put_config :
    Parsers
    → Platform
    → Option Auth
    → (is_object : Bool) → (patch : Option Values) → Config
    → Db
    → Answered (Applied × Db)
unfolding assert_admin apply_server_config audit
put_config p platform caller is_object patch config db = do
  admin ← assert_admin caller
  object_body is_object
  settings ← present patch (field_error "settings" "Must be an object of settings.")
  require (is_empty (unknown_errors settings)) (field_errors (unknown_errors settings))
  result ← apply_server_config p platform config settings
  ok (
    result,
    if is_empty result.changes
        then db
        else audit admin.user "config.update" none none none (changed_keys result.changes) db,
  )
