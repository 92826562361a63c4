-- ===== src/Configuration/Settings.antt =====
-- The editable settings of src/server-config.js, and the values of a configuration.
use twexthub.Shared.{
  ℕ, ◌*◌, String, Bool, true, false, Option, none, some, List, [], ◌∷◌, ◌==◌, nat_eq, string_eq,
  if◌then◌else◌,
}

pub data SettingType : Type 0 where
  number_type bytes_type boolean_type origins_type url_type : SettingType

pub record Setting : Type 0 where
  pub key : String
  pub kind : SettingType
  pub min : Option ℕ
  pub max : Option ℕ
  pub restart_required : Bool

abbrev ranged : String → SettingType → ℕ → ℕ → Bool → Setting
ranged key kind min max restart_required = record {
  key = key;
  kind = kind;
  min = some min;
  max = some max;
  restart_required = restart_required;
}

abbrev plain : String → SettingType → Bool → Setting
plain key kind restart_required = record {
  key = key;
  kind = kind;
  min = none;
  max = none;
  restart_required = restart_required;
}

-- EDITABLE_SETTINGS, without the texts of the form
abbrev pub editable_settings : List Setting
editable_settings =
    plain "publicBaseUrl" url_type false
    ∷ ranged "auth.sessionTtlDays" number_type 1 365 true
    ∷ ranged "pagination.defaultLimit" number_type 1 200 false
    ∷ ranged "pagination.maxLimit" number_type 1 500 false
    ∷ ranged "limits.maxBlobBytes" bytes_type 1024 (512 * 1024 * 1024) false
    ∷ ranged "limits.maxAccountBlobBytes" bytes_type 1024 (2 * 1024 * 1024 * 1024) false
    ∷ ranged "limits.maxSourceBytes" bytes_type 1024 (64 * 1024 * 1024) true
    ∷ ranged "limits.maxProfileImageBytes" bytes_type 1024 (16 * 1024 * 1024) false
    ∷ ranged "compiler.timeoutMs" number_type 1000 600000 false
    ∷ ranged "compiler.memoryMb" number_type 16 4096 false
    ∷ ranged "compiler.addressSpaceMb" number_type 768 16384 false
    ∷ plain "logging.requests" boolean_type true
    ∷ plain "cors.allowedOrigins" origins_type true
    ∷ []

-- A number that is whole, whole and below zero, or neither whole nor finite.
pub data Number : Type 0 where
  whole : ℕ → Number
  below_zero no_whole : Number

pub data Value : Type 0 where
  null other : Value
  number : Number → Value
  text : String → Value
  flag : Bool → Value
  texts : List String → Value

abbrev pub Config : Type 0
Config = String → Option Value

abbrev pub Values : Type 0
Values = List (String × Value)

-- patch[key], where the key is its own
abbrev pub value_at : Values → String → Option Value
value_at [] key = none
value_at ((k, v) ∷ rest) key = if k == key then some v else value_at rest key

-- writeAt
abbrev pub write_at : String → Value → Config → Config
write_at key value config k = if key == k then some value else config k
