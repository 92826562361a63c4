-- ===== src/Configuration/Coercion.antt =====
-- `coerce` of src/server-config.js: what a value of a request is read as.
use Prim.Native.Char.{Char, code}
use twexthub.Shared.{
  ℕ, String, Bool, true, false, not, ◌&&◌, ◌||◌, Option, none, some, List, [], ◌∷◌, ◌==◌, nat_eq,
  string_eq, if◌then◌else◌, ltb, any, Result, ok, err, present, ◌>>=◌,
}
use twexthub.Util.Text.{trim}
use twexthub.Http.Errors.{FieldError}
use twexthub.Notify.{concat}
use twexthub.Configuration.Settings.{
  SettingType, number_type, bytes_type, boolean_type, origins_type, url_type, Setting, Number,
  whole, below_zero, no_whole, Value, null, number, text, flag, texts,
}

abbrev onto_first : Char → List String → List String
onto_first c [] = (String.◌∷◌ c "") ∷ []
onto_first c (part ∷ parts) = (String.◌∷◌ c part) ∷ parts

-- s.split(',')
unfoldable pub split_commas : String → List String
split_commas String.[] = "" ∷ []
split_commas (String.◌∷◌ c s) =
    let parts = split_commas s in if code c == b',' then "" ∷ parts else onto_first c parts

-- .map((s) => s.trim()).filter(Boolean)
unfoldable pub filled_parts : List String → List String
unfolding trim
filled_parts [] = []
filled_parts (s ∷ ss) = let rest = filled_parts ss in if trim s == "" then rest else trim s ∷ rest

-- origin.replace(/\/$/, '')
unfoldable pub without_slash : String → String
without_slash String.[] = ""
without_slash (String.◌∷◌ c s) =
    let rest = without_slash s in if code c == b'/' && s == "" then "" else String.◌∷◌ c rest

pub record Parsers : Type 0 where
  pub number_of : Value → Number
  pub text_of : Value → String
  pub origin_of : String → Option String
  pub protocol_of : String → Option String
  pub print : ℕ → String

abbrev pub Coerced : Type 0
Coerced = Result (List FieldError) Value

abbrev bad : Setting → String → Coerced
bad setting message = err (record { field = setting.key; message = message } ∷ [])

abbrev pub is_under : ℕ → Option ℕ → Bool
is_under n none = false
is_under n (some min) = ltb n min

abbrev pub is_over : ℕ → Option ℕ → Bool
is_over n none = false
is_over n (some max) = ltb max n

abbrev bound_text : Option ℕ → ℕ
bound_text none = 0
bound_text (some n) = n

module _ (p : Parsers) where
  abbrev pub as_number : Value → Number
  as_number (number n) = n
  as_number value = p.number_of value

  unfoldable pub coerce_number : Setting → Number → Coerced
  unfolding concat
  coerce_number setting no_whole = bad setting "Must be a whole number."
  coerce_number setting below_zero = elim setting.min [
    | none ↦ ok (number below_zero)
    | some min ↦ bad setting (concat ("Must be at least " ∷ p.print min ∷ "." ∷ []))
  ]
  coerce_number setting (whole n) =
      if is_under n setting.min
      then bad setting (concat ("Must be at least " ∷ p.print (bound_text setting.min) ∷ "." ∷ []))
      else if is_over n setting.max
      then bad setting (concat ("Must be at most " ∷ p.print (bound_text setting.max) ∷ "." ∷ []))
      else ok (number (whole n))

  unfoldable pub coerce_boolean : Setting → Value → Coerced
  coerce_boolean setting (flag b) = ok (flag b)
  coerce_boolean setting (text s) =
      if s == "true"
      then ok (flag true)
      else if s == "false"
      then ok (flag false)
      else bad setting "Must be true or false."
  coerce_boolean setting _ = bad setting "Must be true or false."

  abbrev pub origin_list : Value → List String
  origin_list (texts list) = list
  origin_list value = filled_parts (split_commas (p.text_of value))

  -- The origin that a text parses to, where it is the text itself.
  abbrev pub serialized_as : String → Option String → Option String
  serialized_as origin none = none
  serialized_as origin (some parsed) =
      if parsed == "null" || not (parsed == without_slash origin) then none else some parsed

  unfoldable pub serialized : String → Option String
  unfolding without_slash
  serialized origin = serialized_as origin (p.origin_of origin)

  unfoldable pub coerce_origins : Setting → List String → Result (List FieldError) (List String)
  unfolding serialized concat
  coerce_origins setting [] = ok []
  coerce_origins setting (origin ∷ rest) = do
    parsed ← present (serialized origin) (
        record {
          field = setting.key;
          message = concat ("\"" ∷ origin ∷ "\" is not an absolute origin." ∷ []);
        }
        ∷ [])
    origins ← coerce_origins setting rest
    ok (parsed ∷ origins)

  abbrev pub url_value : Setting → String → Option String → Coerced
  url_value setting trimmed none = bad setting "Must be an absolute URL."
  url_value setting trimmed (some protocol) =
      if protocol == "http:" || protocol == "https:"
      then ok (text trimmed)
      else bad setting "Must be an http or https URL."

  unfoldable pub coerce_url : Setting → String → Coerced
  unfolding trim
  coerce_url setting s = url_value setting (trim s) (p.protocol_of (trim s))

  -- The switch over the type.
  unfoldable pub coerce_kind : SettingType → Setting → Value → Coerced
  unfolding coerce_number coerce_boolean coerce_origins coerce_url filled_parts split_commas
  coerce_kind number_type setting value = coerce_number setting (as_number value)
  coerce_kind bytes_type setting value = coerce_number setting (as_number value)
  coerce_kind boolean_type setting value = coerce_boolean setting value
  coerce_kind origins_type setting value =
      if any (λ s. s == "*") (origin_list value)
      then ok (text "*")
      else (do origins ← coerce_origins setting (origin_list value); ok (texts origins))
  coerce_kind url_type setting value = coerce_url setting (p.text_of value)

  unfoldable pub coerce : Setting → Value → Coerced
  unfolding coerce_kind
  coerce setting null = bad setting "A value is required."
  coerce setting value = coerce_kind setting.kind setting value
