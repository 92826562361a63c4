-- ===== src/Packages/Project.antt =====
-- src/project-manifest.js, and the filter of src/tarball.js on the entries of an upload. The YAML
-- parser's result is the fields that are read.
pub mod Extraction
use twexthub.Shared.{
  ℕ, ◌+◌, String, Bool, true, false, not, ◌&&◌, ◌||◌, Option, none, some, List, [], ◌∷◌, ◌++◌, ◌==◌,
  nat_eq, string_eq, if◌then◌else◌, leb, ltb, any,
}
use twexthub.Util.Regex.{test}
use twexthub.Util.Names.{is_valid_extension_id, color_pattern}
use twexthub.Util.Versions.{Semver}
use twexthub.Http.Errors.{FieldError}
use twexthub.Notify.{concat}
use twexthub.Transfer.Offers.{is_empty}
use twexthub.Packages.Requests.{Field, absent, null, text, other}
use twexthub.Packages.Publish.{Manifest}
use twexthub.Accounts.Profile.{when, profile_error}

-- The fields of twext.yml; `color1` to `color3`, `id` and the extension's name stand under `extension`.
pub record ProjectConfig : Type 0 where
  pub id : Field
  pub extension_name : Field
  pub version : Field
  pub license : Field
  pub description : Field
  pub name : Field
  pub author : Field
  pub color1 : Field
  pub color2 : Field
  pub color3 : Field

pub record Colors : Type 0 where
  pub color1 : Option String
  pub color2 : Option String
  pub color3 : Option String

abbrev is_id : String → Field → Bool
is_id path_id (text id) = is_valid_extension_id id && id == path_id
is_id path_id _ = false

-- normalizeSemver
unfoldable pub normalize_semver : Semver → Field → Option String
normalize_semver sv (text version) = sv.valid version
normalize_semver sv _ = none

abbrev pub is_version : Option String → Bool
is_version none = false
is_version (some v) = not (v == "")

-- value !== undefined && (typeof value !== 'string' || value.length === 0)
abbrev no_filled_text : Field → Bool
no_filled_text absent = false
no_filled_text (text s) = s == ""
no_filled_text _ = true

abbrev no_text : Field → Bool
no_text absent = false
no_text (text s) = false
no_text _ = true

unfoldable pub no_color : Field → Bool
unfolding test color_pattern
no_color absent = false
no_color (text s) = not (test color_pattern s)
no_color _ = true

abbrev color_error : String → FieldError
color_error field = profile_error field "Must be \"#RRGGBB\" when provided."

unfoldable pub manifest_errors : Semver → ProjectConfig → String → List FieldError
unfolding is_valid_extension_id normalize_semver no_color concat
manifest_errors sv config path_id =
    when (not (is_id path_id config.id)) (
      profile_error "extension.id"
        (concat ("Must equal the id in the path (\"" ∷ path_id ∷ "\")." ∷ [])))
    ++ when (not (is_version (normalize_semver sv config.version)))
        (profile_error "version" "Must be a valid SemVer string.")
    ++ when (no_filled_text config.license)
        (profile_error "license" "License (SPDX identifier) is required when provided.")
    ++ when (no_text config.description)
        (profile_error "description" "Must be a string when provided.")
    ++ when (no_filled_text config.name)
        (profile_error "name" "Must be a non-empty string when provided.")
    ++ when (no_text config.author) (profile_error "author" "Must be a string when provided.")
    ++ when (no_color config.color1) (color_error "extension.color1")
    ++ when (no_color config.color2) (color_error "extension.color2")
    ++ when (no_color config.color3) (color_error "extension.color3")

abbrev text_or : Field → String → String
text_or (text s) d = s
text_or _ d = d

abbrev text_or_none : Field → Option String
text_or_none (text s) = some s
text_or_none _ = none

abbrev filled_or : Field → String → String
filled_or (text s) d = if s == "" then d else s
filled_or _ d = d

abbrev or_empty : Option String → String
or_empty none = ""
or_empty (some v) = v

-- manifestFromProject: the errors, and the manifest where there are none
unfoldable pub manifest_from_project :
    Semver → ProjectConfig → String → List FieldError × Option (Manifest × Colors)
unfolding manifest_errors normalize_semver
manifest_from_project sv config path_id =
    if not (is_empty (manifest_errors sv config path_id))
    then (manifest_errors sv config path_id, none)
    else (
      [],
      some (
        record {
          version = or_empty (normalize_semver sv config.version);
          name = filled_or config.name (filled_or config.extension_name path_id);
          license = text_or config.license "MIT";
          description = text_or config.description "";
          author = text_or_none config.author;
        },
        record {
          color1 = text_or_none config.color1;
          color2 = text_or_none config.color2;
          color3 = text_or_none config.color3;
        },
      ),
    )

-- An entry of a tarball, as the library announces it.
pub data EntryType : Type 0 where
  file symbolic_link link : EntryType

pub record TarEntry : Type 0 where
  pub path : String
  pub has_nul : Bool
  pub type : EntryType
  pub size : ℕ

pub record Extracted : Type 0 where
  pub accounted : ℕ
  pub entries : ℕ
  pub seen : List TarEntry

abbrev pub is_link : EntryType → Bool
is_link file = false
is_link _ = true

-- accounted + size > maxTotalBytes, where none is Infinity
abbrev pub is_full : Option ℕ → ℕ → Bool
is_full none n = false
is_full (some max) n = ltb max n

-- The filter, on one entry.
unfoldable pub filter_entry : Option ℕ → TarEntry → Extracted → Extracted
filter_entry max_total_bytes entry s =
    if entry.has_nul
      || is_link entry.type
      || leb 1000 s.entries
      || is_full max_total_bytes (s.accounted + entry.size)
    then s
    else record {
      accounted = s.accounted + entry.size;
      entries = s.entries + 1;
      seen = s.seen ++ entry ∷ [];
    }

abbrev pub nothing_yet : Extracted
nothing_yet = record { accounted = 0; entries = 0; seen = [] }

unfoldable pub filter_from : Option ℕ → List TarEntry → Extracted → Extracted
unfolding filter_entry
filter_from max_total_bytes [] s = s
filter_from max_total_bytes (entry ∷ entries) s =
    filter_from max_total_bytes entries (filter_entry max_total_bytes entry s)

-- extractTarballBuffer: the entries that are written
unfoldable pub extract_tarball : Option ℕ → List TarEntry → List TarEntry
unfolding filter_from
extract_tarball max_total_bytes entries = (filter_from max_total_bytes entries nothing_yet).seen
