-- ===== src/Accounts/Profile.antt =====
-- src/profile.js: what a profile field may be, and what a body writes. The parser of URLs is a parameter.
use twexthub.Shared.{
  ℕ, String, Bool, true, false, not, ◌&&◌, ◌||◌, Option, none, some, List, [], ◌∷◌, ◌++◌, ◌==◌,
  nat_eq, string_eq, if◌then◌else◌, ltb,
}
use twexthub.Util.Regex.{Regex, class, seq, opt, at_most, test, in_range}
use twexthub.Http.Errors.{FieldError}
use twexthub.Db.{User}
use twexthub.Packages.Requests.{Field, absent, null, text, other}
use twexthub.Tokens.{utf16_length}
use twexthub.Webhooks.Targets.{Url}

pub record Body : Type 0 where
  pub display_name : Field
  pub bio : Field
  pub website : Field
  pub github : Field
  pub avatar_url : Field
  pub banner_url : Field

abbrev is_letter : ℕ → Bool
is_letter c = in_range b'a' b'z' c || in_range b'A' b'Z' c || in_range b'0' b'9' c

-- GITHUB_USERNAME: ^[a-zA-Z0-9](?:[a-zA-Z0-9-]{0,37}[a-zA-Z0-9])?$
unfoldable pub github_username : Regex
unfolding at_most
github_username =
    seq (class is_letter)
      (opt (seq (at_most 37 (class (λ c. is_letter c || c == b'-'))) (class is_letter)))

abbrev pub profile_error : String → String → FieldError
profile_error field message = record { field = field; message = message }

abbrev pub when : Bool → FieldError → List FieldError
when bad e = if bad then e ∷ [] else []

-- value !== undefined && (typeof value !== 'string' || value.length > max)
unfoldable pub no_short_text : ℕ → Field → Bool
unfolding utf16_length
no_short_text limit absent = false
no_short_text limit null = true
no_short_text limit (text s) = ltb limit (utf16_length s)
no_short_text limit other = true

-- The same, where null stands for an empty value.
unfoldable pub no_clear_text : ℕ → Field → Bool
unfolding no_short_text
no_clear_text limit null = false
no_clear_text limit value = no_short_text limit value

unfoldable pub no_github : Field → Bool
unfolding test github_username
no_github absent = false
no_github null = false
no_github (text s) = not (test github_username s)
no_github other = true

abbrev link_message : String
link_message = "Must be an http(s) URL of at most 400 characters, or null to clear."

module _ (parse_url : String → Option Url) where
  unfoldable pub is_http_url : String → Bool
  is_http_url value = elim (parse_url value) [
    | none ↦ false
    | some url ↦
        (url.protocol == "http:" || url.protocol == "https:")
        && (elim url.hostname [ [] ↦ false | c ∷ s ↦ true ])
  ]

  unfoldable pub no_link : Field → Bool
  unfolding utf16_length is_http_url
  no_link absent = false
  no_link null = false
  no_link (text s) = ltb 400 (utf16_length s) || not (is_http_url s)
  no_link other = true

  unfoldable pub profile_field_errors : Body → List FieldError
  unfolding no_short_text no_clear_text no_github no_link
  profile_field_errors body =
      when (no_short_text 80 body.display_name)
        (profile_error "displayName" "Must be a string of at most 80 characters.")
      ++ when (no_clear_text 280 body.bio)
          (profile_error "bio" "Must be a string of at most 280 characters, or null.")
      ++ when (no_link body.website) (profile_error "website" link_message)
      ++ when (no_link body.avatar_url) (profile_error "avatarUrl" link_message)
      ++ when (no_link body.banner_url) (profile_error "bannerUrl" link_message)
      ++ when (no_github body.github)
          (profile_error "github" "Must be a GitHub username, or null to clear.")

-- A column that null clears, after validation.
abbrev pub written : Field → Option String → Option String
written absent before = before
written null before = none
written (text s) before = some s
written other before = before

-- body.bio ?? ''
abbrev pub written_bio : Field → String → String
written_bio null before = ""
written_bio (text s) before = s
written_bio _ before = before

abbrev pub written_name : Field → String → String
written_name (text s) before = s
written_name _ before = before

-- profilePatch: its `patch`, as the SET of an UPDATE
unfoldable pub profile_patch : Body → User → User
profile_patch body u = record u {
  display_name = written_name body.display_name u.display_name;
  bio = written_bio body.bio u.bio;
  website = written body.website u.website;
  github = written body.github u.github;
  avatar_url = written body.avatar_url u.avatar_url;
  banner_url = written body.banner_url u.banner_url;
}

abbrev pub is_given : Field → Bool
is_given absent = false
is_given _ = true

abbrev column : String → Field → List String
column name value = if is_given value then name ∷ [] else []

-- profilePatch: its `columns`
unfoldable pub profile_columns : Body → List String
profile_columns body =
    column "display_name" body.display_name
    ++ column "bio" body.bio
    ++ column "website" body.website
    ++ column "github" body.github
    ++ column "avatar_url" body.avatar_url
    ++ column "banner_url" body.banner_url
