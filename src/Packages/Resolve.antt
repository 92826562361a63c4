-- ===== src/Packages/Resolve.antt =====
-- The lookups of src/routes/packages.js: `loadVersion`, `loadVisibility`, `loadLatestPublished`,
-- `resolveVersion` and `redirectIfMoved`.
pub mod Latest
use twexthub.Shared.{
  ℕ, String, Bool, true, false, ◌&&◌, ◌||◌, not, Option, none, some, List, [], ◌∷◌, ◌==◌, string_eq,
  nat_eq, find, keep, map, any, get_last?, if◌then◌else◌, ok, err, present, require, ◌>>=◌, ◌>>◌,
}
use twexthub.Util.Regex.{Regex, class, seq, at_most, test, in_range}
use twexthub.Util.Versions.{Semver, max_version_by_semver}
use twexthub.Http.Errors.{not_found}
use twexthub.Db.{
  Db, User, Row, Version, Tag, Address, is_at, is_listed, is_published, is_rejected,
  is_downloadable,
}
use twexthub.Access.Guards.{Answered}
use twexthub.Access.Ownership.{Shown, can_see}
use twexthub.Transfer.Offers.{is_empty}
use twexthub.Transfer.Move.{redirect_for}

abbrev pub shown : Row Version → Shown
shown r = record { address = r.address; visibility = r.cols.visibility }

unfoldable pub load_version : Db → Address → String → Option (Row Version)
load_version db a version = find (λ r. is_at a r && r.cols.version == version) db.versions

-- Rows are kept in the order of their ids, so the last one is the first of ORDER BY id DESC.
unfoldable pub load_visibility : Db → Address → Option Shown
load_visibility db a =
    elim (get_last? (keep (λ r. is_at a r && not (is_rejected r.cols.status)) db.versions)) [
      | none ↦ none
      | some r ↦ some (shown r)
    ]

-- The rows that the caller may see, of those that are listed.
unfoldable pub visible_versions : Db → Option User → Address → List (Row Version)
visible_versions db caller a =
    keep (λ r. can_see db caller (shown r))
      (keep (λ r. is_at a r && is_listed r.cols.status) db.versions)

-- published ones, or where there is none all of them
unfoldable pub latest_pool : List (Row Version) → List (Row Version)
latest_pool visible =
    let published = keep (λ (r : Row Version). is_published r.cols.status) visible in
    if is_empty published then visible else published

abbrev pub same_version : Option String → Row Version → Bool
same_version none r = false
same_version (some v) r = r.cols.version == v

unfoldable pub load_latest_published : Semver → Db → Option User → Address → Option (Row Version)
unfolding visible_versions latest_pool
load_latest_published sv db caller a =
    let pool = latest_pool (visible_versions db caller a) in
    find (same_version (max_version_by_semver sv (map (λ r. r.cols.version) pool))) pool

-- [a-zA-Z0-9-]
abbrev pub is_tag_char : ℕ → Bool
is_tag_char c = in_range b'a' b'z' c || in_range b'A' b'Z' c || in_range b'0' b'9' c || c == b'-'

-- ^[a-zA-Z0-9-]{1,30}$
unfoldable pub tag_pattern : Regex
unfolding at_most
tag_pattern = seq (class is_tag_char) (at_most 29 (class is_tag_char))

unfoldable pub find_tag : Db → Address → String → Option (Row Tag)
find_tag db a tag = find (λ r. is_at a r && r.cols.tag == tag) db.dist_tags

-- What `resolveVersion` does with the row that it looked up: a row is answered, and otherwise the name is
-- taken for a tag's. A tag whose version is gone gives no row.
unfoldable pub row_or_tag :
    Db → Address → String → Option (Row Version) → Answered (Option (Row Version))
unfolding load_version find_tag test tag_pattern
row_or_tag db a version (some row) = ok (some row)
row_or_tag db a version none = do
  require (test tag_pattern version) (not_found "Not found.")
  row ← present (find_tag db a version) (not_found "Not found.")
  ok (load_version db a row.cols.version)

unfoldable pub resolve_version :
    Semver → Db → Option User → Address → String → Answered (Option (Row Version))
unfolding load_version load_latest_published row_or_tag
resolve_version sv db caller a version = row_or_tag db a version (
    if version == "latest" then load_latest_published sv db caller a else load_version db a version)

-- Where a moved address is answered with the new one: `ok none` goes on with the route.
unfoldable pub redirect_if_moved : Db → Option User → Address → Answered (Option Address)
unfolding load_visibility
redirect_if_moved db caller a = elim (redirect_for db a) [
  | none ↦ ok none
  | some moved ↦ do
    row ← present (load_visibility db moved) (not_found "Not found.")
    require (can_see db caller row) (not_found "Not found.")
    ok (some moved)
]
