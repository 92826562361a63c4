-- ===== src/Pagination.antt =====
-- `keysetPage`, `parseDir` and `parseLimit` of src/pagination.js, and the query that the listings send
-- for a page (that of the tokens in src/routes/tokens.js). The text of a cursor is its key.
pub mod Walk
pub mod Limits
use twexthub.Shared.{
  ℕ, zero, suc, ◌+◌, ◌-◌, ◌*◌, min, leb, String, Bool, true, false, ◌&&◌, not, Option, none, some,
  List, [], ◌∷◌, ◌++◌, ◌==◌, string_eq, nat_eq, ltb, length, take, keep, head?, get_last?,
  if◌then◌else◌, ok, err, require, ◌>>=◌, ◌>>◌, all,
}
use twexthub.Util.Regex.{codes, in_range}
use twexthub.Util.Text.{trim}
use twexthub.Http.Errors.{make}
use twexthub.Access.Guards.{Answered}
use twexthub.Packages.Requests.{Field, absent, null, text, other}

abbrev pub reverse : {A : Type 0} → List A → List A
reverse [] = []
reverse (x ∷ xs) = reverse xs ++ x ∷ []

-- A page, and the keys in the links to its neighbours.
pub record Page (A : Type 0) : Type 0 where
  pub data_rows : List A
  pub next : Option ℕ
  pub prev : Option ℕ

abbrev pub has_rows : {A : Type 0} → List A → Bool
has_rows [] = false
has_rows (x ∷ xs) = true

abbrev is_given : Option ℕ → Bool
is_given none = false
is_given (some c) = true

module _ {A : Type 0} (key : A → ℕ) where
  abbrev pub link : Bool → Option A → Option ℕ
  link false row = none
  link true none = none
  link true (some r) = some (key r)

  -- keysetPage, for the rows of an over-fetched query
  unfoldable pub keyset_page : (limit : ℕ) → (back : Bool) → (cursor : Option ℕ) → List A → Page A
  keyset_page limit back cursor rows =
      let surplus = ltb limit (length rows) in
      let kept = if surplus then take limit rows else rows in
      let page = if back then reverse kept else kept in
      let has_forward = has_rows page && (if back then is_given cursor else surplus) in
      let has_backward = has_rows page && (if back then surplus else is_given cursor) in
      record {
        data_rows = page;
        next = link has_forward (get_last? page);
        prev = link has_backward (head? page);
      }

  -- AND id > cursor or AND id < cursor, where there is one
  abbrev pub beyond : Bool → Option ℕ → A → Bool
  beyond back none r = true
  beyond true (some c) r = ltb c (key r)
  beyond false (some c) r = ltb (key r) c

  -- The rows of a page and one more, of rows that are listed by falling keys.
  unfoldable pub fetch : (limit : ℕ) → (back : Bool) → (cursor : Option ℕ) → List A → List A
  fetch limit back cursor rows =
      let found = keep (beyond back cursor) rows in
      take (suc limit) (if back then reverse found else found)

  -- A request of the listing.
  unfoldable pub list_page : (limit : ℕ) → (back : Bool) → (cursor : Option ℕ) → List A → Page A
  unfolding keyset_page fetch
  list_page limit back cursor rows = keyset_page limit back cursor (fetch limit back cursor rows)

  abbrev pub follow_link : Option ℕ → (ℕ → List A) → List A
  follow_link none go_on = []
  follow_link (some k) go_on = go_on k

  -- A client that follows the links `next`, for at most `fuel` pages.
  abbrev pub walk : (fuel limit : ℕ) → Option ℕ → List A → List A
  walk zero limit cursor rows = []
  walk (suc fuel) limit cursor rows =
      (list_page limit false cursor rows).data_rows
      ++ follow_link (list_page limit false cursor rows).next (λ k. walk fuel limit (some k) rows)

-- parseDir
unfoldable pub parse_dir : Field → Answered Bool
parse_dir absent = ok false
parse_dir (text s) =
    if s == "back" then ok true else err (make 400 (some "Bad Request") (some "Invalid dir."))
parse_dir _ = err (make 400 (some "Bad Request") (some "Invalid dir."))

abbrev pub is_digit : ℕ → Bool
is_digit c = in_range b'0' b'9' c

-- Number(..) of a text of digits
unfoldable pub digits_value : ℕ → List ℕ → ℕ
digits_value n [] = n
digits_value n (c ∷ cs) = digits_value (n * 10 + (c - b'0')) cs

-- config.pagination
pub record PageLimits : Type 0 where
  pub default_limit : ℕ
  pub max_limit : ℕ

-- parseLimit: a value that is rounded as a double is over any maximum
unfoldable pub parse_limit : PageLimits → Field → Answered ℕ
unfolding trim digits_value
parse_limit config absent = ok config.default_limit
parse_limit config (text raw) = do
  require (ltb 0 (length (codes (trim raw))) && all is_digit (codes (trim raw)))
      (make 400 (some "Bad Request") (some "Invalid limit."))
  let value = digits_value 0 (codes (trim raw))
  require (leb 1 value) (make 400 (some "Bad Request") (some "Invalid limit."))
  ok (min value config.max_limit)
parse_limit config _ = err (make 400 (some "Bad Request") (some "Invalid limit."))
