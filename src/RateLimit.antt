-- ===== src/RateLimit.antt =====
-- src/rate-limit.js: fixed windows of requests per bucket, counted in a table.
-- A check reads the clock once here; the code reads it again for the seconds of an error.
pub mod Windows
use twexthub.Shared.{
  ℕ, ◌+◌, ◌-◌, ◌*◌, ◌/◌, max, String, Bool, true, false, ◌&&◌, Option, none, some, List, [], ◌∷◌,
  ◌==◌, string_eq, nat_eq, any, ltb, leb, if◌then◌else◌, ok, err, refuse,
}
use twexthub.Shared.Rows.{upsert, delete}
use twexthub.Http.Errors.{too_many_requests}
use twexthub.Access.Guards.{Answered}

-- A row of rate_limit_entries, keyed on its bucket and window.
pub record Entry : Type 0 where
  pub bucket : String
  pub window_start : ℕ
  pub count : ℕ

abbrev pub window_length : ℕ → ℕ
window_length minutes = minutes * 60000

-- windowStartFor
unfoldable pub window_start_for : ℕ → ℕ → ℕ
window_start_for now minutes = now / window_length minutes * window_length minutes

-- Math.ceil of thousandths
abbrev ceil_seconds : ℕ → ℕ
ceil_seconds ms = (ms + 999) / 1000

unfoldable pub seconds_until_reset : ℕ → ℕ → ℕ
unfolding window_start_for
seconds_until_reset now minutes =
    max 1 (ceil_seconds (window_start_for now minutes + window_length minutes - now))

abbrev pub is_entry : String → ℕ → Entry → Bool
is_entry bucket start e = e.bucket == bucket && e.window_start == start

-- SELECT count FROM rate_limit_entries WHERE .., where no row counts nothing
unfoldable pub count_of : String → ℕ → List Entry → ℕ
count_of bucket start [] = 0
count_of bucket start (e ∷ es) =
    if is_entry bucket start e then e.count else count_of bucket start es

-- `record`: the upsert, and the count that it returns
unfoldable pub record_hit : String → ℕ → List Entry → List Entry × ℕ
unfolding count_of
record_hit bucket start es =
    let es' =
      upsert (is_entry bucket start) (λ e. record e { count = e.count + 1 })
        (record { bucket = bucket; window_start = start; count = 1 }) es in
    (es', count_of bucket start es')

-- The throw of a full window, behind its count.
abbrev pub within : (limit minutes now count : ℕ) → Answered (Unit {0})
within limit minutes now count =
    refuse (ltb limit count) (too_many_requests (seconds_until_reset now minutes))

-- record, and the rejection of a count over the limit: signupCheck, and the windows of windowedCheck
unfoldable pub counted :
    (limit minutes : ℕ) → String → ℕ → List Entry → List Entry × Answered (Unit {0})
unfolding record_hit window_start_for seconds_until_reset
counted limit minutes bucket now es =
    let (es', count) = record_hit bucket (window_start_for now minutes) es in
    (es', within limit minutes now count)

-- windowedCheck, where no limit disables the bucket
unfoldable pub windowed_check :
    Option ℕ → (minutes : ℕ) → String → ℕ → List Entry → List Entry × Answered (Unit {0})
unfolding counted
windowed_check none minutes bucket now es = (es, ok tt)
windowed_check (some limit) minutes bucket now es = counted limit minutes bucket now es

-- loginCheck, ahead of the password: nothing is counted
unfoldable pub login_check : (limit minutes : ℕ) → String → ℕ → List Entry → Answered (Unit {0})
unfolding count_of window_start_for seconds_until_reset
login_check limit minutes bucket now es =
    refuse
      (any (is_entry bucket (window_start_for now minutes)) es
        && leb limit (count_of bucket (window_start_for now minutes) es))
      (too_many_requests (seconds_until_reset now minutes))

-- The function that loginCheck returns, called for a failed login.
unfoldable pub login_failed :
    (limit minutes : ℕ) → String → ℕ → List Entry → List Entry × Answered (Unit {0})
unfolding counted
login_failed limit minutes bucket now es = counted limit minutes bucket now es

-- The configured numbers of the windows; the outer `none` is an absent key, the inner one a null.
pub record RateLimits : Type 0 where
  pub publish_per_window : Option (Option ℕ)
  pub publish_window_minutes : Option ℕ
  pub downloads_per_ip_per_window : Option (Option ℕ)
  pub download_window_minutes : Option ℕ

abbrev pub or_default : {A : Type 0} → A → Option A → A
or_default d none = d
or_default d (some a) = a

unfoldable pub publish_check :
    RateLimits → String → ℕ → List Entry → List Entry × Answered (Unit {0})
unfolding windowed_check
publish_check limits bucket now es =
    windowed_check (or_default (some 30) limits.publish_per_window)
      (or_default 60 limits.publish_window_minutes) bucket now es

unfoldable pub download_check :
    RateLimits → String → ℕ → List Entry → List Entry × Answered (Unit {0})
unfolding windowed_check
download_check limits bucket now es =
    windowed_check (or_default (some 240) limits.downloads_per_ip_per_window)
      (or_default 5 limits.download_window_minutes) bucket now es

-- The cleanup: DELETE FROM rate_limit_entries WHERE window_start < cutoff
unfoldable pub clean_up : (max_window now : ℕ) → List Entry → List Entry
clean_up max_window now es = delete (λ e. ltb e.window_start (now - window_length max_window)) es
