-- ===== src/RateLimit/Windows.antt =====
-- A window admits exactly as many requests as its limit.
use twexthub.Shared.{
  ℕ, ◌+◌, ◌-◌, ◌*◌, ◌/◌, ◌≤◌, min, String, ◌≡◌, refl, Bool, true, false, ◌&&◌, List, [], ◌∷◌, ◌++◌,
  ◌==◌, string_eq, nat_eq, ==_refl, arith, Bool-cases, inl, inr, any, ltb, leb, if◌then◌else◌, ok,
  err,
}
use native.Mathlib.Nat.{div-mul-le_self}
use twexthub.Shared.Rows.{update}
use twexthub.Access.Guards.{Answered}
use twexthub.RateLimit.{
  Entry, is_entry, count_of, record_hit, window_start_for, window_length, seconds_until_reset,
  counted, login_check, login_failed,
}

abbrev hit : Entry → Entry
hit e = record e { count = e.count + 1 }

count_of-update :
    (b c : String) (s w : ℕ) (es : List Entry)
    → count_of c w (update (is_entry b s) hit es)
      ≡ (if b == c && s == w && any (is_entry b s) es then count_of c w es + 1 else count_of c w es)
unfolding count_of
count_of-update b c s w [] = ground arith
count_of-update b c s w (e ∷ es) = ground (
  arith,
  count_of-update b c s w es,
  string_eq.beq_iff b c,
  nat_eq.beq_iff s w,
  string_eq.beq_iff e.bucket b,
  string_eq.beq_iff e.bucket c,
  nat_eq.beq_iff e.window_start s,
  nat_eq.beq_iff e.window_start w,
)

count_of-append :
    (b c : String) (s w : ℕ) (es : List Entry)
    → any (is_entry b s) es ≡ false
    → count_of c w (es ++ record { bucket = b; window_start = s; count = 1 } ∷ [])
      ≡ (if b == c && s == w then count_of c w es + 1 else count_of c w es)
unfolding count_of
count_of-append b c s w [] h = ground arith
count_of-append b c s w (e ∷ es) h = ground (
  arith,
  count_of-append b c s w es,
  string_eq.beq_iff b c,
  nat_eq.beq_iff s w,
  string_eq.beq_iff e.bucket b,
  string_eq.beq_iff e.bucket c,
  nat_eq.beq_iff e.window_start s,
  nat_eq.beq_iff e.window_start w,
)

-- A counted request raises the count of its own window by one, and no other.
count_of-record_hit :
    (b c : String) (s w : ℕ) (es : List Entry)
    → count_of c w (record_hit b s es).0
      ≡ (if b == c && s == w then count_of c w es + 1 else count_of c w es)
unfolding record_hit
count_of-record_hit b c s w es = elim (Bool-cases (any (is_entry b s) es)) [
  | inl there ↦ rw there (ground (arith, count_of-update b c s w es))
  | inr new ↦ rw new (count_of-append b c s w es new)
]

record_hit-count :
    (b : String) (s : ℕ) (es : List Entry) → (record_hit b s es).1 ≡ count_of b s es + 1
unfolding record_hit
record_hit-count b s es = ground (arith, count_of-record_hit b b s s es, ==_refl b, ==_refl s)

abbrev is_ok : Answered (Unit {0}) → Bool
is_ok (ok t) = true
is_ok (err e) = false

module _ (limit minutes : ℕ) (bucket : String) where
  -- How many requests of the window that starts at `w` are admitted, of requests at these times.
  abbrev pub admitted : ℕ → List ℕ → List Entry → ℕ
  admitted w [] es = 0
  admitted w (now ∷ times) es =
      (if window_start_for now minutes == w && is_ok (counted limit minutes bucket now es).1
        then 1
        else 0)
      + admitted w times (counted limit minutes bucket now es).0

  -- How many of the times are in the window.
  abbrev pub arrived : ℕ → List ℕ → ℕ
  arrived w [] = 0
  arrived w (now ∷ times) = (if window_start_for now minutes == w then 1 else 0) + arrived w times

  is_ok-counted :
      (now : ℕ) (es : List Entry)
      → is_ok (counted limit minutes bucket now es).1
        ≡ leb (count_of bucket (window_start_for now minutes) es + 1) limit
  unfolding counted
  is_ok-counted now es =
      rw (record_hit-count bucket (window_start_for now minutes) es) (ground arith)

  count_of-counted :
      (w now : ℕ) (es : List Entry)
      → count_of bucket w (counted limit minutes bucket now es).0 ≡ (
          if window_start_for now minutes == w
          then count_of bucket w es + 1
          else count_of bucket w es)
  unfolding counted
  count_of-counted w now es =
      rw (count_of-record_hit bucket bucket (window_start_for now minutes) w es, ==_refl bucket)
        refl

  -- Whatever the times of the requests to a bucket, each window admits its first requests up to the
  -- limit and rejects the rest: the number admitted is the lesser of those that arrived and what was
  -- left of the limit.
  pub admitted-eq-min :
      (w : ℕ) (times : List ℕ) (es : List Entry)
      → admitted w times es ≡ min (arrived w times) (limit - count_of bucket w es)
  admitted-eq-min w [] es = omega arith
  admitted-eq-min w (now ∷ times) es =
      let rest = admitted-eq-min w times (counted limit minutes bucket now es).0 in
      ground (
        arith,
        rest,
        is_ok-counted now es,
        count_of-counted w now es,
        nat_eq.beq_iff (window_start_for now minutes) w,
      )

count_of-eq-zero :
    (b : String) (w : ℕ) (es : List Entry) → any (is_entry b w) es ≡ false → count_of b w es ≡ 0
unfolding count_of
count_of-eq-zero b w [] h = refl
count_of-eq-zero b w (e ∷ es) h = ground (arith, count_of-eq-zero b w es)

module _ (limit minutes : ℕ) (bucket : String) where
  abbrev after_check : ℕ → List Entry → Answered (Unit {0}) → List Entry × Bool
  after_check now es (ok t) = ((login_failed limit minutes bucket now es).0, true)
  after_check now es (err e) = (es, false)

  -- The table after a login with a wrong password, and whether the password was looked at.
  abbrev pub wrong_login : ℕ → List Entry → List Entry × Bool
  wrong_login now es = after_check now es (login_check limit minutes bucket now es)

  -- How many passwords were looked at in the window that starts at `w`.
  abbrev pub guesses : ℕ → List ℕ → List Entry → ℕ
  guesses w [] es = 0
  guesses w (now ∷ times) es =
      (if window_start_for now minutes == w && (wrong_login now es).1 then 1 else 0)
      + guesses w times (wrong_login now es).0

  wrong_login-guess :
      (now : ℕ) (es : List Entry)
      → 1 ≤ limit
      → (wrong_login now es).1 ≡ ltb (count_of bucket (window_start_for now minutes) es) limit
  unfolding login_check
  wrong_login-guess now es h =
      ground (arith, h, count_of-eq-zero bucket (window_start_for now minutes) es)

  after_check-count :
      (w now : ℕ) (es : List Entry) (r : Answered (Unit {0}))
      → count_of bucket w (after_check now es r).0 ≡ (
          if window_start_for now minutes == w && (after_check now es r).1
          then count_of bucket w es + 1
          else count_of bucket w es)
  unfolding login_failed
  after_check-count w now es (ok t) = ground (arith, count_of-counted limit minutes bucket w now es)
  after_check-count w now es (err e) = ground arith

  -- However many logins with a wrong password are tried, no more passwords are looked at in a window
  -- than its limit has left, and exactly as many if enough are tried, if the limit is at least one.
  pub guesses-eq-min :
      (w : ℕ) (times : List ℕ) (es : List Entry)
      → 1 ≤ limit
      → guesses w times es
        ≡ min (arrived limit minutes bucket w times) (limit - count_of bucket w es)
  guesses-eq-min w [] es h = omega arith
  guesses-eq-min w (now ∷ times) es h =
      let rest = guesses-eq-min w times (wrong_login now es).0 h in
      ground (
        arith,
        rest,
        wrong_login-guess now es h,
        after_check-count w now es (login_check limit minutes bucket now es),
        nat_eq.beq_iff (window_start_for now minutes) w,
      )

-- A rejection names a wait of at least a second and at most the window's length, if the window has at
-- least a minute.
pub seconds_until_reset-bounds :
    (now minutes : ℕ)
    → 1 ≤ minutes
    → (1 ≤ seconds_until_reset now minutes) × (seconds_until_reset now minutes ≤ minutes * 60)
unfolding seconds_until_reset window_start_for
seconds_until_reset-bounds now minutes h =
    let elapsed : now / window_length minutes * window_length minutes ≤ now =
      div-mul-le_self now (window_length minutes) in
    (omega arith, omega (arith, elapsed))
