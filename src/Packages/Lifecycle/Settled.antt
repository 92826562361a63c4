-- ===== src/Packages/Lifecycle/Settled.antt =====
-- A version in a final status, and the two ways in which the routes write a status.
use twexthub.Shared.{
  ℕ, String, ◌≡◌, refl, sym, ◌∙◌, Bool, true, false, ◌&&◌, Option, none, some, ◌==◌, nat_eq,
  string_eq, arith, All, ltb, ok, err,
}
use twexthub.Shared.Rows.{All-update}
use twexthub.Db.{
  Db, Row, Version, Address, Status, staging, pending, published, rejected, yanked, deprecated,
  is_listed, is_pending,
}
use twexthub.Access.Guards.{Answered}
use twexthub.Packages.Publish.{set_version}
use twexthub.Packages.Publish.Route.{published_effect}
use twexthub.Packages.Review.{set_pending, deprecate_row, deprecate_effect}

-- The two statuses that a version does not leave.
abbrev pub is_final : Status → Bool
is_final rejected = true
is_final yanked = true
is_final _ = false

pub final-listed : (s : Status) → is_final s ≡ true → is_listed s ≡ false
final-listed rejected h = refl
final-listed yanked h = refl
final-listed staging h = refl
final-listed pending h = refl
final-listed published h = cc
final-listed deprecated h = cc

pub final-pending : (s : Status) → is_final s ≡ true → is_pending s ≡ false
final-pending rejected h = refl
final-pending yanked h = refl
final-pending staging h = refl
final-pending pending h = cc
final-pending published h = refl
final-pending deprecated h = refl

-- A row below the sequence, and the version `id` only in the status `s`.
abbrev pub Settles : (next id : ℕ) → Status → Row Version → Type 0
Settles next id s r = (ltb r.cols.id next ≡ true) × (r.cols.id ≡ id → r.cols.status ≡ s)

-- The version `id` has been assigned, and is in the status `s` if it is still there.
abbrev pub IsSettled : ℕ → Status → Db → Type 0
IsSettled id s db =
    All (Settles db.next_version_id id s) db.versions × (ltb id db.next_version_id ≡ true)

pub deprecate_row-id : (message : Option String) (v : Version) → (deprecate_row message v).id ≡ v.id
deprecate_row-id none v = refl
deprecate_row-id (some m) v = refl

pub deprecate_effect-db :
    (message : Option String) (a : Address) (db : Db) → (deprecate_effect message a db).db ≡ db
deprecate_effect-db none a db = refl
deprecate_effect-db (some m) a db = refl

pub published_effect-db :
    (a : Address) (p : Db × Answered (Row Version)) → (published_effect a p).0 ≡ p.0
published_effect-db a (db, err e) = refl
published_effect-db a (db, ok row) = refl

module _ (id : ℕ) (s : Status) (final : is_final s ≡ true) where
  pub set_version-IsSettled :
      (row : Row Version) (f : Version → Version) (db : Db)
      → Settles db.next_version_id id s row
      → is_listed row.cols.status ≡ true
      → ((v : Version) → (f v).id ≡ v.id)
      → IsSettled id s db
      → IsSettled id s (set_version row.cols.id f db)
  set_version-IsSettled row f db found listed same h = (
    All-update (Settles db.next_version_id id s) (λ r. r.cols.id == row.cols.id)
        (λ r. record r { cols = f r.cols }) db.versions
        (λ r settled named.
          let same_id : r.cols.id ≡ row.cols.id =
            ground (arith, nat_eq.beq_iff r.cols.id row.cols.id) in
          (
            rw (same r.cols) settled.0,
            λ e.
                let stuck : row.cols.status ≡ s = found.1 (sym same_id ∙ sym (same r.cols) ∙ e) in
                let unlisted = final-listed s final in cc,
          ))
        h.0,
    h.1,
  )

  pub set_pending-IsSettled :
      (n : ℕ) (f : Version → Version) (db : Db)
      → ((v : Version) → (f v).id ≡ v.id)
      → IsSettled id s db
      → IsSettled id s (set_pending n f db)
  set_pending-IsSettled n f db same h = (
    All-update (Settles db.next_version_id id s) (λ r. r.cols.id == n && is_pending r.cols.status)
        (λ r. record r { cols = f r.cols }) db.versions
        (λ r settled named. (
          rw (same r.cols) settled.0,
          λ e.
              let stuck : r.cols.status ≡ s = settled.1 (sym (same r.cols) ∙ e) in
              let waits : is_pending r.cols.status ≡ true = ground arith in
              let done = final-pending s final in cc,
        ))
        h.0,
    h.1,
  )
