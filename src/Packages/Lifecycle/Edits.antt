-- ===== src/Packages/Lifecycle/Edits.antt =====
-- The edits of src/routes/packages.js leave a version in a final status alone.
use twexthub.Shared.{
  Bool, ℕ, String, ◌≡◌, refl, true, ◌&&◌, Option, none, some, ◌==◌, nat_eq, string_eq, Bool-cases,
  inl, inr, All, All-keep, All-Memᴰ, find, find-Memᴰ, keep, if◌then◌else◌, ok, require-ok,
  refuse-ok, present-ok, >>=-eq-ok, ok-injective, any,
}
use twexthub.Http.Errors.{not_found}
use twexthub.Util.Regex.{test}
use twexthub.Util.Versions.{Semver}
use twexthub.Db.{
  Db, User, Row, Version, Address, Status, is_at, is_listed, is_pending, is_published, is_staging,
}
use twexthub.Notify.{audit, notify_user}
use twexthub.Access.Credentials.{Auth, includes}
use twexthub.Access.Guards.{assert_admin}
use twexthub.Transfer.Offers.{is_empty, versions_at}
use twexthub.Packages.Requests.{
  Field, text, absent, null, other, Effect, valid_address, is_extension_owner, owner_chain,
  scope_chain, field_error,
}
use twexthub.Packages.Resolve.{
  load_version, load_latest_published, latest_pool, visible_versions, resolve_version, row_or_tag,
  find_tag, tag_pattern,
}
use twexthub.Packages.Publish.{crash}
use twexthub.Packages.Review.{
  reject, approve, review_version, deprecate_version, deprecate_row, filled_text, still_pending,
  both_or_neither, parse_message, is_absent, patch_version, yank, yank_row, reject_row, approve_row,
  judge,
}
use twexthub.Packages.Removal.{remove_rows, remove_extension}
use twexthub.Packages.Lifecycle.Settled.{
  is_final, Settles, IsSettled, set_version-IsSettled, set_pending-IsSettled, deprecate_row-id,
  deprecate_effect-db,
}

module _ (id : ℕ) (s : Status) (final : is_final s ≡ true) where
  -- Where a lookup of the routes answers a row, it is one of the table.
  pub load_version-Settles :
      (db : Db) (a : Address) (v : String) (row : Row Version)
      → IsSettled id s db
      → load_version db a v ≡ some row
      → Settles db.next_version_id id s row
  unfolding load_version
  load_version-Settles db a v row h e =
      All-Memᴰ (Settles db.next_version_id id s) db.versions row (find-Memᴰ _ db.versions row e).0
        h.0

  pub load_latest_published-Settles :
      (sv : Semver) (db : Db) (caller : Option User) (a : Address) (row : Row Version)
      → IsSettled id s db
      → load_latest_published sv db caller a ≡ some row
      → Settles db.next_version_id id s row
  unfolding load_latest_published visible_versions latest_pool
  load_latest_published-Settles sv db caller a row h e =
      let P = Settles db.next_version_id id s in
      let seen = All-keep P _ _ (All-keep P _ db.versions h.0) in
      let pool : All P (latest_pool (visible_versions db caller a)) =
        elim (Bool-cases
          (is_empty (keep (λ r. is_published r.cols.status) (visible_versions db caller a)))) [
            | inl none_yet ↦ rw none_yet seen
            | inr some_yet ↦ rw some_yet (All-keep P _ _ seen)
          ] in
      All-Memᴰ P _ row (find-Memᴰ _ _ row e).0 pool

  pub row_or_tag-Settles :
      (db : Db) (a : Address) (v : String) (o : Option (Row Version)) (row : Row Version)
      → IsSettled id s db
      → ((r : Row Version) → o ≡ some r → Settles db.next_version_id id s r)
      → row_or_tag db a v o ≡ ok (some row)
      → Settles db.next_version_id id s row
  unfolding row_or_tag
  row_or_tag-Settles db a v (some found) row h k e = k row (ok-injective e)
  row_or_tag-Settles db a v none row h k e =
      let (_, e1) = require-ok (test tag_pattern v) _ _ e in
      let (tag, _, e2) = present-ok (find_tag db a v) (not_found "Not found.") _ e1 in
      load_version-Settles db a tag.cols.version row h (ok-injective e2)

  pub resolve_version-Settles :
      (sv : Semver) (db : Db) (caller : Option User) (a : Address) (v : String) (row : Row Version)
      → IsSettled id s db
      → resolve_version sv db caller a v ≡ ok (some row)
      → Settles db.next_version_id id s row
  unfolding resolve_version
  resolve_version-Settles sv db caller a v row h e =
      row_or_tag-Settles db a v
        (if v == "latest" then load_latest_published sv db caller a else load_version db a v) row h
        (λ r e'. elim (Bool-cases (v == "latest")) [
          | inl latest ↦ load_latest_published-Settles sv db caller a r h (rw latest at e')
          | inr named ↦ load_version-Settles db a v r h (rw named at e')
        ])
        e

  pub deprecate_version-IsSettled :
      (auth : Auth) (a : Address) (v : String) (message : Option String) (db : Db) (e : Effect)
      → IsSettled id s db
      → deprecate_version auth a v message db ≡ ok e
      → IsSettled id s e.db
  unfolding deprecate_version audit
  deprecate_version-IsSettled auth a v message db e h r =
      let (_, r1) = require-ok (includes auth.scopes "publish") _ _ r in
      let (_, _, r2) = >>=-eq-ok (valid_address a) _ r1 in
      let (row, found, r3) = present-ok (load_version db a v) (not_found "Not found.") _ r2 in
      let (listed, r4) = require-ok (is_listed row.cols.status) _ _ r3 in
      let (_, r5) = require-ok (is_extension_owner db auth.user a) _ _ r4 in
      let settled =
        set_version-IsSettled id s final row (deprecate_row message) db
          (load_version-Settles db a v row h found) listed (deprecate_row-id message) h in
      rw (← ok-injective r5, deprecate_effect-db message a) settled

  pub judge-IsSettled :
      (now : ℕ) (auth : Auth) (a : Address) (row : Row Version) (status reason : Field) (db : Db)
      (e : Effect)
      → IsSettled id s db
      → judge now auth a row status reason db ≡ ok e
      → IsSettled id s e.db
  unfolding judge reject approve audit notify_user
  judge-IsSettled now auth a row (text w) reason db e h r = elim (Bool-cases (w == "rejected")) [
    | inl refused ↦
        let (why, _, r1) =
          present-ok (filled_text reason)
            (field_error "reason" "A reason is required when rejecting.") _ (rw refused at r) in
        let (_, r2) = require-ok (still_pending row.cols.id db) _ _ r1 in
        rw (← ok-injective r2)
          (set_pending-IsSettled id s final row.cols.id (reject_row why) db (λ v. refl) h)
    | inr kept ↦ elim (Bool-cases (w == "approved")) [
      | inl approved ↦
          let (_, r2) = require-ok (still_pending row.cols.id db) _ _ (rw (kept, approved) at r) in
          rw (← ok-injective r2)
            (set_pending-IsSettled id s final row.cols.id (approve_row now) db (λ v. refl) h)
      | inr unknown ↦ let failed = rw (kept, unknown) at r in cc
    ]
  ]
  judge-IsSettled now auth a row absent reason db e h r = cc
  judge-IsSettled now auth a row null reason db e h r = cc
  judge-IsSettled now auth a row other reason db e h r = cc

  pub review_version-IsSettled :
      (now : ℕ) (auth : Auth) (a : Address) (v : String) (status reason : Field) (db : Db)
      (e : Effect)
      → IsSettled id s db
      → review_version now auth a v status reason db ≡ ok e
      → IsSettled id s e.db
  unfolding review_version
  review_version-IsSettled now auth a v status reason db e h r =
      let (_, _, r1) = >>=-eq-ok (assert_admin (some auth)) _ r in
      let (_, _, r2) = >>=-eq-ok (valid_address a) _ r1 in
      let (row, _, r3) =
        present-ok
          (find (λ r. is_at a r && r.cols.version == v && is_pending r.cols.status) db.versions)
          (not_found "No pending version matches that address.") _ r2 in
      judge-IsSettled now auth a row status reason db e h r3

  pub patch_version-IsSettled :
      (now : ℕ) (terms : Option ℕ) (caller : Option Auth) (is_object : Bool) (a : Address)
      (v : String) (status message reason : Field) (db : Db) (e : Effect)
      → IsSettled id s db
      → patch_version now terms caller is_object a v status message reason db ≡ ok e
      → IsSettled id s e.db
  unfolding patch_version
  patch_version-IsSettled now terms caller is_object a v status message reason db e h r =
      let (auth, _, r1) = >>=-eq-ok (owner_chain terms caller) _ r in
      let (_, r1') = require-ok is_object _ _ r1 in
      let (_, r2) = refuse-ok (both_or_neither status message) _ _ r1' in
      elim (Bool-cases (is_absent status)) [
        | inr given ↦ review_version-IsSettled now auth a v status reason db e h (rw given at r2)
        | inl missing ↦
            let (notice, _, r3) = >>=-eq-ok (parse_message message) _ (rw missing at r2) in
            deprecate_version-IsSettled auth a v notice db e h r3
      ]

  pub yank-IsSettled :
      (sv : Semver) (terms : Option ℕ) (caller : Option Auth) (a : Address) (v : String) (db : Db)
      (e : Effect)
      → IsSettled id s db
      → yank sv terms caller a v db ≡ ok e
      → IsSettled id s e.db
  unfolding yank audit
  yank-IsSettled sv terms caller a v db e h r =
      let (auth, _, r1) = >>=-eq-ok (scope_chain "yank" terms caller) _ r in
      let (_, _, r2) = >>=-eq-ok (valid_address a) _ r1 in
      let (found, resolved, r3) = >>=-eq-ok (resolve_version sv db (some auth.user) a v) _ r2 in
      let (row, is_row, r4) = present-ok found crash _ r3 in
      let (listed, r5) = require-ok (is_listed row.cols.status) _ _ r4 in
      let (_, r6) = require-ok (is_extension_owner db auth.user a) _ _ r5 in
      rw (← ok-injective r6) (
        set_version-IsSettled id s final row yank_row db
          (resolve_version-Settles sv db (some auth.user) a v row h (rw is_row at resolved)) listed
          (λ v. refl) h)

  pub remove_extension-IsSettled :
      (terms : Option ℕ) (caller : Option Auth) (a : Address) (db : Db) (e : Effect)
      → IsSettled id s db
      → remove_extension terms caller a db ≡ ok e
      → IsSettled id s e.db
  unfolding remove_extension remove_rows audit
  remove_extension-IsSettled terms caller a db e h r =
      let (auth, _, r1) = >>=-eq-ok (owner_chain terms caller) _ r in
      let (_, _, r2) = >>=-eq-ok (valid_address a) _ r1 in
      let (_, r3) = require-ok (is_extension_owner db auth.user a) _ _ r2 in
      let (_, r4) = refuse-ok (is_empty (versions_at db a)) _ _ r3 in
      let (_, r5) = refuse-ok (any (λ r. is_staging r.cols.status) (versions_at db a)) _ _ r4 in
      rw (← ok-injective r5) (All-keep (Settles db.next_version_id id s) _ db.versions h.0, h.1)
