-- ===== src/Packages/Lifecycle/Writes.antt =====
-- Publishing and transfers leave a version in a final status alone.
use twexthub.Shared.{
  ℕ, ◌+◌, String, ◌≡◌, true, Option, none, some, [], ◌∷◌, nat_eq, string_eq, arith, inl, inr,
  All-append, All-imp, ok, err,
}
use twexthub.Shared.Rows.{All-update}
use twexthub.Util.Versions.{Semver}
use twexthub.Db.{Db, User, Address, Visibility, Status, is_at}
use twexthub.Access.Credentials.{Auth}
use twexthub.Access.Guards.{Answered}
use twexthub.Transfer.Offers.{Limits}
use twexthub.Transfer.Move.{Moved, move, rename, move_extension, accept_transfer}
use twexthub.Transfer.Accepted.{accept_transfer-Accepted, destination}
use twexthub.Packages.Requests.{Field}
use twexthub.Packages.Resolve.{shown}
use twexthub.Packages.Publish.{Disk, publish_version}
use twexthub.Packages.Publish.Route.{Built, publish, publish_built}
use twexthub.Packages.Publish.Growth.{Grown, IsNumbered, publish_version-Grown}
use twexthub.Packages.Lifecycle.Settled.{is_final, Settles, IsSettled, published_effect-db}

module _ (id : ℕ) (s : Status) (final : is_final s ≡ true) where
  pub accept_transfer-IsSettled :
      (limits : Limits) (actor : User) (a : Address) (to : String) (recipient : User) (db db' : Db)
      (m : Moved)
      → IsSettled id s db
      → accept_transfer limits actor a to recipient db ≡ ok (db', m)
      → IsSettled id s db'
  unfolding move_extension
  accept_transfer-IsSettled limits actor a to recipient db db' m h e =
      let P = Settles db.next_version_id id s in
      let acc = accept_transfer-Accepted limits actor a to recipient db db' m e in
      rw acc.tables.same (
        All-update P (is_at (destination a to))
            (λ r. record r { cols = record r.cols { author = some recipient.display_name } })
            (move a to db.versions) (λ r settled at. settled)
            (All-update P (is_at a) (rename to) db.versions (λ r settled at. settled) h.0),
        h.1,
      )

  Grown-IsSettled :
      (owner credential : User) (a : Address) (bytes : ℕ) (db db' : Db)
      → IsSettled id s db
      → Grown owner credential a bytes db db'
      → IsSettled id s db'
  Grown-IsSettled owner credential a bytes db db' h g =
      let n = db.next_version_id in
      rw (g.versions, g.next)
        (
          All-append (Settles (n + 1) id s) db.versions (g.row ∷ [])
              (All-imp (Settles n id s) (Settles (n + 1) id s)
                (λ r settled. (ground (arith, settled.0), settled.1)) db.versions h.0)
              ((ground (arith, g.id), λ e. ground (arith, g.id, e, h.1)), tt),
          ground (arith, h.1),
        )

  pub publish_built-IsSettled :
      (sv : Semver) (limits : Limits) (disk : Disk) (now : ℕ) (auth : Auth) (a : Address) (db : Db)
      (m : Answered (User × Visibility × Built))
      → IsSettled id s db
      → IsSettled id s (publish_built sv limits disk now auth a db m).0
  unfolding publish_built
  publish_built-IsSettled sv limits disk now auth a db (err e) h = h
  publish_built-IsSettled sv limits disk now auth a db (ok (owner, shown, built)) h =
      let numbered : IsNumbered db = All-imp _ _ (λ r settled. settled.0) db.versions h.0 in
      let out =
        publish_version sv limits disk now owner auth.user a built.manifest built.artifacts shown
          db in
      rw (published_effect-db a out)
        (elim (publish_version-Grown sv limits disk now owner auth.user a built.manifest
          built.artifacts shown db numbered) [
            | inl same ↦ rw same h
            | inr g ↦ Grown-IsSettled owner auth.user a _ db _ h g
          ])

  pub publish-IsSettled :
      (sv : Semver) (limits : Limits) (disk : Disk) (now : ℕ) (terms : Option ℕ)
      (caller : Option Auth) (a : Address) (upload : Option ℕ) (visibility : Field)
      (build : Answered Built) (db : Db)
      → IsSettled id s db
      → IsSettled id s (publish sv limits disk now terms caller a upload visibility build db).0
  unfolding publish
  publish-IsSettled sv limits disk now terms none a upload visibility build db h = h
  publish-IsSettled sv limits disk now terms (some auth) a upload visibility build db h =
      publish_built-IsSettled sv limits disk now auth a db _ h
