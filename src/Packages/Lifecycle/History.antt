-- ===== src/Packages/Lifecycle/History.antt =====
-- Sequences of the requests that write the table of versions.
use twexthub.Shared.{ℕ, String, Bool, ◌≡◌, true, Option, nat_eq, string_eq, ok}
use twexthub.Util.Versions.{Semver}
use twexthub.Db.{Db, User, Address, Status}
use twexthub.Access.Credentials.{Auth}
use twexthub.Access.Guards.{Answered}
use twexthub.Transfer.Offers.{Limits}
use twexthub.Transfer.Move.{Moved, accept_transfer}
use twexthub.Packages.Requests.{Field, Effect}
use twexthub.Packages.Publish.{Disk}
use twexthub.Packages.Publish.Route.{Built, publish}
use twexthub.Packages.Review.{patch_version, yank}
use twexthub.Packages.Removal.{remove_extension}
use twexthub.Packages.Lifecycle.Settled.{is_final, IsSettled}
use twexthub.Packages.Lifecycle.Edits.{
  patch_version-IsSettled, yank-IsSettled, remove_extension-IsSettled,
}
use twexthub.Packages.Lifecycle.Writes.{accept_transfer-IsSettled, publish-IsSettled}

module _ (sv : Semver) (limits : Limits) where
  -- One request that writes the table of versions, answered without an error or with one.
  pub data Step : Db → Db → Type 0 where
    published_step :
        (disk : Disk) (now : ℕ) (terms : Option ℕ) (caller : Option Auth) (a : Address)
        (upload : Option ℕ) (visibility : Field) (build : Answered Built) {db : Db}
        → Step db (publish sv limits disk now terms caller a upload visibility build db).0
    patched_step :
        (now : ℕ) (terms : Option ℕ) (caller : Option Auth) (is_object : Bool) (a : Address)
        (v : String) (status message reason : Field) {db : Db} {e : Effect}
        → patch_version now terms caller is_object a v status message reason db ≡ ok e
        → Step db e.db
    yanked_step :
        (terms : Option ℕ) (caller : Option Auth) (a : Address) (v : String) {db : Db} {e : Effect}
        → yank sv terms caller a v db ≡ ok e
        → Step db e.db
    removed_step :
        (terms : Option ℕ) (caller : Option Auth) (a : Address) {db : Db} {e : Effect}
        → remove_extension terms caller a db ≡ ok e
        → Step db e.db
    transferred_step :
        (actor : User) (a : Address) (to : String) (recipient : User) {db db' : Db} {m : Moved}
        → accept_transfer limits actor a to recipient db ≡ ok (db', m)
        → Step db db'

  pub data History : Db → Db → Type 0 where
    start : {db : Db} → History db db
    then_step : {db mid db' : Db} → History db mid → Step mid db' → History db db'

  Step-IsSettled :
      (id : ℕ) (s : Status) {db db' : Db}
      → is_final s ≡ true
      → Step db db'
      → IsSettled id s db
      → IsSettled id s db'
  Step-IsSettled id s final (published_step disk now terms caller a upload visibility build {db})
        h =
      publish-IsSettled id s final sv limits disk now terms caller a upload visibility build db h
  Step-IsSettled id s final
        (patched_step now terms caller is_object a v status message reason {db} {e} r) h =
      patch_version-IsSettled id s final now terms caller is_object a v status message reason db e h
        r
  Step-IsSettled id s final (yanked_step terms caller a v {db} {e} r) h =
      yank-IsSettled id s final sv terms caller a v db e h r
  Step-IsSettled id s final (removed_step terms caller a {db} {e} r) h =
      remove_extension-IsSettled id s final terms caller a db e h r
  Step-IsSettled id s final (transferred_step actor a to recipient {db} {db'} {m} r) h =
      accept_transfer-IsSettled id s final limits actor a to recipient db db' m h r

  -- A rejected or a yanked version never comes back: whatever sequence of publishing, review,
  -- deprecation, yanking, removal and accepted transfers follows, if the table's ids are behind its
  -- sequence, the version of that id keeps its status for as long as the table holds it, and no other
  -- version takes its id.
  pub History-IsSettled :
      (id : ℕ) (s : Status) {db db' : Db}
      → is_final s ≡ true
      → History db db'
      → IsSettled id s db
      → IsSettled id s db'
  History-IsSettled id s final start h = h
  History-IsSettled id s final (then_step past step) h =
      Step-IsSettled id s final step (History-IsSettled id s final past h)
