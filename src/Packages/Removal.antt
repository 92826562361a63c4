-- ===== src/Packages/Removal.antt =====
-- DELETE /@:namespace/:id of src/routes/packages.js: the transaction that removes an extension.
-- Its dist-tags and its owner list survive; the stored files are removed behind it.
pub mod Refund
pub mod Scopes
use twexthub.Shared.{
  ℕ, ◌+◌, ◌-◌, String, Bool, true, false, ◌&&◌, Option, none, some, List, [], ◌∷◌, ◌==◌, string_eq,
  nat_eq, any, keep, find, ltb, length, if◌then◌else◌, ok, err, refuse, require, present, ◌>>=◌,
  ◌>>◌,
}
use twexthub.Shared.Rows.{update, delete}
use twexthub.Http.Errors.{not_found, forbidden, conflict}
use twexthub.Db.{Db, User, Row, Version, Address, Datum, number, is_at, is_staging}
use twexthub.Notify.{audit}
use twexthub.Access.Credentials.{Auth}
use twexthub.Access.Guards.{Answered}
use twexthub.Transfer.Offers.{charged_bytes, versions_at, is_empty}
use twexthub.Packages.Requests.{Effect, silent, owner_chain, valid_address, is_extension_owner}

-- UPDATE users SET blob_bytes = GREATEST(blob_bytes - charged, 0) WHERE id = account.id
unfoldable pub refund : String → ℕ → List User → List User
refund namespace charged users =
    if ltb 0 charged
    then (elim (find (λ u. u.namespace == namespace) users) [
      | none ↦ users
      | some account ↦
          update (λ u. u.id == account.id) (λ u. record u { blob_bytes = u.blob_bytes - charged })
            users
    ])
    else users

-- The statements between BEGIN and COMMIT.
unfoldable pub remove_rows : Address → Db → Db
unfolding refund charged_bytes
remove_rows a db = record db {
  versions = delete (is_at a) db.versions;
  extension_owner_invites = delete (is_at a) db.extension_owner_invites;
  extension_transfers = delete (is_at a) db.extension_transfers;
  users = refund a.namespace (charged_bytes (versions_at db a)) db.users;
}

unfoldable pub remove_extension : Option ℕ → Option Auth → Address → Db → Answered Effect
unfolding owner_chain valid_address is_extension_owner charged_bytes remove_rows audit
remove_extension terms caller a db = do
  auth ← owner_chain terms caller
  valid_address a
  require (is_extension_owner db auth.user a) (forbidden "You can only delete your own extensions.")
  refuse (is_empty (versions_at db a)) (not_found "Not found.")
  refuse (any (λ r. is_staging r.cols.status) (versions_at db a))
      (conflict "A publish is in progress for this extension.")
  ok (
      silent (
        audit auth.user "extension.delete" (some a.namespace) (some a.id) none
          (("versions", number (length (versions_at db a)))
            ∷ ("bytesRefunded", number (charged_bytes (versions_at db a)))
            ∷ [])
          (remove_rows a db)))
