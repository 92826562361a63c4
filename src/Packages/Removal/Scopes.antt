-- ===== src/Packages/Removal/Scopes.antt =====
-- The scopes of a credential do not matter to a removal.
use twexthub.Shared.{ℕ, String, ◌≡◌, refl, Option, some, List, Bool-cases, inl, inr}
use twexthub.Db.{Db, Address}
use twexthub.Access.Credentials.{Auth}
use twexthub.Access.Guards.{require_auth}
use twexthub.Access.Terms.{gate_with, outdated}
use twexthub.Packages.Requests.{owner_chain}
use twexthub.Packages.Removal.{remove_extension}

-- The answer to a removal, and the tables it leaves, are the same for a credential with any other list
-- of scopes, the empty one included.
pub remove_extension-scopes :
    (terms : Option ℕ) (auth : Auth) (scopes : List String) (a : Address) (db : Db)
    → remove_extension terms (some (record auth { scopes = scopes })) a db
      ≡ remove_extension terms (some auth) a db
unfolding remove_extension owner_chain require_auth gate_with
remove_extension-scopes terms auth scopes a db =
    elim (Bool-cases (outdated terms auth.user.terms_accepted_version)) [
      | inl e ↦ rw e refl
      | inr e ↦ rw e refl
    ]
