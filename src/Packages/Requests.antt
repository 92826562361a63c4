-- ===== src/Packages/Requests.antt =====
-- What the handlers of src/routes/packages.js share: their guards, their effects and the fields of
-- a request's body.
use twexthub.Shared.{
  ℕ, String, Bool, ◌&&◌, ◌||◌, Option, some, List, [], ◌∷◌, ◌==◌, string_eq, require, ◌>>=◌,
}
use twexthub.Util.Names.{is_valid_namespace, is_valid_extension_id}
use twexthub.Http.Errors.{make, HttpError, field_errors, not_found}
use twexthub.Db.{Db, User, Address, is_admin_role}
use twexthub.Access.Credentials.{Auth}
use twexthub.Access.Guards.{Answered, require_auth, require_scope}
use twexthub.Access.Ownership.{is_organization_owner}
use twexthub.Access.Ownership
use twexthub.Access.Terms.{gate_with}

-- A property of a JSON body, as far as the handlers tell values apart.
pub data Field : Type 0 where
  absent : Field
  null : Field
  text : String → Field
  other : Field

-- A call of `webhooks.scheduleFor`, made once the transaction has committed.
pub record Scheduled : Type 0 where
  pub address : Address
  pub event : String

-- What a handler did: the tables, and the deliveries that it scheduled.
pub record Effect : Type 0 where
  pub db : Db
  pub scheduled : List Scheduled

abbrev pub silent : Db → Effect
silent db = record { db = db; scheduled = [] }

abbrev pub announce : Address → String → Db → Effect
announce a event db = record { db = db; scheduled = record { address = a; event = event } ∷ [] }

abbrev pub field_error : String → String → HttpError
field_error field message = field_errors (record { field = field; message = message } ∷ [])

-- requireObjectBody
abbrev pub object_body : Bool → Answered (Unit {0})
object_body is_object =
    require is_object
      (make 422 (some "Validation Error") (some "Request body must be a JSON object."))

-- ownerChain: requireAuth and the terms gate, which reads `terms`
unfoldable pub owner_chain : Option ℕ → Option Auth → Answered Auth
unfolding require_auth gate_with
owner_chain terms caller = do auth ← require_auth caller; gate_with terms caller

-- publishChain and yankChain
unfoldable pub scope_chain : String → Option ℕ → Option Auth → Answered Auth
unfolding owner_chain require_scope
scope_chain scope terms caller = do auth ← owner_chain terms caller; require_scope scope caller

-- if (!isValidNamespace(namespace) || !isValidExtensionId(id)) throw notFound();
unfoldable pub valid_address : Address → Answered (Unit {0})
valid_address a =
    require (is_valid_namespace a.namespace && is_valid_extension_id a.id) (not_found "Not found.")

-- The same for a route with a second namespace.
unfoldable pub valid_route : Address → String → Answered (Unit {0})
valid_route a second =
    require
      (is_valid_namespace a.namespace && is_valid_namespace second && is_valid_extension_id a.id)
      (not_found "Not found.")

-- `isExtensionOwner` of the router: a publisher of the extension.
unfoldable pub is_extension_owner : Db → User → Address → Bool
is_extension_owner db user a =
    is_admin_role user.role
    || user.namespace == a.namespace
    || Ownership.is_extension_owner db user a
    || is_organization_owner db user a.namespace

-- The guard of the owner and access lists: the namespace account itself, not a co-owner.
unfoldable pub is_address_holder : Db → User → String → Bool
is_address_holder db user namespace =
    user.namespace == namespace
    || is_admin_role user.role
    || is_organization_owner db user namespace
