-- ===== src/Access/Guards.antt =====
-- `requireAuth`, `requireSession`, `requireScope`, `isAdmin` and `assertAdmin` of src/auth.js.
use Prim.Native.String
use twexthub.Shared.{
  String, Bool, false, ◌&&◌, Option, none, some, Result, ok, err, require, ◌>>=◌, ◌>>◌,
}
use twexthub.Db.{is_admin_role}
use twexthub.Http.Errors.{HttpError, unauthorized, forbidden}
use twexthub.Access.Credentials.{Auth, session, automation, includes}

abbrev pub Answered : Type 0 → Type 0
Answered A = Result HttpError A

unfoldable pub require_auth : Option Auth → Answered Auth
require_auth none = err unauthorized
require_auth (some auth) = ok auth

unfoldable pub require_session : Option Auth → Answered Auth
unfolding require_auth
require_session caller = do
  auth ← require_auth caller
  elim auth.token_type [
    | session ↦ ok auth
    | automation ↦ err (forbidden "Automation tokens cannot access this endpoint.")
  ]

abbrev pub missing_scope : String → HttpError
missing_scope scope =
    forbidden (String.◌++◌ "This token is missing the required \"" (String.◌++◌ scope "\" scope."))

unfoldable pub require_scope : String → Option Auth → Answered Auth
unfolding require_auth
require_scope scope caller = do
  auth ← require_auth caller
  require (includes auth.scopes scope) (missing_scope scope)
  ok auth

unfoldable pub is_admin : Option Auth → Bool
is_admin none = false
is_admin (some auth) = is_admin_role auth.user.role && includes auth.scopes "admin"

unfoldable pub assert_admin : Option Auth → Answered Auth
unfolding require_auth
assert_admin caller = do
  auth ← require_auth caller
  require (is_admin_role auth.user.role) (forbidden "Admin privileges are required.")
  require (includes auth.scopes "admin") (missing_scope "admin")
  ok auth
