-- ===== src/Access/Ownership.antt =====
-- `isExtensionOwner`, `isOrganizationOwner`, `organizationsOwnedBy` and `canSee` of src/auth.js.
use twexthub.Shared.{
  ℕ, String, Bool, true, false, ◌&&◌, ◌||◌, not, Option, none, some, List, if◌then◌else◌, ◌==◌,
  nat_eq, string_eq, any, keep, map,
}
use twexthub.Db.{
  Db, User, Row, Owner, Grant, Address, Visibility, is_at, is_admin_role, is_organization,
  is_private,
}

-- EXISTS (SELECT 1 FROM organization_owners g WHERE g.org_id = .. AND g.user_id = ..)
unfoldable pub stands_behind : Db → ℕ → ℕ → Bool
stands_behind db org_id user_id =
    any (λ g. g.org_id == org_id && g.user_id == user_id) db.organization_owners

unfoldable pub owner_row : Db → User → Address → Row Owner → Bool
unfolding stands_behind
owner_row db user a o =
    is_at a o && (o.cols.owner_id == user.id || stands_behind db o.cols.owner_id user.id)

unfoldable pub is_extension_owner : Db → User → Address → Bool
unfolding owner_row
is_extension_owner db user a = any (owner_row db user a) db.extension_owners

-- organization_owners g JOIN users org ON org.id = g.org_id, where org is an organization
unfoldable pub organizations_owned_by : Db → User → List String
organizations_owned_by db user =
    map (λ org. org.namespace)
      (keep
        (λ org.
          is_organization org.kind
          && any (λ g. g.org_id == org.id && g.user_id == user.id) db.organization_owners)
        db.users)

unfoldable pub is_organization_owner : Db → User → String → Bool
unfolding stands_behind
is_organization_owner db user namespace =
    any
      (λ org.
        org.namespace == namespace && is_organization org.kind && stands_behind db org.id user.id)
      db.users

-- The columns of a version that decide who sees it.
pub record Shown : Type 0 where
  pub address : Address
  pub visibility : Visibility

unfoldable pub has_grant : Db → User → Address → Bool
has_grant db user a =
    any (λ (r : Row Grant). is_at a r && r.cols.user_id == user.id) db.extension_access

unfoldable pub can_see : Db → Option User → Shown → Bool
unfolding is_extension_owner has_grant
can_see db caller row = if not (is_private row.visibility) then true else (elim caller [
  | none ↦ false
  | some user ↦
      is_admin_role user.role
      || user.namespace == row.address.namespace
      || is_extension_owner db user row.address
      || has_grant db user row.address
])
