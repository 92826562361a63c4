-- ===== src/Access/Proofs/Authority.antt =====
-- The two forms of the admin check agree, and so do the two forms of organization ownership.
use twexthub.Shared.{
  String, ◌≡◌, refl, ◌↔◌, true, some, List, [], ◌∷◌, arith, ◌&&◌, any, map, keep, ◌==◌, string_eq,
  nat_eq, ok, err,
}
use twexthub.Db.{Db, User, normal, is_organization}
use twexthub.Http.Errors.{forbidden}
use twexthub.Access.Credentials.{Auth, includes}
use twexthub.Access.Ownership.{stands_behind, organizations_owned_by, is_organization_owner}
use twexthub.Access.Guards.{is_admin, assert_admin}

-- The throwing check lets a caller through exactly where the Boolean one is true, and hands on the
-- caller's own identity.
pub assert_admin-is_admin :
    (auth : Auth) → (assert_admin (some auth) ≡ ok auth) ↔ (is_admin (some auth) ≡ true)
unfolding assert_admin is_admin
assert_admin-is_admin auth = (λ h. ground arith, λ h. ground arith)

-- An account with the normal role is refused by its role, whatever scopes its credential holds.
pub assert_admin-normal :
    (auth : Auth)
    → auth.user.role ≡ normal
    → assert_admin (some auth) ≡ err (forbidden "Admin privileges are required.")
unfolding assert_admin
assert_admin-normal auth h = ground arith

module _ (db : Db) (user : User) (namespace : String) where
  owned-any :
      (users : List User)
      → any
          (λ org.
            org.namespace == namespace
            && is_organization org.kind
            && stands_behind db org.id user.id)
          users
        ≡ includes
            (map
              (λ org. org.namespace)
              (keep
                (λ org.
                  is_organization org.kind
                  && any (λ g. g.org_id == org.id && g.user_id == user.id) db.organization_owners)
                users))
            namespace
  unfolding stands_behind
  owned-any [] = refl
  owned-any (u ∷ us) = ground (arith, owned-any us)

  -- The ownership test answers for a namespace exactly what the list of owned organizations
  -- contains.
  pub is_organization_owner-includes :
      is_organization_owner db user namespace ≡ includes (organizations_owned_by db user) namespace
  unfolding is_organization_owner organizations_owned_by
  is_organization_owner-includes = owned-any db.users
