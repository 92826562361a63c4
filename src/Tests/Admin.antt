-- ===== src/Tests/Admin.antt =====
-- The terms of a sample site.
use twexthub.Shared.{
  ℕ, ◌≡◌, refl, String, true, none, some, [], ◌∷◌, keep, arith, ok, err, value_or,
}
use mathlib.Core.List.{Memᴰ}
use twexthub.Http.Errors.{forbidden}
use twexthub.Db.{User, admin}
use twexthub.Access.Credentials.{Auth}
use twexthub.Access.Terms.{require_terms}
use twexthub.Packages.Requests.{text}
use twexthub.Admin.{Site, version_of, patch_terms}
use twexthub.Admin.Terms.{IsKnown, Told, has_accepted, patch_terms-blocks}
use twexthub.Tests.Data.{alice, bob, registry, as_account}

abbrev moderator : User
moderator = record alice { role = admin; terms_accepted_version = some 1 }

abbrev site : Site
site = record {
  db = record registry { users = moderator ∷ bob ∷ [] };
  terms = some (record { version = 1; body = "Be kind." });
  privacy = none;
  cache = record { cached_version = some 1; cached_at = 3 };
}

abbrev print : ℕ → String
print n = "2"

abbrev bumped : Site
bumped =
    value_or site (patch_terms print 5 (some (as_account moderator)) true (text "Be kinder.") site)

answered :
    patch_terms print 5 (some (as_account moderator)) true (text "Be kinder.") site ≡ ok bumped
unfolding patch_terms
answered = refl

patch_terms-blocks_example :
    (version_of bumped.terms ≡ some 2)
    × IsKnown bumped
    × ((auth : Auth) (later : ℕ)
        → Memᴰ auth.user bumped.db.users
        → has_accepted auth.user ≡ true
        → (require_terms (version_of bumped.terms) later (some auth) bumped.cache).1
          ≡ err (forbidden "The current Terms of Service have not been accepted yet."))
    × Told (keep has_accepted bumped.db.users) site.db bumped.db
patch_terms-blocks_example =
    patch_terms-blocks print 5 (some (as_account moderator)) true (text "Be kinder.") site bumped
      (omega arith, (omega arith, tt)) answered
