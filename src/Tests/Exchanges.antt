-- ===== src/Tests/Exchanges.antt =====
-- The offer of the sample extension, accepted through its route.
use twexthub.Shared.{◌≡◌, ◌≢◌, ◌⊎◌, refl, true, none, some, ok, value_or}
use twexthub.Db.{User, is_admin_role}
use twexthub.Util.Names.{is_valid_namespace, is_valid_extension_id}
use twexthub.Access.Credentials.{Auth}
use twexthub.Access.Ownership.{is_organization_owner}
use twexthub.Transfer.Offers.{load_namespace_account, has_offer}
use twexthub.Transfer.Move.{Moved, accept_transfer}
use twexthub.Packages.Requests.{Effect, silent}
use twexthub.Packages.Transfers.{accept_offer}
use twexthub.Packages.Transfers.Consent.{
  IsSound, untouched, then_accepted, accept_offer-agreed, Exchanges-IsSound,
}
use twexthub.Tests.Data.{no_limits, bob, tool, registry, as_account}

abbrev after_offer : Effect × Moved
unfolding accept_offer
after_offer =
    value_or (silent registry, record { versions = 0; bytes_moved = 0 })
      (accept_offer no_limits none (some (as_account bob)) tool "bob" registry)

accepts :
    accept_offer no_limits none (some (as_account bob)) tool "bob" registry
    ≡ ok (after_offer.0, after_offer.1)
unfolding accept_offer after_offer is_valid_namespace is_valid_extension_id
accepts = refl

accept_offer-agreed_example :
    (auth : Auth) × (recipient : User) × (some (as_account bob) ≡ some auth)
    × ((is_admin_role auth.user.role ≡ true)
        ⊎ (auth.user.namespace ≡ "bob")
        ⊎ (is_organization_owner registry auth.user "bob" ≡ true))
    × (load_namespace_account registry "bob" ≡ some recipient)
    × (has_offer registry tool "bob" ≡ true)
    × (tool.namespace ≢ "bob")
    × (accept_transfer no_limits auth.user tool "bob" recipient registry
        ≡ ok (after_offer.0.db, after_offer.1))
accept_offer-agreed_example =
    accept_offer-agreed no_limits none (some (as_account bob)) tool registry "bob" after_offer.0
      after_offer.1 (refl, tt) accepts

Exchanges-IsSound_example : IsSound after_offer.0.db
Exchanges-IsSound_example =
    Exchanges-IsSound no_limits
      (then_accepted none (some (as_account bob)) tool "bob" untouched accepts)
      (record { accounted = (refl, (refl, tt)); collapsed = (refl, tt); outward = (refl, tt) })
