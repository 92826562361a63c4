-- ===== src/Tests/Moves.antt =====
-- The transfer of the sample extension, accepted by its receiver.
use twexthub.Shared.{
  Bool, true, ap, String, ◌≡◌, ◌≢◌, refl, some, [], ok, value_or, ◌≤◌, false, ◌==◌, string_eq,
}
use twexthub.Db.{Db}
use twexthub.Notify.{audit, notify_owner_candidate}
use twexthub.Notify.Frame.{SameTables}
use twexthub.Transfer.Offers.{open_transfer, withdraw_transfer, quota_for}
use twexthub.Transfer.Move.{Moved, accept_transfer, redirect_for}
use twexthub.Transfer.Charges.{
  IsAccounted, charge_in, accept_transfer-IsAccounted, accept_transfer-le-quota,
}
use twexthub.Transfer.Redirects.{IsCollapsed, accept_transfer-IsCollapsed}
use twexthub.Transfer.Contents.{IsVacated}
use twexthub.Transfer.Arrival.{IsArrived, accept_transfer-IsArrived}
use twexthub.Transfer.Lookups.{redirect_for-accept_transfer}
use twexthub.Transfer.Accepted.{destination}
use twexthub.Transfer.Withdrawal.{withdraw_transfer-open_transfer}
use twexthub.Tests.Data.{no_limits, alice, bob, tool, registry}

abbrev accepted : Db × Moved
unfolding accept_transfer
accepted =
    value_or (registry, record { versions = 0; bytes_moved = 0 })
      (accept_transfer no_limits bob tool "bob" bob registry)

apart : tool.namespace ≢ "bob"
apart = λ e. let f : ◌≡◌ {A = Bool} false true = ap (λ (s : String). s == "bob") e in cc

accepts : accept_transfer no_limits bob tool "bob" bob registry ≡ ok (accepted.0, accepted.1)
unfolding accept_transfer accepted
accepts = refl

accept_transfer-IsAccounted_example : IsAccounted accepted.0.users accepted.0.versions
accept_transfer-IsAccounted_example =
    accept_transfer-IsAccounted no_limits bob tool "bob" bob registry accepted.0 accepted.1 apart
      (refl, (refl, tt)) accepts

accept_transfer-le-quota_example : charge_in "bob" accepted.0.versions ≤ quota_for no_limits bob
accept_transfer-le-quota_example =
    accept_transfer-le-quota no_limits bob tool "bob" bob registry accepted.0 accepted.1 bob apart
      (refl, (refl, tt)) refl refl accepts

accept_transfer-IsCollapsed_example : IsCollapsed accepted.0.extension_redirects
accept_transfer-IsCollapsed_example =
    accept_transfer-IsCollapsed no_limits bob tool "bob" bob registry accepted.0 accepted.1 apart
      (refl, tt) accepts

accept_transfer-IsArrived_example :
    IsVacated tool accepted.0 × IsArrived tool "bob" apart bob registry accepted.0
accept_transfer-IsArrived_example =
    accept_transfer-IsArrived tool "bob" apart no_limits bob bob registry accepted.0 accepted.1
      accepts

redirect_for-accept_transfer_example : redirect_for accepted.0 tool ≡ some (destination tool "bob")
redirect_for-accept_transfer_example =
    redirect_for-accept_transfer no_limits bob tool "bob" bob registry accepted.0 accepted.1 tool
      apart accepts

abbrev unoffered : Db
unoffered = record registry { extension_transfers = [] }

abbrev offered : Db
unfolding open_transfer
offered = value_or unoffered (open_transfer no_limits alice tool "bob" bob unoffered)

abbrev closed : Db
unfolding withdraw_transfer offered
closed = value_or unoffered (withdraw_transfer bob tool "bob" bob offered)

opens : open_transfer no_limits alice tool "bob" bob unoffered ≡ ok offered
unfolding open_transfer offered
opens = refl

closes : withdraw_transfer bob tool "bob" bob offered ≡ ok closed
unfolding withdraw_transfer closed offered audit notify_owner_candidate
closes = refl

withdraw_transfer-open_transfer_example : SameTables unoffered closed
withdraw_transfer-open_transfer_example =
    withdraw_transfer-open_transfer no_limits alice bob tool "bob" bob unoffered offered closed
      opens closes
