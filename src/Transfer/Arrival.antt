-- ===== src/Transfer/Arrival.antt =====
-- What a transfer brings to the new address.
use twexthub.Shared.{
  ℕ, String, ◌≡◌, ◌≢◌, refl, ap, ◌∙◌, ◌||◌, some, any, keep, map, ok, ◌==◌, string_eq, nat_eq,
}
use twexthub.Db.{Db, User, Address, is_at}
use twexthub.Transfer.Offers.{Limits, load_namespace_account}
use twexthub.Transfer.Move.{Moved, rename, hooks, move_extension, accept_transfer}
use twexthub.Transfer.Accepted.{accept_transfer-Accepted, destination}
use twexthub.Transfer.Contents.{IsVacated, accept_transfer-IsVacated}
use twexthub.Transfer.Landing.{
  keep-move, keep-move_onto, keep-move_hooks, owns, co_owns, moved_hook, any-move_owners,
  any-insert_owner,
}

module _ (a : Address) (to : String) (differ : a.namespace ≢ to) where
  -- The eight tables that are keyed on the address, at the new one: what stood at the old one, and
  -- beside it the versions (rejected ones) that were there before and the receiver as an owner.
  pub record IsArrived (recipient : User) (db db' : Db) : Type 0 where
    pub versions :
        keep (is_at (destination a to)) db'.versions
        ≡ map
            (λ r.
              let named = rename to r in
              record named { cols = record named.cols { author = some recipient.display_name } })
            (keep (λ r. is_at a r || is_at (destination a to) r) db.versions)
    pub dist_tags :
        keep (is_at (destination a to)) db'.dist_tags
        ≡ map (rename to) (keep (is_at a) db.dist_tags)
    pub owners :
        (n : ℕ)
        → any (owns (destination a to) n) db'.extension_owners ≡ (
            recipient.id == n
            || any (co_owns a (load_namespace_account db a.namespace) n) db.extension_owners)
    pub invites :
        keep (is_at (destination a to)) db'.extension_owner_invites
        ≡ map (rename to) (keep (is_at a) db.extension_owner_invites)
    pub access :
        keep (is_at (destination a to)) db'.extension_access
        ≡ map (rename to) (keep (is_at a) db.extension_access)
    pub webhooks :
        keep (hooks (destination a to)) db'.webhooks
        ≡ map (moved_hook to) (keep (hooks a) db.webhooks)
    pub downloads :
        keep (is_at (destination a to)) db'.download_events
        ≡ map (rename to) (keep (is_at a) db.download_events)
    pub daily :
        keep (is_at (destination a to)) db'.extension_daily_downloads
        ≡ map (rename to) (keep (is_at a) db.extension_daily_downloads)

  -- A transfer lands whole: if the two namespaces differ, after an accepted transfer none of the eight
  -- tables that are keyed on the address has a row at the old one, and the new one has the rows that
  -- stood there, the same otherwise but for the author of the versions. The exceptions are written out:
  -- rejected versions that were at the new address stay beside them, and the owners are the co-owners
  -- without the sending account, and the receiver.
  pub accept_transfer-IsArrived :
      (limits : Limits) (actor recipient : User) (db db' : Db) (m : Moved)
      → accept_transfer limits actor a to recipient db ≡ ok (db', m)
      → IsVacated a db' × IsArrived recipient db db'
  unfolding move_extension
  accept_transfer-IsArrived limits actor recipient db db' m e =
      let acc = accept_transfer-Accepted limits actor a to recipient db db' m e in
      let left = accept_transfer-IsVacated limits actor a to recipient db db' m differ e in
      (
        left,
        rw acc.tables.same (record {
          versions =
              keep-move_onto a to differ
                (λ r. record r { cols = record r.cols { author = some recipient.display_name } })
                (λ r. refl) db.versions;
          dist_tags = keep-move a to differ db.dist_tags;
          owners = λ n.
              any-insert_owner a to differ recipient.id actor.id n _
              ∙ ap (λ b. recipient.id == n || b)
                  (any-move_owners a to differ (load_namespace_account db a.namespace) n
                    db.extension_owners);
          invites = keep-move a to differ db.extension_owner_invites;
          access = keep-move a to differ db.extension_access;
          webhooks = keep-move_hooks a to differ db.webhooks;
          downloads = keep-move a to differ db.download_events;
          daily = keep-move a to differ db.extension_daily_downloads;
        }),
      )
