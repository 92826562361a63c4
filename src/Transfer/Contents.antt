-- ===== src/Transfer/Contents.antt =====
-- What a transfer takes along and what it leaves.
use twexthub.Shared.{
  ℕ, ◌+◌, ◌-◌, String, ◌≡◌, ◌≢◌, refl, ◌∙◌, Bool, true, false, ◌&&◌, some, List, [], ◌∷◌, arith,
  any, keep, map, length, if◌then◌else◌, ok, Bool-cases, inl, inr, ==_refl, ◌==◌, string_eq, nat_eq,
  ltb,
}
use twexthub.Shared.Rows.{update, delete, insert_new, any-append, any-delete, any-delete_self}
use twexthub.Db.{Db, User, Row, Version, Offer, Owner, Hook, Address, is_at}
use twexthub.Transfer.Offers.{Limits, versions_at, is_offer, drop_offer, charged_bytes}
use twexthub.Transfer.Move.{
  Moved, move, rename, hooks, clear_destination, drop_sender_owner, move_extension, accept_transfer,
}
use twexthub.Transfer.Accepted.{accept_transfer-Accepted, destination}

module _ {C : Type 0} (a : Address) (to : String) (differ : a.namespace ≢ to) where
  -- A moved table has no row left at the old address.
  any-move : (rows : List (Row C)) → any (is_at a) (move a to rows) ≡ false
  any-move [] = refl
  any-move (r ∷ rs) = ground (arith, any-move rs, string_eq.beq_iff to a.namespace)

  any-update_cols :
      (f : Row C → Row C) (rows : List (Row C))
      → ((r : Row C) → (f r).address ≡ r.address)
      → any (is_at a) (update (is_at (destination a to)) f rows) ≡ any (is_at a) rows
  any-update_cols f [] h = refl
  any-update_cols f (r ∷ rs) h = ground (arith, any-update_cols f rs, h r)

  any-insert_new :
      (same : Row C → Bool) (cols : C) (rows : List (Row C))
      → any (is_at a) rows ≡ false
      → any (is_at a) (insert_new same (record { address = destination a to; cols = cols }) rows)
        ≡ false
  any-insert_new same cols rows h = ground (
    arith,
    any-append (is_at a) rows (record { address = destination a to; cols = cols } ∷ []),
    string_eq.beq_iff to a.namespace,
  )

abbrev offers_to : Address → Row Offer → Bool
offers_to a r = r.cols.to_namespace == a.namespace && r.address.id == a.id

any-drop_offers :
    (a : Address) (rows : List (Row Offer))
    → (any (is_at a) (delete (offers_to a) (delete (is_at a) rows)) ≡ false)
      × (any (offers_to a) (delete (offers_to a) (delete (is_at a) rows)) ≡ false)
any-drop_offers a rows = (
  any-delete (is_at a) (offers_to a) (delete (is_at a) rows) (any-delete_self (is_at a) rows),
  any-delete_self (offers_to a) (delete (is_at a) rows),
)

length-arrived :
    (a : Address) (to : String)
    → a.namespace ≢ to
    → (f : Row Version → Row Version) → ((r : Row Version) → (f r).address ≡ r.address)
    → (rows : List (Row Version))
    → length
        (keep (is_at (destination a to)) (update (is_at (destination a to)) f (move a to rows)))
      ≡ length (keep (is_at (destination a to)) rows) + length (keep (is_at a) rows)
length-arrived a to differ f h [] = ground arith
length-arrived a to differ f h (r ∷ rs) = elim (Bool-cases (is_at a r)) [
  | inl e ↦
      let other : is_at (destination a to) r ≡ false = ground (
        arith,
        string_eq.beq_iff r.address.namespace a.namespace,
        string_eq.beq_iff r.address.namespace to,
      ) in
      let there : is_at (destination a to) (rename to r) ≡ true = ground (arith, ==_refl to) in
      ground (arith, length-arrived a to differ f h rs, h (rename to r))
  | inr e ↦ ground (arith, length-arrived a to differ f h rs, h r)
]

any-move_hooks :
    (a : Address) (to : String)
    → a.namespace ≢ to
    → (hs : List Hook)
    → any (hooks a) (update (hooks a) (λ h. record h { namespace = to }) hs) ≡ false
any-move_hooks a to differ [] = refl
any-move_hooks a to differ (h ∷ hs) =
    ground (arith, any-move_hooks a to differ hs, string_eq.beq_iff to a.namespace)

map-recharged :
    (from to : String) (n : ℕ) (us : List User)
    → map
        (λ u. u.has_published)
        (if ltb 0 n
          then update
              (λ u. u.namespace == to)
              (λ u. record u { blob_bytes = u.blob_bytes + n })
              (update
                (λ u. u.namespace == from)
                (λ u. record u { blob_bytes = u.blob_bytes - n })
                us)
          else us)
      ≡ map (λ u. u.has_published) us
map-recharged from to n [] = ground arith
map-recharged from to n (u ∷ us) = ground (arith, map-recharged from to n us)

-- No row of a table that is keyed on the address is left there.
pub record IsVacated (a : Address) (db : Db) : Type 0 where
  pub versions : any (is_at a) db.versions ≡ false
  pub dist_tags : any (is_at a) db.dist_tags ≡ false
  pub owners : any (is_at a) db.extension_owners ≡ false
  pub invites : any (is_at a) db.extension_owner_invites ≡ false
  pub access : any (is_at a) db.extension_access ≡ false
  pub webhooks : any (hooks a) db.webhooks ≡ false
  pub downloads : any (is_at a) db.download_events ≡ false
  pub daily : any (is_at a) db.extension_daily_downloads ≡ false

module _ (limits : Limits) (actor : User) (a : Address) (to : String) (recipient : User)
    (db db' : Db) (m : Moved) where
  -- Nothing stays behind: if the two namespaces differ, after an accepted transfer none of the
  -- eight tables that are keyed on the address has a row at the old one.
  pub accept_transfer-IsVacated :
      a.namespace ≢ to
      → accept_transfer limits actor a to recipient db ≡ ok (db', m)
      → IsVacated a db'
  unfolding move_extension
  accept_transfer-IsVacated differ e =
      let acc = accept_transfer-Accepted limits actor a to recipient db db' m e in
      let rest =
        (drop_sender_owner a
          (clear_destination (destination a to) (drop_offer a to db))).extension_owners in
      rw acc.tables.same (record {
        versions = any-update_cols a to differ _ _ (λ r. refl) ∙ any-move a to differ db.versions;
        dist_tags = any-move a to differ _;
        owners =
            any-insert_new a to differ
              (λ (r : Row Owner). is_at (destination a to) r && r.cols.owner_id == recipient.id)
              (record { owner_id = recipient.id; added_by = actor.id }) (move a to rest)
              (any-move a to differ rest);
        invites = any-move a to differ _;
        access = any-move a to differ _;
        webhooks = any-move_hooks a to differ _;
        downloads = any-move a to differ _;
        daily = any-move a to differ _;
      })

  -- The whole extension arrives: if the two namespaces differ, the new address has the versions that
  -- it had before (rejected ones) and those of the old address, as many as the answer counts.
  pub accept_transfer-counts :
      a.namespace ≢ to
      → accept_transfer limits actor a to recipient db ≡ ok (db', m)
      → length (versions_at db' (destination a to))
        ≡ length (versions_at db (destination a to)) + m.versions
  unfolding move_extension
  accept_transfer-counts differ e =
      let acc = accept_transfer-Accepted limits actor a to recipient db db' m e in
      rw (acc.tables.same, acc.counted)
        (length-arrived a to differ
          (λ r. record r { cols = record r.cols { author = some recipient.display_name } })
          (λ r. refl) db.versions)

  -- The review gate does not travel: no account becomes one that publishes unreviewed, or ceases to
  -- be one, by an accepted transfer.
  pub accept_transfer-has_published :
      accept_transfer limits actor a to recipient db ≡ ok (db', m)
      → map (λ u. u.has_published) db'.users ≡ map (λ u. u.has_published) db.users
  unfolding move_extension
  accept_transfer-has_published e =
      let acc = accept_transfer-Accepted limits actor a to recipient db db' m e in
      rw acc.tables.same (map-recharged a.namespace to (charged_bytes (versions_at db a)) db.users)

  -- No offer of the old address is left, and none to the sending namespace under the same id.
  pub accept_transfer-no_offers :
      accept_transfer limits actor a to recipient db ≡ ok (db', m)
      → (any (is_at a) db'.extension_transfers ≡ false)
        × (any
              (λ r. r.cols.to_namespace == a.namespace && r.address.id == a.id)
              db'.extension_transfers
            ≡ false)
  unfolding move_extension
  accept_transfer-no_offers e =
      let acc = accept_transfer-Accepted limits actor a to recipient db db' m e in
      rw acc.tables.same (any-drop_offers a (delete (is_offer a to) db.extension_transfers))
