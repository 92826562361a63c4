-- ===== src/Packages/Transfers/Consent.antt =====
-- What the three routes of a transfer keep true together, and who has to agree.
use twexthub.Shared.{
  ◌⊎◌, inl, inr, Bool-cases, eq_of_==, some, Bool, ℕ, String, ◌≡◌, ◌≢◌, ap, sym, ◌∙◌, true, false,
  not, ◌&&◌, Option, List, [], ◌∷◌, ◌==◌, string_eq, arith, ok, All, All-keep, All-append,
  require-ok, refuse-ok, present-ok, >>=-eq-ok, ok-injective, any,
}
use twexthub.Http.Errors.{not_found}
use twexthub.Db.{Db, User, Row, Offer, Address, is_organization, is_admin_role}
use twexthub.Access.Credentials.{Auth}
use twexthub.Access.Ownership.{is_organization_owner}
use twexthub.Packages.Owners.Consent.{owner_chain-caller}
use twexthub.Transfer.Offers.{
  Limits, may_offer_transfer, may_receive_transfer, load_namespace_account, has_org_owner,
  has_offer, is_offer, add_offer, drop_offer, open_transfer, withdraw_transfer,
}
use twexthub.Transfer.Move.{Moved, accept_transfer, move_extension}
use twexthub.Transfer.Accepted.{accept_transfer-Accepted}
use twexthub.Transfer.Charges.{IsAccounted, accept_transfer-IsAccounted}
use twexthub.Transfer.Redirects.{IsCollapsed, accept_transfer-IsCollapsed}
use twexthub.Transfer.Withdrawal.{open_transfer-tables, withdraw_transfer-tables}
use twexthub.Packages.Requests.{Field, Effect, owner_chain, valid_address, valid_route, field_error}
use twexthub.Packages.Transfers.{target_namespace, offer_transfer, accept_offer, withdraw_offer}

-- No extension is offered to its own namespace.
abbrev pub IsOutward : List (Row Offer) → Type 0
IsOutward offers =
    All (λ (r : Row Offer). (r.cols.to_namespace == r.address.namespace) ≡ false) offers

-- The three things that the routes keep true.
pub record IsSound (db : Db) : Type 0 where
  pub accounted : IsAccounted db.users db.versions
  pub collapsed : IsCollapsed db.extension_redirects
  pub outward : IsOutward db.extension_transfers

offer-outward :
    (a : Address) (to : String) (offers : List (Row Offer))
    → IsOutward offers
    → any (is_offer a to) offers ≡ true
    → (to == a.namespace) ≡ false
offer-outward a to [] h e = cc
offer-outward a to (r ∷ rs) h e = ground (
  arith,
  offer-outward a to rs h.1,
  string_eq.beq_iff r.cols.to_namespace to,
  string_eq.beq_iff r.address.namespace a.namespace,
)

may_receive_transfer-cases :
    (db : Db) (user : User) (to : String)
    → may_receive_transfer db user to ≡ true
    → (is_admin_role user.role ≡ true)
      ⊎ (user.namespace ≡ to)
      ⊎ (is_organization_owner db user to ≡ true)
unfolding may_receive_transfer
may_receive_transfer-cases db user to h = elim (Bool-cases (is_admin_role user.role)) [
  | inl e ↦ inl e
  | inr e ↦ elim (Bool-cases (user.namespace == to)) [
    | inl same ↦ inr (inl (eq_of_== user.namespace to same))
    | inr other ↦ inr (inr (rw (e, other) at h))
  ]
]

module _ (limits : Limits) (terms : Option ℕ) (caller : Option Auth) (a : Address) (db : Db) where
  pub offer_transfer-IsSound :
      (is_object : Bool) (to : Field) (e : Effect)
      → IsSound db
      → offer_transfer limits terms caller is_object a to db ≡ ok e
      → IsSound e.db
  unfolding offer_transfer add_offer
  offer_transfer-IsSound is_object body_to e h r =
      let (auth, _, r1) = >>=-eq-ok (owner_chain terms caller) _ r in
      let (_, _, r1') = >>=-eq-ok (valid_address a) _ r1 in
      let (_, r2) = require-ok is_object _ _ r1' in
      let (to, _, r3) =
        present-ok (target_namespace body_to) (field_error "to" "Must be a valid namespace.") _
          r2 in
      let (outward, r4) = refuse-ok (to == a.namespace) _ _ r3 in
      let (_, r5) = require-ok (may_offer_transfer db auth.user a.namespace) _ _ r4 in
      let (recipient, _, r6) =
        present-ok (load_namespace_account db to) (not_found "No such account to transfer to.") _
          r5 in
      let (_, r7) =
        refuse-ok (is_organization recipient.kind && not (has_org_owner db recipient.id)) _ _ r6 in
      let (db', opened, r8) = >>=-eq-ok (open_transfer limits auth.user a to recipient db) _ r7 in
      let tables = open_transfer-tables limits auth.user a to recipient db db' opened in
      rw (← ok-injective r8, tables.same)
        (record {
          accounted = h.accounted;
          collapsed = h.collapsed;
          outward =
              All-append (λ (r : Row Offer). (r.cols.to_namespace == r.address.namespace) ≡ false)
                db.extension_transfers _ h.outward (outward, tt);
        })

  -- A transfer happens by agreement: if every offer is outward, an extension that an answered request
  -- moves was on offer to the receiving namespace, which is another one than its own and an account's,
  -- and the caller has the role of an admin, is that account, or is an owner of that organization.
  pub accept_offer-agreed :
      (to : String) (e : Effect) (m : Moved)
      → IsOutward db.extension_transfers
      → accept_offer limits terms caller a to db ≡ ok (e, m)
      → (auth : Auth) × (recipient : User) × (caller ≡ some auth)
        × ((is_admin_role auth.user.role ≡ true)
            ⊎ (auth.user.namespace ≡ to)
            ⊎ (is_organization_owner db auth.user to ≡ true))
        × (load_namespace_account db to ≡ some recipient)
        × (has_offer db a to ≡ true)
        × (a.namespace ≢ to)
        × (accept_transfer limits auth.user a to recipient db ≡ ok (e.db, m))
  unfolding accept_offer
  accept_offer-agreed to e m h r =
      let (auth, gated, r1) = >>=-eq-ok (owner_chain terms caller) _ r in
      let (_, _, r2) = >>=-eq-ok (valid_route a to) _ r1 in
      let (recipient, named, r3) =
        present-ok (load_namespace_account db to) (not_found "Not found.") _ r2 in
      let (entitled, r4) = require-ok (may_receive_transfer db auth.user to) _ _ r3 in
      let ((db', moved), accepted, r5) =
        >>=-eq-ok (accept_transfer limits auth.user a to recipient db) _ r4 in
      let result = ok-injective r5 in
      let answered : accept_transfer limits auth.user a to recipient db ≡ ok (e.db, m) =
        accepted ∙ ap (λ (p : Effect × Moved). ok (p.0.db, p.1)) result in
      let offered =
        (accept_transfer-Accepted limits auth.user a to recipient db e.db m answered).offered in
      let apart = offer-outward a to db.extension_transfers h offered in
      (
        auth,
        recipient,
        owner_chain-caller terms caller auth gated,
        may_receive_transfer-cases db auth.user to entitled,
        named,
        offered,
        (λ same. ground (arith, apart, string_eq.beq_iff to a.namespace, sym same)),
        answered,
      )

  pub accept_offer-IsSound :
      (to : String) (e : Effect) (m : Moved)
      → IsSound db
      → accept_offer limits terms caller a to db ≡ ok (e, m)
      → IsSound e.db
  unfolding move_extension drop_offer
  accept_offer-IsSound to e m h r =
      let (auth, recipient, _, _, _, _, apart, accepted) = accept_offer-agreed to e m h.outward r in
      let acc = accept_transfer-Accepted limits auth.user a to recipient db e.db m accepted in
      let P = λ (r : Row Offer). (r.cols.to_namespace == r.address.namespace) ≡ false in
      record {
        accounted =
            accept_transfer-IsAccounted limits auth.user a to recipient db e.db m apart h.accounted
              accepted;
        collapsed =
            accept_transfer-IsCollapsed limits auth.user a to recipient db e.db m apart h.collapsed
              accepted;
        outward =
            rw (ap (λ (d : Db). d.extension_transfers) acc.tables.same)
              (All-keep P _ _ (All-keep P _ _ (All-keep P _ db.extension_transfers h.outward)));
      }

  pub withdraw_offer-IsSound :
      (to : String) (e : Effect)
      → IsSound db
      → withdraw_offer terms caller a to db ≡ ok e
      → IsSound e.db
  unfolding withdraw_offer drop_offer
  withdraw_offer-IsSound to e h r =
      let (auth, _, r1) = >>=-eq-ok (owner_chain terms caller) _ r in
      let (_, _, r2) = >>=-eq-ok (valid_route a to) _ r1 in
      let (_, r3) = require-ok (may_offer_transfer db auth.user a.namespace) _ _ r2 in
      let (recipient, _, r4) =
        present-ok (load_namespace_account db to) (not_found "Not found.") _ r3 in
      let (db', done, r5) = >>=-eq-ok (withdraw_transfer auth.user a to recipient db) _ r4 in
      let tables = withdraw_transfer-tables auth.user a to recipient db db' done in
      rw (← ok-injective r5, tables.same)
        (record {
          accounted = h.accounted;
          collapsed = h.collapsed;
          outward =
              All-keep (λ (r : Row Offer). (r.cols.to_namespace == r.address.namespace) ≡ false) _
                db.extension_transfers h.outward;
        })

-- The requests around transfers, one after the other.
module _ (limits : Limits) where
  pub data Exchanges : Db → Db → Type 0 where
    untouched : {db : Db} → Exchanges db db
    then_offered :
        (terms : Option ℕ) (caller : Option Auth) (is_object : Bool) (a : Address) (to : Field)
        {db mid : Db} {e : Effect}
        → Exchanges db mid
        → offer_transfer limits terms caller is_object a to mid ≡ ok e
        → Exchanges db e.db
    then_accepted :
        (terms : Option ℕ) (caller : Option Auth) (a : Address) (to : String) {db mid : Db}
        {e : Effect} {m : Moved}
        → Exchanges db mid
        → accept_offer limits terms caller a to mid ≡ ok (e, m)
        → Exchanges db e.db
    then_withdrawn :
        (terms : Option ℕ) (caller : Option Auth) (a : Address) (to : String) {db mid : Db}
        {e : Effect}
        → Exchanges db mid
        → withdraw_offer terms caller a to mid ≡ ok e
        → Exchanges db e.db

  -- Whatever sequence of offers, acceptances and withdrawals is answered without an error: if every
  -- account was charged for exactly the bytes under its namespace, no redirect led to the start of
  -- another and no extension was offered to its own namespace, all three hold after it.
  pub Exchanges-IsSound : {db db' : Db} → Exchanges db db' → IsSound db → IsSound db'
  Exchanges-IsSound untouched h = h
  Exchanges-IsSound (then_offered terms caller is_object a to {db} {mid} {e} past r) h =
      offer_transfer-IsSound limits terms caller a mid is_object to e (Exchanges-IsSound past h) r
  Exchanges-IsSound (then_accepted terms caller a to {db} {mid} {e} {m} past r) h =
      accept_offer-IsSound limits terms caller a mid to e m (Exchanges-IsSound past h) r
  Exchanges-IsSound (then_withdrawn terms caller a to {db} {mid} {e} past r) h =
      withdraw_offer-IsSound limits terms caller a mid to e (Exchanges-IsSound past h) r
