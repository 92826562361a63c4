-- ===== src/Packages/Owners/Consent.antt =====
-- An account becomes an owner by its own acceptance only.
use twexthub.Shared.{
  ℕ, String, ◌≡◌, refl, ap, sym, ◌∙◌, Bool, true, false, not, ◌&&◌, ◌⊎◌, inl, inr, Option, none,
  some, List, [], ◌∷◌, ◌==◌, nat_eq, string_eq, ==_refl, arith, Bool-cases, find-Memᴰ, any, ok,
  require-ok, refuse-ok, present-ok, >>=-eq-ok, ok-injective,
}
use twexthub.Shared.Rows.{insert_new, any-append, any-delete_self}
use twexthub.Http.Errors.{not_found}
use twexthub.Db.{Db, User, Membership, Row, Owner, Address, is_organization}
use twexthub.Notify.{audit, notify_user, notify_owner_candidate}
use twexthub.Access.Credentials.{Auth}
use twexthub.Access.Guards.{Answered, require_auth}
use twexthub.Access.Terms.{outdated}
use twexthub.Access.Ownership.{is_organization_owner}
use twexthub.Packages.Requests.{Effect, silent, owner_chain, valid_route, is_address_holder}
use twexthub.Packages.Owners.{
  is_live, account_named, is_owned_by, is_invited, invite, invite_owner, pending_invite,
  grant_ownership, partners, tell_owners, tell_partners, accept_invite, drop_invite,
}

any-insert_new :
    {A : Type 0} (same : A → Bool) (r : A) (xs : List A)
    → same r ≡ true
    → any same (insert_new same r xs) ≡ true
any-insert_new same r xs h = ground (arith, any-append same xs (r ∷ []), h)

invite-owners :
    (auth : Auth) (candidate : User) (a : Address) (db : Db)
    → (invite auth candidate a db).db.extension_owners ≡ db.extension_owners
unfolding invite notify_owner_candidate audit
invite-owners auth candidate a db =
    elim (Bool-cases (any (is_invited a candidate.id) db.extension_owner_invites)) [
      | inl again ↦ rw again refl
      | inr first ↦ elim (Bool-cases (is_organization candidate.kind)) [
        | inl group ↦ rw (first, group) refl
        | inr single ↦ rw (first, single) refl
      ]
    ]

tell_owners-lists :
    (rows : List Membership) (auth : Auth) (a : Address) (db : Db)
    → ((tell_owners rows auth a db).extension_owners ≡ db.extension_owners)
      × ((tell_owners rows auth a db).extension_owner_invites ≡ db.extension_owner_invites)
unfolding tell_owners notify_user
tell_owners-lists [] auth a db = (refl, refl)
tell_owners-lists (row ∷ rows) auth a db = tell_owners-lists rows auth a _

tell_partners-lists :
    (auth : Auth) (invited : User) (a : Address) (db : Db)
    → ((tell_partners auth invited a db).extension_owners ≡ db.extension_owners)
      × ((tell_partners auth invited a db).extension_owner_invites ≡ db.extension_owner_invites)
unfolding tell_partners
tell_partners-lists auth invited a db = elim (Bool-cases (is_organization invited.kind)) [
  | inl e ↦ rw e (tell_owners-lists (partners auth invited db) auth a db)
  | inr e ↦ rw e (refl, refl)
]

pub owner_chain-caller :
    (terms : Option ℕ) (caller : Option Auth) (auth : Auth)
    → owner_chain terms caller ≡ ok auth
    → caller ≡ some auth
unfolding owner_chain require_auth
owner_chain-caller terms none auth h = cc
owner_chain-caller terms (some auth') auth h =
    elim (Bool-cases (outdated terms auth'.user.terms_accepted_version)) [
      | inl e ↦ let failed = rw e at h in cc
      | inr e ↦
          let passed : ◌≡◌ {A = Answered Auth} (ok auth') (ok auth) = rw e at h in
          ap some (ok-injective passed)
    ]

module _ (terms : Option ℕ) (caller : Option Auth) (a : Address) (candidate : String) (db : Db)
    (e : Effect) where
  -- An invitation alone makes nobody an owner: the request that invites leaves the owner list as it was.
  pub invite_owner-owners :
      invite_owner terms caller a candidate db ≡ ok e → e.db.extension_owners ≡ db.extension_owners
  unfolding invite_owner invite
  invite_owner-owners r =
      let (auth, _, r1) = >>=-eq-ok (owner_chain terms caller) _ r in
      let (_, r2) = require-ok (is_address_holder db auth.user a.namespace) _ _ r1 in
      let (_, _, r3) = >>=-eq-ok (valid_route a candidate) _ r2 in
      let (_, r4) = require-ok (is_live db a) _ _ r3 in
      let (_, r5) = refuse-ok (candidate == a.namespace) _ _ r4 in
      let (account, _, r6) =
        present-ok (account_named db candidate) (not_found "No such account to invite.") _ r5 in
      elim (Bool-cases (any (is_owned_by a account.id) db.extension_owners)) [
        | inl owned ↦
            let left : ◌≡◌ {A = Answered Effect} (ok (silent (drop_invite a account.id db)))
                (ok e) =
              rw owned at r6 in
            rw (← ok-injective left) refl
        | inr new ↦
            let sent : ◌≡◌ {A = Answered Effect} (ok (invite auth account a db)) (ok e) =
              rw new at r6 in
            rw (← ok-injective sent) (invite-owners auth account a db)
      ]

  -- Who accepts: the invited account itself, or an owner of the invited organization.
  pub record Accepts (auth : Auth) (invited : User) : Type 0 where
    pub named : invited.namespace ≡ candidate
    pub pending : any (is_invited a invited.id) db.extension_owner_invites ≡ true
    pub entitled :
        (invited.id ≡ auth.user.id)
        ⊎ ((is_organization invited.kind ≡ true)
            × (is_organization_owner db auth.user candidate ≡ true))
    pub owns : any (is_owned_by a invited.id) e.db.extension_owners ≡ true
    pub spent : any (is_invited a invited.id) e.db.extension_owner_invites ≡ false

  -- The row that an acceptance inserts, and the tables in which it does.
  abbrev granted_row : Auth → User → Row Owner
  granted_row auth invited = record {
    address = a;
    cols = record { owner_id = invited.id; added_by = auth.user.id };
  }

  abbrev granted : Auth → User → Db
  granted auth invited = record (drop_invite a invited.id db) {
    extension_owners =
        insert_new (is_owned_by a invited.id) (granted_row auth invited) db.extension_owners;
  }

  grant_ownership-lists :
      (auth : Auth) (invited : User)
      → (any (is_owned_by a invited.id) (grant_ownership auth invited a db).extension_owners ≡ true)
        × (any (is_invited a invited.id) (grant_ownership auth invited a db).extension_owner_invites
            ≡ false)
  unfolding grant_ownership audit
  grant_ownership-lists auth invited =
      rw
        (
          (tell_partners-lists auth invited a (granted auth invited)).0,
          (tell_partners-lists auth invited a (granted auth invited)).1,
        )
        (
          any-insert_new (is_owned_by a invited.id) (granted_row auth invited) db.extension_owners
              (ground (arith, ==_refl a.namespace, ==_refl a.id, ==_refl invited.id)),
          any-delete_self (is_invited a invited.id) db.extension_owner_invites,
        )

  -- An accepted invitation was pending for the named account, and was accepted by that account or, for
  -- an organization, by one of its owners. It is spent by it, and the account is an owner afterwards.
  pub accept_invite-Accepts :
      accept_invite terms caller a candidate db ≡ ok e
      → (auth : Auth) × (invited : User) × (caller ≡ some auth) × Accepts auth invited
  unfolding accept_invite pending_invite
  accept_invite-Accepts r =
      let (auth, gated, r1) = >>=-eq-ok (owner_chain terms caller) _ r in
      let (_, _, r2) = >>=-eq-ok (valid_route a candidate) _ r1 in
      let (invited, found, r3) =
        present-ok (pending_invite db a candidate)
          (not_found "There is no pending invitation to accept.") _ r2 in
      let (single, r4) =
        refuse-ok (not (invited.id == auth.user.id) && not (is_organization invited.kind)) _ _ r3 in
      let (group, r5) =
        refuse-ok
          (not (invited.id == auth.user.id) && not (is_organization_owner db auth.user candidate)) _
          _ r4 in
      let asked = (find-Memᴰ _ db.users invited found).1 in
      let done = ok-injective r5 in
      (
        auth,
        invited,
        owner_chain-caller terms caller auth gated,
        record {
          named = ground (arith, asked, string_eq.beq_iff invited.namespace candidate);
          pending = ground (arith, asked);
          entitled = ground (arith, single, group, nat_eq.beq_iff invited.id auth.user.id);
          owns =
              ap (λ (x : Effect). any (is_owned_by a invited.id) x.db.extension_owners) (sym done)
              ∙ (grant_ownership-lists auth invited).0;
          spent =
              ap (λ (x : Effect). any (is_invited a invited.id) x.db.extension_owner_invites)
                (sym done)
              ∙ (grant_ownership-lists auth invited).1;
        },
      )
