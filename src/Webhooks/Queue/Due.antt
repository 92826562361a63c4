-- ===== src/Webhooks/Queue/Due.antt =====
-- What a claim of one delivery returns.
use twexthub.Shared.{
  ℕ, ◌≡◌, ◌⊎◌, refl, String, true, false, List, [], ◌∷◌, Bool-cases, Option-cases, inl, inr, All,
  All-take, find, keep, take, ◌==◌, nat_eq,
}
use twexthub.Shared.Rows.{update}
use twexthub.Db.{Hook, Delivery}
use twexthub.Webhooks.Queue.{
  Claim, claimable, comes_first, insert_due, order_due, due, joined, leased,
}

module _ {κ} (P : Delivery → Type κ) where
  insert_due-All : (d : Delivery) (ds : List Delivery) → P d → All P ds → All P (insert_due d ds)
  unfolding insert_due
  insert_due-All d [] h hs = (h, tt)
  insert_due-All d (e ∷ es) h hs =
      elim (Bool-cases (comes_first d.next_attempt_at e.next_attempt_at)) [
        | inl first ↦ rw first (h, hs)
        | inr later ↦ rw later (hs.0, insert_due-All d es h hs.1)
      ]

  order_due-All : (ds : List Delivery) → All P ds → All P (order_due ds)
  unfolding order_due
  order_due-All [] hs = tt
  order_due-All (d ∷ ds) hs = insert_due-All d (order_due ds) hs.0 (order_due-All ds hs.1)

module _ {κ ι} (P : Delivery → Type κ) (Q : Delivery → Type ι) (now : ℕ)
    (gives : (d : Delivery) → P d → claimable now d ≡ true → Q d) where
  keep-claimable : (ds : List Delivery) → All P ds → All Q (keep (claimable now) ds)
  keep-claimable [] h = tt
  keep-claimable (d ∷ ds) h = elim (Bool-cases (claimable now d)) [
    | inl e ↦ rw e (gives d h.0 e, keep-claimable ds h.1)
    | inr e ↦ rw e (keep-claimable ds h.1)
  ]

  -- Only claimable rows of the table are due.
  pub due-All : (limit : ℕ) (ds : List Delivery) → All P ds → All Q (due now limit ds)
  unfolding due
  due-All limit ds h =
      All-take Q limit (order_due (keep (claimable now) ds))
        (order_due-All Q (keep (claimable now) ds) (keep-claimable ds h))

module _ {κ} (Q : Delivery → Type κ) (now : ℕ) (hooks : List Hook) where
  abbrev One : List Claim → Type κ
  One claims =
      (claims ≡ [])
      ⊎ ((d : Delivery) × (url : String) × (claims
            ≡ record { delivery = leased now d; url = url } ∷ [])
          × Q d)

  joined-One : (ds : List Delivery) → All Q (take 1 ds) → One (joined now hooks (take 1 ds))
  joined-One [] h = inl refl
  joined-One (d ∷ ds) h = elim (Option-cases (find (λ x. x.id == d.webhook_id) hooks)) [
    | inl e ↦ rw (e, joined) (inl refl)
    | inr found ↦ rw (found.1, joined) (inr (d, found.0.url, refl, h.0))
  ]

  -- A claim of at most one row returns none or one, which was claimable.
  pub due-One : (ds : List Delivery) → All Q (due now 1 ds) → One (joined now hooks (due now 1 ds))
  unfolding due
  due-One ds h = joined-One (order_due (keep (claimable now) ds)) h

pub update-none : {A : Type 0} (f : A → A) (xs : List A) → update (λ x. false) f xs ≡ xs
update-none f [] = refl
update-none f (x ∷ xs) = rw (update-none f xs) refl
