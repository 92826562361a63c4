-- ===== src/Pagination/Walk.antt =====
-- Following the links of a listing visits every row once.
use twexthub.Shared.{
  ℕ, zero, suc, ◌≤◌, ◌<◌, ◌≡◌, refl, ap, sym, ◌∙◌, Bool, true, false, Option, none, some, List, [],
  ◌∷◌, ◌++◌, arith, Bool-cases, inl, inr, ltb, length, take, drop, keep, get_last?, All,
  take-append-drop, length-take, length-drop, All-keep_self, ◌&&◌,
}
use mathlib.Core.Path.{subst}
use twexthub.Pagination.{list_page, walk, beyond, link, has_rows}

module _ {A : Type 0} (key : A → ℕ) where
  -- The keys fall strictly along the list.
  abbrev pub IsFalling : List A → Type 0
  IsFalling [] = Unit
  IsFalling (x ∷ xs) = All (λ y. ltb (key y) (key x) ≡ true) xs × IsFalling xs

  keep-below :
      (c : ℕ) (xs : List A) → All (λ y. ltb (key y) c ≡ true) xs → keep (λ y. ltb (key y) c) xs ≡ xs
  keep-below c [] h = refl
  keep-below c (x ∷ xs) h = rw (h.0, keep-below c xs h.1) refl

  -- The last row of a page is one of the rows.
  get_last?-All :
      (P : A → Type 0) (n : ℕ) (xs : List A) (l : A)
      → All P xs
      → get_last? (take (suc n) xs) ≡ some l
      → P l
  get_last?-All P n [] l h e = cc
  get_last?-All P zero (x ∷ xs) l h e = let same : x ≡ l = ground (arith, e) in subst P same h.0
  get_last?-All P (suc n) (x ∷ []) l h e = let same : x ≡ l = ground (arith, e) in subst P same h.0
  get_last?-All P (suc n) (x ∷ y ∷ ys) l h e = get_last?-All P n (y ∷ ys) l h.1 e

  -- Below the last key of a page are the rows behind it.
  keep-below_last :
      (n : ℕ) (xs : List A) (l : A)
      → IsFalling xs
      → get_last? (take (suc n) xs) ≡ some l
      → keep (λ y. ltb (key y) (key l)) xs ≡ drop (suc n) xs
  keep-below_last n [] l h e = refl
  keep-below_last zero (x ∷ xs) l h e =
      let same : x ≡ l = ground (arith, e) in
      let k : key x ≡ key l = ap key same in
      let under : All (λ y. ltb (key y) (key l) ≡ true) xs = rw k at h.0 in
      ground (arith, k, keep-below (key l) xs under)
  keep-below_last (suc n) (x ∷ []) l h e =
      let same : x ≡ l = ground (arith, e) in rw (← same) (ground arith)
  keep-below_last (suc n) (x ∷ y ∷ ys) l h e =
      let under : ltb (key l) (key x) ≡ true =
        get_last?-All (λ z. ltb (key z) (key x) ≡ true) n (y ∷ ys) l h.0 e in
      ground (arith, under, keep-below_last n (y ∷ ys) l h.1 e)

  -- A filter on a smaller key makes one on a larger key needless.
  keep-narrower :
      (cursor : Option ℕ) (k : ℕ) (xs : List A)
      → ((y : A) → ltb (key y) k ≡ true → beyond key false cursor y ≡ true)
      → keep (λ y. ltb (key y) k) (keep (beyond key false cursor) xs) ≡ keep (λ y. ltb (key y) k) xs
  keep-narrower cursor k [] h = refl
  keep-narrower cursor k (x ∷ xs) h = ground (arith, keep-narrower cursor k xs h, h x)

  below-beyond :
      (cursor : Option ℕ) (l y : A)
      → beyond key false cursor l ≡ true
      → ltb (key y) (key l) ≡ true
      → beyond key false cursor y ≡ true
  below-beyond none l y h k = refl
  below-beyond (some c) l y h k = ground (arith, h, k)

  get_last?-some :
      (n : ℕ) (xs : List A) → 1 ≤ length xs → (l : A) × (get_last? (take (suc n) xs) ≡ some l)
  get_last?-some n [] h = absurd (omega (arith, h))
  get_last?-some zero (x ∷ xs) h = (x, refl)
  get_last?-some (suc n) (x ∷ []) h = (x, refl)
  get_last?-some (suc n) (x ∷ y ∷ ys) h = get_last?-some n (y ∷ ys) (omega arith)

  All-below_drop : (P : A → Type 0) (n : ℕ) (xs : List A) → All P xs → All P (drop n xs)
  All-below_drop P zero xs h = h
  All-below_drop P (suc n) [] h = tt
  All-below_drop P (suc n) (x ∷ xs) h = All-below_drop P n xs h.1

  drop-IsFalling : (n : ℕ) (xs : List A) → IsFalling xs → IsFalling (drop n xs)
  drop-IsFalling zero xs h = h
  drop-IsFalling (suc n) [] h = tt
  drop-IsFalling (suc n) (x ∷ xs) h = drop-IsFalling n xs h.1

  take-take : (n : ℕ) (xs : List A) → take n (take (suc n) xs) ≡ take n xs
  take-take zero xs = refl
  take-take (suc n) [] = refl
  take-take (suc n) (x ∷ xs) = ap (λ (l : List A). x ∷ l) (take-take n xs)

  take_all : (n : ℕ) (xs : List A) → length xs ≤ n → take n xs ≡ xs
  take_all zero [] h = refl
  take_all zero (x ∷ xs) h = absurd (omega (arith, h))
  take_all (suc n) [] h = refl
  take_all (suc n) (x ∷ xs) h = ap (λ (l : List A). x ∷ l) (take_all n xs (omega (arith, h)))

  no_link : (b : Bool) (o : Option A) → link key (b && false) o ≡ none
  no_link true o = refl
  no_link false o = refl

  full_link :
      (xs : List A) (l : A)
      → get_last? xs ≡ some l
      → link key (has_rows xs && true) (get_last? xs) ≡ some (key l)
  full_link [] l e = cc
  full_link (x ∷ xs) l e = rw e refl

  -- A page of the rows `found` behind a cursor: all of them, or the first and a link behind them.
  list_page-last :
      (n : ℕ) (cursor : Option ℕ) (rows : List A)
      → length (keep (beyond key false cursor) rows) ≤ suc n
      → ((list_page key (suc n) false cursor rows).data_rows ≡ keep (beyond key false cursor) rows)
        × ((list_page key (suc n) false cursor rows).next ≡ none)
  unfolding list_page
  list_page-last n cursor rows h =
      let found = keep (beyond key false cursor) rows in
      let whole : take (suc (suc n)) found ≡ found =
        take_all (suc (suc n)) found (omega (arith, h)) in
      let short : ltb (suc n) (length found) ≡ false = ground (arith, h) in
      rw (whole, short) (refl, no_link (has_rows found) (get_last? found))

  list_page-more :
      (n : ℕ) (cursor : Option ℕ) (rows : List A) (l : A)
      → suc n < length (keep (beyond key false cursor) rows)
      → get_last? (take (suc n) (keep (beyond key false cursor) rows)) ≡ some l
      → ((list_page key (suc n) false cursor rows).data_rows
          ≡ take (suc n) (keep (beyond key false cursor) rows))
        × ((list_page key (suc n) false cursor rows).next ≡ some (key l))
  unfolding list_page
  list_page-more n cursor rows l h e =
      let found = keep (beyond key false cursor) rows in
      let long : ltb (suc n) (length (take (suc (suc n)) found)) ≡ true =
        ground (arith, h, length-take (suc (suc n)) found) in
      rw (long, take-take (suc n) found) (refl, full_link (take (suc n) found) l e)

  append-nil : (xs : List A) → xs ++ [] ≡ xs
  append-nil [] = refl
  append-nil (x ∷ xs) = ap (λ (l : List A). x ∷ l) (append-nil xs)

  keep_every : (xs : List A) → keep (beyond key false none) xs ≡ xs
  keep_every [] = refl
  keep_every (x ∷ xs) = ap (λ (l : List A). x ∷ l) (keep_every xs)

  walk_from :
      (fuel n : ℕ) (cursor : Option ℕ) (rows : List A)
      → IsFalling (keep (beyond key false cursor) rows)
      → length (keep (beyond key false cursor) rows) ≤ fuel
      → walk key fuel (suc n) cursor rows ≡ keep (beyond key false cursor) rows
  walk_from zero n cursor rows h enough =
      (take_all zero (keep (beyond key false cursor) rows) enough)
  walk_from (suc fuel) n cursor rows h enough =
      let found = keep (beyond key false cursor) rows in
      elim (Bool-cases (ltb (suc n) (length found))) [
        | inr short ↦
            let (page, link_none) = list_page-last n cursor rows (ground (arith, short)) in
            rw (page, link_none) (append-nil found)
        | inl long ↦
            let (l, last) = get_last?-some n found (ground (arith, long)) in
            let (page, linked) = list_page-more n cursor rows l (ground (arith, long)) last in
            let within =
              get_last?-All (λ y. beyond key false cursor y ≡ true) n found l
                (All-keep_self (beyond key false cursor) rows) last in
            let behind : keep (beyond key false (some (key l))) rows ≡ drop (suc n) found =
              sym (keep-narrower cursor (key l) rows (λ y. below-beyond cursor l y within))
              ∙ keep-below_last n found l h last in
            let rest =
              walk_from fuel n (some (key l)) rows
                (subst IsFalling (sym behind) (drop-IsFalling (suc n) found h))
                (rw behind (omega (arith, length-drop (suc n) found, enough))) in
            rw (page, linked, rest, behind) (take-append-drop (suc n) found)
      ]

  -- A client that starts at the front of a listing and follows the links `next` gets every row once
  -- and in order, on as many pages as there are rows or fewer, if the keys of the rows fall strictly
  -- and the limit is at least one.
  pub walk-eq-rows :
      (limit : ℕ) (rows : List A)
      → 1 ≤ limit
      → IsFalling rows
      → walk key (length rows) limit none rows ≡ rows
  walk-eq-rows zero rows h falls = absurd (omega (arith, h))
  walk-eq-rows (suc n) rows h falls =
      let whole = keep_every rows in
      walk_from (length rows) n none rows (rw whole falls) (rw whole (omega arith)) ∙ whole
