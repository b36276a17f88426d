-- ===== src/Jobs/Claims.antt =====
-- Claiming rows of a table: `order_by(created_at).limit(max(1, min(limit, 100)))` over the free rows,
-- a lease for each, and the commit. A table lists its rows in the order of their creation.
use groundloom.Base.{
  the_same, ℕ, zero, suc, ◌+◌, ◌≤◌, max, min, String, Bool, true, false, some, List, [], ◌∷◌, ◌==◌,
  ◌≡◌, refl, arith, inl, inr, any, find, keep, take, map, length, All, if◌then◌else◌, Bool-cases,
  eq_iff, ne_of_test, sym, ◌∙◌, ap,
}
use groundloom.Jobs.Queue.{JobTable}

module _ {R : Type 0} (table : JobTable R) where
  open table use {row_id, is_free, lease, row_id-lease, lease_holds}

  abbrev pub has_row_id : String → R → Bool
  has_row_id id r = row_id r == id

  abbrev pub set_row : R → List R → List R
  set_row r [] = []
  set_row r (x ∷ xs) = (if row_id x == row_id r then r else x) ∷ set_row r xs

  abbrev pub set_rows : List R → List R → List R
  set_rows [] xs = xs
  set_rows (r ∷ rs) xs = set_rows rs (set_row r xs)

  -- The rows that the query locks.
  unfoldable pub claimable : ℕ → ℕ → List R → List R
  claimable now limit xs = take (max 1 (min limit 100)) (keep (is_free now) xs)

  abbrev pub lease_all : String → ℕ → List R → List R
  lease_all worker until xs = map (lease worker until) xs

  -- The claimed rows, and the table after the commit.
  unfoldable pub claim : String → ℕ → ℕ → ℕ → List R → List R × List R
  unfolding claimable
  claim worker limit lease_seconds now xs =
      let rows = lease_all worker (now + lease_seconds) (claimable now limit xs) in
      (rows, set_rows rows xs)

  module _ (id : String) (now : ℕ) where
    -- A row with the id is not free.
    abbrev IsHeld : R → Type 0
    IsHeld r = has_row_id id r ≡ true → is_free now r ≡ false

    set_row-IsHeld : (r : R) (xs : List R) → IsHeld r → All IsHeld xs → All IsHeld (set_row r xs)
    set_row-IsHeld r [] h k = tt
    set_row-IsHeld r (x ∷ xs) h k = elim (Bool-cases (row_id x == row_id r)) [
      | inl e ↦ rw e (h, set_row-IsHeld r xs h k.1)
      | inr e ↦ rw e (k.0, set_row-IsHeld r xs h k.1)
    ]

    other_row : (x r : R) → (row_id x == row_id r) ≡ false → has_row_id id r ≡ true → IsHeld x
    other_row x r e h k = absurd (
        ne_of_test (row_id x) (row_id r) e
          ((eq_iff (row_id x) id).0 k ∙ sym ((eq_iff (row_id r) id).0 h)))

    -- A leased row takes the place of every row with its id.
    set_row-holds :
        (r : R) (xs : List R) → IsHeld r → has_row_id id r ≡ true → All IsHeld (set_row r xs)
    set_row-holds r [] h k = tt
    set_row-holds r (x ∷ xs) h k = elim (Bool-cases (row_id x == row_id r)) [
      | inl e ↦ rw e (h, set_row-holds r xs h k)
      | inr e ↦ rw e (other_row x r e k, set_row-holds r xs h k)
    ]

    set_rows-IsHeld : (rs xs : List R) → All IsHeld rs → All IsHeld xs → All IsHeld (set_rows rs xs)
    set_rows-IsHeld [] xs h k = k
    set_rows-IsHeld (r ∷ rs) xs h k =
        set_rows-IsHeld rs (set_row r xs) h.1 (set_row-IsHeld r xs h.0 k)

    set_rows-holds :
        (rs xs : List R)
        → All IsHeld rs
        → any (has_row_id id) rs ≡ true
        → All IsHeld (set_rows rs xs)
    set_rows-holds [] xs h k = cc
    set_rows-holds (r ∷ rs) xs h k = elim (Bool-cases (has_row_id id r)) [
      | inl e ↦ set_rows-IsHeld rs (set_row r xs) h.1 (set_row-holds r xs h.0 e)
      | inr e ↦ set_rows-holds rs (set_row r xs) h.1 (rw e at k)
    ]

    keep-IsHeld :
        (xs : List R) → All IsHeld xs → any (has_row_id id) (keep (is_free now) xs) ≡ false
    keep-IsHeld [] h = refl
    keep-IsHeld (x ∷ xs) h = elim (Bool-cases (is_free now x)) [
      | inl e ↦ elim (Bool-cases (has_row_id id x)) [
        | inl m ↦ absurd (cc (e, h.0 m))
        | inr m ↦ rw e (rw m (keep-IsHeld xs h.1))
      ]
      | inr e ↦ rw e (keep-IsHeld xs h.1)
    ]

    any-take :
        (n : ℕ) (xs : List R)
        → any (has_row_id id) xs ≡ false
        → any (has_row_id id) (take n xs) ≡ false
    any-take zero xs h = refl
    any-take (suc n) [] h = refl
    any-take (suc n) (x ∷ xs) h = ground (arith, any-take n xs)

    any-lease_all :
        (worker : String) (until : ℕ) (xs : List R)
        → any (has_row_id id) (lease_all worker until xs) ≡ any (has_row_id id) xs
    any-lease_all worker until [] = refl
    any-lease_all worker until (x ∷ xs) =
        rw (row_id-lease worker until x) (rw (any-lease_all worker until xs) refl)

    -- Rows leased beyond the time are held.
    lease_all-IsHeld :
        (worker : String) (until : ℕ) (xs : List R)
        → now ≤ until
        → All IsHeld (lease_all worker until xs)
    lease_all-IsHeld worker until [] h = tt
    lease_all-IsHeld worker until (x ∷ xs) h =
        (λ _. lease_holds worker now until x h, lease_all-IsHeld worker until xs h)

  -- While the lease of a first claim lasts, a second one returns none of its rows.
  pub claim-exclusive :
      (worker other id : String) (limit limit' lease_seconds lease_seconds' now now' : ℕ)
      (xs : List R)
      → now' ≤ now + lease_seconds
      → any (has_row_id id) (claim worker limit lease_seconds now xs).0 ≡ true
      → any
          (has_row_id id)
          (claim other limit' lease_seconds' now' (claim worker limit lease_seconds now xs).1).0
        ≡ false
  unfolding claim claimable
  claim-exclusive worker other id limit limit' lease_seconds lease_seconds' now now' xs h k =
      let rows = lease_all worker (now + lease_seconds) (claimable now limit xs) in
      any-lease_all id now' other (now' + lease_seconds') _
      ∙ any-take id now' (max 1 (min limit' 100)) _ (
          keep-IsHeld id now' (set_rows rows xs) (
            set_rows-holds id now' rows xs
              (lease_all-IsHeld id now' worker (now + lease_seconds) (claimable now limit xs) h) k))

  first_kept :
      (now : ℕ) (xs : List R) (r : R)
      → find (is_free now) xs ≡ some r
      → (rest : List R) × (keep (is_free now) xs ≡ r ∷ rest)
  first_kept now [] r h = cc
  first_kept now (x ∷ xs) r h = elim (Bool-cases (is_free now x)) [
    | inl e ↦
        let same : some x ≡ some r = rw e at h in
        (keep (is_free now) xs, rw e (ap (λ y. y ∷ keep (is_free now) xs) (the_same same)))
    | inr e ↦ rw e (first_kept now xs r (rw e at h))
  ]

  first_taken :
      (n : ℕ) (r : R) (rest : List R) → 1 ≤ n → (tail : List R) × (take n (r ∷ rest) ≡ r ∷ tail)
  first_taken zero r rest h = ground (arith, h)
  first_taken (suc n) r rest h = (take n rest, refl)

  -- A claim takes the oldest free row, whatever the limit is.
  pub claim-oldest :
      (worker : String) (limit lease_seconds now : ℕ) (xs : List R) (r : R)
      → find (is_free now) xs ≡ some r
      → (rest : List R) × ((claim worker limit lease_seconds now xs).0
          ≡ lease worker (now + lease_seconds) r ∷ rest)
  unfolding claim claimable
  claim-oldest worker limit lease_seconds now xs r h =
      let kept = first_kept now xs r h in
      let taken = first_taken (max 1 (min limit 100)) r kept.0 (omega arith) in
      (
        lease_all worker (now + lease_seconds) taken.0,
        ap (λ ys. lease_all worker (now + lease_seconds) (take (max 1 (min limit 100)) ys)) kept.1
            ∙ ap (lease_all worker (now + lease_seconds)) taken.1,
      )

  length-take : (n : ℕ) (xs : List R) → length (take n xs) ≤ n
  length-take zero xs = omega arith
  length-take (suc n) [] = omega arith
  length-take (suc n) (x ∷ xs) = omega (arith, length-take n xs)

  length-lease_all :
      (worker : String) (until : ℕ) (xs : List R) → length (lease_all worker until xs) ≡ length xs
  length-lease_all worker until [] = refl
  length-lease_all worker until (x ∷ xs) = ap suc (length-lease_all worker until xs)

  -- A claim is bounded: by its limit, which counts as 1 where it is 0, and by 100.
  pub length-claim :
      (worker : String) (limit lease_seconds now : ℕ) (xs : List R)
      → length (claim worker limit lease_seconds now xs).0 ≤ max 1 (min limit 100)
  unfolding claim claimable
  length-claim worker limit lease_seconds now xs = omega (
    arith,
    length-lease_all worker (now + lease_seconds) (claimable now limit xs),
    length-take (max 1 (min limit 100)) (keep (is_free now) xs),
  )
