-- ===== src/Jobs/Writes.antt =====
-- What the rows of a table keep when rows are written by id and when they are claimed.
use groundloom.Base.{
  ℕ, zero, suc, ◌+◌, max, min, String, true, List, [], ◌∷◌, ◌==◌, ◌≡◌, inl, inr, keep, take, All,
  Bool-cases,
}
use groundloom.Jobs.Queue.{JobTable}
use groundloom.Jobs.Claims.{set_row, set_rows, claimable, lease_all, claim}

module _ {R : Type 0} (table : JobTable R) (P : R → Type 0) where
  pub All-set_row : (r : R) (xs : List R) → P r → All P xs → All P (set_row table r xs)
  All-set_row r [] h k = tt
  All-set_row r (x ∷ xs) h k = elim (Bool-cases (table.row_id x == table.row_id r)) [
    | inl e ↦ rw e (h, All-set_row r xs h k.1)
    | inr e ↦ rw e (k.0, All-set_row r xs h k.1)
  ]

  pub All-set_rows : (rs xs : List R) → All P rs → All P xs → All P (set_rows table rs xs)
  All-set_rows [] xs h k = k
  All-set_rows (r ∷ rs) xs h k = All-set_rows rs (set_row table r xs) h.1 (All-set_row r xs h.0 k)

  All-claimable :
      (worker : String) (until now n : ℕ) (xs : List R)
      → ((r : R) → P r → table.is_free now r ≡ true → P (table.lease worker until r))
      → All P xs
      → All P (lease_all table worker until (take n (keep (table.is_free now) xs)))
  All-claimable worker until now zero xs f h = tt
  All-claimable worker until now (suc n) [] f h = tt
  All-claimable worker until now (suc n) (x ∷ xs) f h = elim (Bool-cases (table.is_free now x)) [
    | inl e ↦ rw e (f x h.0 e, All-claimable worker until now n xs f h.1)
    | inr e ↦ rw e (All-claimable worker until now (suc n) xs f h.1)
  ]

  -- A claim keeps what every row has that a lease of a free row keeps.
  pub All-claim :
      (worker : String) (limit lease_seconds now : ℕ) (xs : List R)
      → ((r : R)
          → P r
          → table.is_free now r ≡ true
          → P (table.lease worker (now + lease_seconds) r))
      → All P xs
      → let c = claim table worker limit lease_seconds now xs in All P c.0 × All P c.1
  unfolding claim claimable
  All-claim worker limit lease_seconds now xs f h =
      let rows = lease_all table worker (now + lease_seconds) (claimable table now limit xs) in
      let leased = All-claimable worker (now + lease_seconds) now (max 1 (min limit 100)) xs f h in
      (leased, All-set_rows rows xs leased h)
