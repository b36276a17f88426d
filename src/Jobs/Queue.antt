-- ===== src/Jobs/Queue.antt =====
-- A table of jobs: when a row is free at a time, and what a worker's lease until a time writes.
use groundloom.Base.{ℕ, ◌≤◌, String, Bool, false, Option, none, some, ◌≡◌, ltb}

pub record JobTable (R : Type 0) : Type 0 where
  pub row_id : R → String
  pub is_free : ℕ → R → Bool
  pub lease : String → ℕ → R → R
  -- A lease keeps the row's id, and as long as it lasts the row is not free.
  pub row_id-lease :
      (worker : String) (until : ℕ) (r : R) → row_id (lease worker until r) ≡ row_id r
  pub lease_holds :
      (worker : String) (now until : ℕ) (r : R)
      → now ≤ until
      → is_free now (lease worker until r) ≡ false

-- `lease_until < now`, which is not true of a missing lease.
abbrev pub is_before : Option ℕ → ℕ → Bool
is_before none now = false
is_before (some t) now = ltb t now
