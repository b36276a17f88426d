-- ===== src/Harness/Budgets.antt =====
-- budgets.py of packages/groundloom-agent-harness: `BudgetCounter`. Its lock makes a call of
-- `consume` one step, so concurrent calls are a sequence of them in the order that took the lock.
-- Amounts are natural numbers: a negative one raises as zero does.
pub mod Bounds
use groundloom.Base.{
  ℕ, zero, suc, ◌+◌, ◌-◌, ◌≤◌, min, ◌≡◌, refl, Bool, true, false, Option, none, some, List, [], ◌∷◌,
  arith, ltb, if◌then◌else◌,
}

pub record BudgetCounter : Type 0 where
  pub limit : ℕ
  pub used : ℕ

-- `BudgetCounter(limit=...)`, which raises a ValueError for a limit below 1.
unfoldable pub new_counter : ℕ → Option BudgetCounter
new_counter limit = if ltb limit 1 then none else some (record { limit = limit; used = 0 })

pub data Consumption : Type 0 where
  granted : ℕ → Consumption
  exceeded not_positive : Consumption

unfoldable pub consume : ℕ → BudgetCounter → Consumption × BudgetCounter
consume amount c =
    if ltb amount 1
    then (not_positive, c)
    else if ltb c.limit (c.used + amount)
    then (exceeded, c)
    else (granted (c.used + amount), record c { used = c.used + amount })

-- The calls of all threads, in the order in which they took the lock.
unfoldable pub consume_all : List ℕ → BudgetCounter → List Consumption × BudgetCounter
unfolding consume
consume_all [] c = ([], c)
consume_all (n ∷ ns) c =
    let (answer, after) = consume n c in
    let (answers, last) = consume_all ns after in (answer ∷ answers, last)

-- What the granted calls asked for together.
abbrev pub granted_amount : ℕ → Consumption → ℕ
granted_amount n (granted _) = n
granted_amount n _ = 0

abbrev pub spent : List ℕ → List Consumption → ℕ
spent [] _ = 0
spent (n ∷ ns) [] = 0
spent (n ∷ ns) (a ∷ as') = granted_amount n a + spent ns as'

abbrev pub IsWithin : BudgetCounter → Type 0
IsWithin c = c.used ≤ c.limit

abbrev pub repeat : ℕ → ℕ → List ℕ
repeat zero a = []
repeat (suc n) a = a ∷ repeat n a

-- How many calls were granted.
abbrev pub grants : List Consumption → ℕ
grants [] = 0
grants (granted _ ∷ as') = suc (grants as')
grants (_ ∷ as') = grants as'
