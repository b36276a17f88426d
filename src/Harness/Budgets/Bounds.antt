-- ===== src/Harness/Budgets/Bounds.antt =====
-- What a shared counter grants, whatever the order of the calls.
use groundloom.Base.{
  ℕ, zero, suc, ◌+◌, ◌-◌, ◌≤◌, min, ◌≡◌, true, false, List, [], ◌∷◌, arith, ltb, inl, inr,
  Bool-cases, ◌∙◌,
}
use groundloom.Harness.Budgets.{
  BudgetCounter, consume, consume_all, spent, granted_amount, grants, repeat, IsWithin,
}

-- One call leaves the counter within its limit and spends what it was granted.
consume-IsWithin :
    (n : ℕ) (c : BudgetCounter)
    → IsWithin c
    → IsWithin (consume n c).1
      × ((consume n c).1.used ≡ c.used + granted_amount n (consume n c).0)
      × ((consume n c).1.limit ≡ c.limit)
unfolding consume
consume-IsWithin n c h = ground arith

-- Whatever calls are made, in whatever order, the counter stays within its limit, keeps that limit,
-- and has used exactly what the granted calls asked for, on top of what was used before.
pub consume_all-IsWithin :
    (ns : List ℕ) (c : BudgetCounter)
    → IsWithin c
    → IsWithin (consume_all ns c).1
      × ((consume_all ns c).1.used ≡ c.used + spent ns (consume_all ns c).0)
      × ((consume_all ns c).1.limit ≡ c.limit)
unfolding consume_all
consume_all-IsWithin [] c h = ground arith
consume_all-IsWithin (n ∷ ns) c h =
    let one = consume-IsWithin n c h in
    let rest = consume_all-IsWithin ns (consume n c).1 one.0 in
    (rest.0, omega (arith, rest.1, one.1), rest.2 ∙ one.2)

limit_reached : (c : BudgetCounter) → ltb c.limit (c.used + 1) ≡ true → c.limit ≤ c.used
limit_reached c h = ground arith

limit_left : (c : BudgetCounter) → ltb c.limit (c.used + 1) ≡ false → c.used + 1 ≤ c.limit
limit_left c h = ground arith

-- Of n tool calls, each of which asks for one, as many are granted as the budget has left: all of
-- them, or else exactly the rest, and the counter then stands at its limit.
pub grants-consume_all :
    (n : ℕ) (c : BudgetCounter)
    → IsWithin c
    → (grants (consume_all (repeat n 1) c).0 ≡ min n (c.limit - c.used))
      × ((consume_all (repeat n 1) c).1.used ≡ min (c.used + n) c.limit)
unfolding consume_all
grants-consume_all zero c h = ground arith
grants-consume_all (suc n) c h = elim (Bool-cases (ltb c.limit (c.used + 1))) [
  | inl e ↦ rw e (ground (arith, grants-consume_all n c h, limit_reached c e))
  | inr e ↦ rw e (
      ground (
        arith,
        grants-consume_all n (record c { used = c.used + 1 }) (limit_left c e),
        limit_left c e,
      ))
]
