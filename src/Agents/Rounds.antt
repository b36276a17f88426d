-- ===== src/Agents/Rounds.antt =====
-- What a round of the agent worker counts. The turn of the agent is a parameter here, with whatever it
-- returns, raises and writes; how often it asks the provider is not part of the model.
use groundloom.Base.{
  ℕ, ◌+◌, List, [], ◌∷◌, Option, none, some, String, Bool-cases, ◌≡◌, refl, arith, inl, inr, length,
  ◌∙◌, ltb, ◌==◌, ◌||◌, max,
}
use groundloom.Json.{field, end}
use groundloom.Json.Numbers.{json_number}
use groundloom.Store.{RuntimeContext, Result, ok, err, Scope, rollback_scope}
use groundloom.Runs.Tables.{AgentRun}
use groundloom.Agents.Worker.{
  Membership, AgentTables, AgentSettings, Summary, count_run, recover, settle, is_final, get_run,
  run_as, run_one, run_all, find_membership, or_text, context_of, nothing_counted, agent_beat,
  claim_agent_runs, run_agent_worker_once,
}

abbrev pub total : Summary → ℕ
total n = n.completed + n.requeued + n.failed

-- One run more is counted, and the number of claimed runs stays.
abbrev IsCounted : Summary → Summary → Type 0
IsCounted n m = (total m ≡ total n + 1) × (m.claimed ≡ n.claimed)

count_run-IsCounted : (o : Option AgentRun) (n : Summary) → IsCounted n (count_run o n)
count_run-IsCounted none n = (omega arith, refl)
count_run-IsCounted (some r) n =
    elim (Bool-cases (
      r.status == "completed"
      || (r.status == "waiting_for_approval" || r.status == "waiting_for_user"))) [
        | inl e ↦ rw e (omega arith, refl)
        | inr e ↦ elim (Bool-cases (r.status == "failed")) [
          | inl f ↦ rw (e, f) (omega arith, refl)
          | inr f ↦ rw (e, f) (omega arith, refl)
        ]
      ]

recover-IsCounted :
    (max_attempts : ℕ) (o : Option AgentRun) (n : Summary) (s : Scope AgentTables)
    → IsCounted n (recover max_attempts o n s).0
recover-IsCounted max_attempts none n s = (omega arith, refl)
recover-IsCounted max_attempts (some r) n s = elim (Bool-cases (is_final r.status)) [
  | inl e ↦ rw e (omega arith, refl)
  | inr e ↦ elim (Bool-cases (ltb r.attempts max_attempts)) [
    | inl l ↦ rw (e, l) (omega arith, refl)
    | inr l ↦ rw (e, l) (omega arith, refl)
  ]
]

settle-IsCounted :
    (max_attempts : ℕ) (id : String) (r : Result (Unit {0}) × Scope AgentTables) (n : Summary)
    → IsCounted n (settle max_attempts id r n).0
settle-IsCounted max_attempts id (ok done, s) n = count_run-IsCounted (get_run id s) n
settle-IsCounted max_attempts id (err e, s) n =
    let back = rollback_scope s in recover-IsCounted max_attempts (get_run id back) n back

module _
    (turn : RuntimeContext → AgentRun → Scope AgentTables → Result (Unit {0}) × Scope AgentTables)
    (settings : AgentSettings) where
  run_as-IsCounted :
      (o : Option Membership) (actor worker : String) (r : AgentRun) (n : Summary)
      (s : Scope AgentTables)
      → IsCounted n (run_as turn settings o actor worker r n s).0
  unfolding run_as
  run_as-IsCounted none actor worker r n s = (omega arith, refl)
  run_as-IsCounted (some m) actor worker r n s =
      settle-IsCounted settings.agent_max_attempts r.id (turn (context_of r actor worker m) r s) n

  run_all-counts :
      (worker : String) (rs : List AgentRun) (n : Summary) (s : Scope AgentTables)
      → (total (run_all turn settings worker rs n s).0 ≡ total n + length rs)
        × ((run_all turn settings worker rs n s).0.claimed ≡ n.claimed)
  unfolding run_all run_one
  run_all-counts worker [] n s = (omega arith, refl)
  run_all-counts worker (r ∷ rs) n s =
      let actor = or_text r.actor_id settings.local_user_id in
      let one =
        run_as-IsCounted (find_membership r.workspace_id actor s.work.memberships) actor worker r n
          s in
      let next = run_one turn settings worker r n s in
      let rest = run_all-counts worker rs next.0 next.1 in
      (omega (arith, rest.0, one.0), rest.1 ∙ one.1)

  total-run_all :
      (worker : String) (claim : List AgentRun × Scope AgentTables)
      → let n =
          (run_all turn settings worker claim.0
            (nothing_counted turn settings (length claim.0))
            claim.1).0 in
        total n ≡ n.claimed
  total-run_all worker claim =
      let counts =
        run_all-counts worker claim.0 (nothing_counted turn settings (length claim.0)) claim.1 in
      omega (arith, counts.0, counts.1)

-- A round of the agent worker accounts for every run that it claimed: whatever the turns return, raise
-- and write, also when a turn removes its run, each run is counted exactly once, as completed, as
-- queued again or as failed.
pub run_agent_worker_once-total :
    (turn : RuntimeContext → AgentRun → Scope AgentTables → Result (Unit {0}) × Scope AgentTables)
    (settings : AgentSettings) (worker : String) (limit now now' now'' : ℕ) (s : Scope AgentTables)
    → let n = (run_agent_worker_once turn settings worker limit now now' now'' s).0 in
      total n ≡ n.claimed
unfolding run_agent_worker_once
run_agent_worker_once-total turn settings worker limit now now' now'' s =
    total-run_all turn settings worker (
      claim_agent_runs worker limit 300 (max 1 settings.agent_max_attempts) now'
        (agent_beat worker (field "limit" (json_number limit) end) now s))
