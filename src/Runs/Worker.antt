-- ===== src/Runs/Worker.antt =====
-- `touch_worker_heartbeat` of backend/app/application/operations.py and `run_delegated_worker_once`
-- of backend/app/services.py. The tenant setting of the database connection is left out: the queries
-- of these functions name the workspace themselves.
use groundloom.Base.{
  ℕ, ◌+◌, ◌&&◌, String, true, Option, none, some, List, [], ◌∷◌, ◌==◌, ◌≡◌, refl, arith, inl, inr,
  find, length, ◌∙◌, Bool-cases,
}
use groundloom.Json.{Fields, field, end}
use groundloom.Store.{RuntimeContext, Result, ok, err, Raised, domain, code_text, audit}
use groundloom.Jobs.{WorkerHeartbeat, beat, worker_beat}
use groundloom.Runs.Tables.{
  AgentRun, DelegatedTask, TaskStatus, completed, cancelled, failed, RunSession, flush_run,
  commit_run, rollback_run, in_session,
}
use groundloom.Json.Numbers.{json_number}
use groundloom.Runs.Tasks.{
  claim_delegated_tasks, process_delegated_task, process_in, parent_run, write_task, released,
  is_stopped, is_completed,
}

unfoldable pub touch_worker_heartbeat : WorkerHeartbeat → RunSession → RunSession
touch_worker_heartbeat h s =
    flush_run (record s { work = record s.work { heartbeats = beat h s.work.heartbeats } })

-- What one round of the worker counts.
pub record Summary : Type 0 where
  pub claimed : ℕ
  pub completed : ℕ
  pub cancelled : ℕ
  pub failed : ℕ

abbrev pub error_code_of : Raised → String
error_code_of (domain e) = code_text e.code
error_code_of _ = "DELEGATED_TASK_FAILED"

abbrev pub fail_found : RuntimeContext → Raised → Option DelegatedTask → RunSession → RunSession
fail_found ctx e none s = s
fail_found ctx e (some t) s = commit_run (
    in_session
      (audit ctx "delegated_task.failed" "delegated_task" (some t.id) "Specialist task failed"
        "failure")
      (write_task (record (released failed t) { error_code = some (error_code_of e) }) s))

-- The `except` branch: a rollback, and the task as failed if it is still there.
unfoldable pub fail_task : RuntimeContext → Raised → String → RunSession → RunSession
fail_task ctx e id s =
    let back = rollback_run s in
    fail_found ctx e (find (λ t. t.id == id && t.workspace_id == ctx.workspace_id) back.work.tasks)
      back

abbrev pub count_status : TaskStatus → Summary → Summary
count_status completed n = record n { completed = n.completed + 1 }
count_status cancelled n = record n { cancelled = n.cancelled + 1 }
count_status _ n = n

abbrev pub settle :
    RuntimeContext
    → DelegatedTask
    → Result DelegatedTask × RunSession
    → Summary
    → Summary × RunSession
settle ctx t (ok u, s) n = (count_status u.status n, s)
settle ctx t (err e, s) n = (record n { failed = n.failed + 1 }, fail_task ctx e t.id s)

-- The loop over the claimed tasks.
unfoldable pub run_tasks :
    RuntimeContext → List DelegatedTask → Summary → RunSession → Summary × RunSession
unfolding fail_task
run_tasks ctx [] n s = (n, s)
run_tasks ctx (t ∷ ts) n s =
    let (n', s') = settle ctx t (process_delegated_task ctx t s) n in run_tasks ctx ts n' s'

abbrev pub heartbeat : RuntimeContext → String → Fields → ℕ → WorkerHeartbeat
heartbeat ctx = worker_beat "delegated" ctx

abbrev pub summary_details : Summary → Fields
summary_details n = field "claimed" (json_number n.claimed) (
    field "completed" (json_number n.completed)
      (field "cancelled" (json_number n.cancelled) (field "failed" (json_number n.failed) end)))

abbrev pub nothing_counted : ℕ → Summary
nothing_counted claimed = record { claimed = claimed; completed = 0; cancelled = 0; failed = 0 }

-- The session after the first heartbeat.
unfoldable pub ready : RuntimeContext → String → ℕ → ℕ → RunSession → RunSession
unfolding touch_worker_heartbeat
ready ctx worker_id limit now s =
    commit_run (
      touch_worker_heartbeat (heartbeat ctx worker_id (field "limit" (json_number limit) end) now)
        s)

-- `now`, `now'` and `now''` are the three readings of the clock.
unfoldable pub run_delegated_worker_once :
    RuntimeContext → String → ℕ → ℕ → ℕ → ℕ → RunSession → Summary × RunSession
unfolding ready run_tasks touch_worker_heartbeat
run_delegated_worker_once ctx worker_id limit now now' now'' s =
    let (tasks, leased) =
      claim_delegated_tasks ctx.workspace_id worker_id limit 300 now'
        (ready ctx worker_id limit now s) in
    let (n, done) = run_tasks ctx tasks (nothing_counted (length tasks)) leased in
    (
      n,
      commit_run (touch_worker_heartbeat (heartbeat ctx worker_id (summary_details n) now'') done),
    )

abbrev pub total : Summary → ℕ
total n = n.completed + n.cancelled + n.failed

-- What is processed without an error is completed or cancelled.
abbrev IsDone : Result DelegatedTask → Type 0
IsDone (err e) = Unit
IsDone (ok t) = (n : Summary) → total (count_status t.status n) ≡ total n + 1

count_completed :
    (status : TaskStatus) (n : Summary)
    → is_completed status ≡ true
    → total (count_status status n) ≡ total n + 1
count_completed completed n h = omega arith
count_completed _ n h = cc

process_in-IsDone :
    (ctx : RuntimeContext) (t : DelegatedTask) (r : Result AgentRun) (s : RunSession)
    → IsDone (process_in ctx t r s).0
unfolding process_in
process_in-IsDone ctx t (err e) s = tt
process_in-IsDone ctx t (ok run) s = elim (Bool-cases (is_stopped run)) [
  | inl e ↦ rw e (λ n. omega arith)
  | inr e ↦ elim (Bool-cases (is_completed t.status)) [
    | inl c ↦ rw e (rw c (λ n. count_completed t.status n c))
    | inr c ↦ rw e (rw c (λ n. omega arith))
  ]
]

process-IsDone :
    (ctx : RuntimeContext) (t : DelegatedTask) (s : RunSession)
    → IsDone (process_delegated_task ctx t s).0
unfolding process_delegated_task
process-IsDone ctx t s = process_in-IsDone ctx t (parent_run ctx t s.work) s

count_status-claimed :
    (status : TaskStatus) (n : Summary) → (count_status status n).claimed ≡ n.claimed
count_status-claimed status n = ground arith

settle-counts :
    (ctx : RuntimeContext) (t : DelegatedTask) (r : Result DelegatedTask × RunSession) (n : Summary)
    → IsDone r.0
    → (total (settle ctx t r n).0 ≡ total n + 1) × ((settle ctx t r n).0.claimed ≡ n.claimed)
settle-counts ctx t (err e, s) n h = (omega arith, refl)
settle-counts ctx t (ok u, s) n h = (h n, count_status-claimed u.status n)

run_tasks-counts :
    (ctx : RuntimeContext) (ts : List DelegatedTask) (n : Summary) (s : RunSession)
    → (total (run_tasks ctx ts n s).0 ≡ total n + length ts)
      × ((run_tasks ctx ts n s).0.claimed ≡ n.claimed)
unfolding run_tasks
run_tasks-counts ctx [] n s = (omega arith, refl)
run_tasks-counts ctx (t ∷ ts) n s =
    let one = settle-counts ctx t (process_delegated_task ctx t s) n (process-IsDone ctx t s) in
    let next = settle ctx t (process_delegated_task ctx t s) n in
    let rest = run_tasks-counts ctx ts next.0 next.1 in
    (omega (arith, rest.0, one.0), rest.1 ∙ one.1)

total-run_tasks :
    (ctx : RuntimeContext) (claim : List DelegatedTask × RunSession)
    → let n = (run_tasks ctx claim.0 (nothing_counted (length claim.0)) claim.1).0 in
      total n ≡ n.claimed
total-run_tasks ctx claim =
    let counts = run_tasks-counts ctx claim.0 (nothing_counted (length claim.0)) claim.1 in
    omega (arith, counts.0, counts.1)

-- A round of the worker accounts for every task that it claimed: each is counted exactly once, as
-- completed, as cancelled or as failed.
pub run_delegated_worker_once-total :
    (ctx : RuntimeContext) (worker_id : String) (limit now now' now'' : ℕ) (s : RunSession)
    → let n = (run_delegated_worker_once ctx worker_id limit now now' now'' s).0 in
      total n ≡ n.claimed
unfolding run_delegated_worker_once
run_delegated_worker_once-total ctx worker_id limit now now' now'' s = total-run_tasks ctx (
    claim_delegated_tasks ctx.workspace_id worker_id limit 300 now'
      (ready ctx worker_id limit now s))
