-- ===== src/Runs/Tasks.antt =====
-- The handlers of delegated tasks in backend/app/services.py: `retry_delegated_task`,
-- `claim_delegated_tasks` and `process_delegated_task`.
use groundloom.Base.{
  ◌≤◌, ◌≡◌, refl, arith, ℕ, ◌+◌, String, Bool, true, false, Option, none, some, List, [], ◌∷◌, ◌==◌,
  ◌&&◌, ◌||◌, not, find, leb, if◌then◌else◌,
}
use groundloom.Json.{Fields, bool, str, field, end, with_key}
use groundloom.Store.{
  RuntimeContext, Result, ok, err, error, resource_not_found, forbidden, conflict, raise_if,
  or_raise, require, ◌>>=◌, ◌>>◌, audit, outbox,
}
use groundloom.Jobs.{JobTable, is_before, claim}
use groundloom.Runs.Tables.{
  AgentRun, TaskStatus, queued, running, completed, cancelled, DelegatedTask, Tables, RunSession,
  commit_run, in_session,
}
use groundloom.Json.Numbers.{json_number}
use groundloom.Runs.Events.{append_event}

abbrev pub retry_roles : List String
retry_roles = "author" ∷ "reviewer" ∷ "workspace_admin" ∷ "organization_admin" ∷ []

abbrev pub attempts_of : Option ℕ → ℕ
attempts_of none = 0
attempts_of (some n) = n

abbrev pub is_retried : TaskStatus → Bool
is_retried queued = true
is_retried running = true
is_retried completed = true
is_retried _ = false

abbrev pub set_task : DelegatedTask → List DelegatedTask → List DelegatedTask
set_task t [] = []
set_task t (u ∷ us) = (if u.id == t.id then t else u) ∷ set_task t us

abbrev pub write_task : DelegatedTask → RunSession → RunSession
write_task t s = record s { work = record s.work { tasks = set_task t s.work.tasks } }

-- `db.query(DelegatedTask).filter_by(id=..., workspace_id=...).first()`
unfoldable pub get_task : RuntimeContext → String → Tables → Result DelegatedTask
get_task ctx id d =
    or_raise (find (λ t. t.id == id && t.workspace_id == ctx.workspace_id) d.tasks)
      (error resource_not_found 404)

abbrev pub retried : DelegatedTask → DelegatedTask
retried t = record t {
  status = queued;
  error_code = none;
  lease_owner = none;
  lease_until = none;
  result_refs = record {
    attempts = some (attempts_of t.result_refs.attempts + 1);
    others = with_key "retry_requested" (bool true) t.result_refs.others;
  };
}

-- How a call of `retry_delegated_task` goes on: with the task as it is, or queued again.
pub data Retry : Type 0 where
  unchanged requeued : DelegatedTask → Retry

abbrev pub decide_task : DelegatedTask → Result Retry
decide_task t =
    if is_retried t.status
    then ok (unchanged t)
    else if leb 3 (attempts_of t.result_refs.attempts)
    then err (error conflict 409)
    else ok (requeued t)

unfoldable pub decide_retry : RuntimeContext → String → Tables → Result Retry
unfolding get_task
decide_retry ctx task_id d = do require ctx retry_roles; t ← get_task ctx task_id d; decide_task t

unfoldable pub write_retry : RuntimeContext → DelegatedTask → RunSession → RunSession
unfolding json_number
write_retry ctx t s = commit_run (
    in_session
      (λ u.
        outbox (some ctx.workspace_id) "DelegatedTaskRetryRequested" "delegated_task" t.id
          (field "task_id" (str t.id)
            (field "attempt" (json_number (attempts_of t.result_refs.attempts)) end))
          (audit ctx "delegated_task.retry_requested" "delegated_task" (some t.id)
            "Requeued bounded specialist work" "success" u))
      (write_task t s))

unfoldable pub perform_retry :
    RuntimeContext → Result Retry → RunSession → Result DelegatedTask × RunSession
unfolding write_retry
perform_retry ctx (err e) s = (err e, s)
perform_retry ctx (ok (unchanged t)) s = (ok t, s)
perform_retry ctx (ok (requeued t)) s = (ok (retried t), write_retry ctx (retried t) s)

unfoldable pub retry_delegated_task :
    RuntimeContext → String → RunSession → Result DelegatedTask × RunSession
unfolding perform_retry decide_retry
retry_delegated_task ctx task_id s = perform_retry ctx (decide_retry ctx task_id s.work) s

abbrev pub is_claimable_as : TaskStatus → DelegatedTask → ℕ → Bool
is_claimable_as queued t now = true
is_claimable_as running t now = is_before t.lease_until now
is_claimable_as _ t now = false

unfoldable pub is_claimable : String → ℕ → DelegatedTask → Bool
is_claimable workspace now t = t.workspace_id == workspace && is_claimable_as t.status t now

abbrev pub leased : String → ℕ → DelegatedTask → DelegatedTask
leased worker until t = record t {
  status = running;
  lease_owner = some worker;
  lease_until = some until;
}

pub leased-holds :
    (workspace worker : String) (now until : ℕ) (t : DelegatedTask)
    → now ≤ until
    → is_claimable workspace now (leased worker until t) ≡ false
unfolding is_claimable
leased-holds workspace worker now until t h = ground (arith, h)

abbrev pub task_table : String → JobTable DelegatedTask
task_table workspace = record {
  row_id = λ t. t.id;
  is_free = is_claimable workspace;
  lease = leased;
  row_id-lease = λ worker until t. refl;
  lease_holds = leased-holds workspace;
}

-- `limit` and `lease_seconds` are keyword arguments; `now` is what `utcnow()` gives.
unfoldable pub claim_delegated_tasks :
    String → String → ℕ → ℕ → ℕ → RunSession → List DelegatedTask × RunSession
claim_delegated_tasks workspace worker limit lease_seconds now s =
    let (rows, tasks) = claim (task_table workspace) worker limit lease_seconds now s.work.tasks in
    (rows, commit_run (record s { work = record s.work { tasks = tasks } }))

-- The parent run of a task, in the same workspace and project.
abbrev pub same_project : DelegatedTask → AgentRun → Result AgentRun
same_project t run =
    if run.project_id == t.project_id then ok run else err (error resource_not_found 404)

unfoldable pub parent_run : RuntimeContext → DelegatedTask → Tables → Result AgentRun
parent_run ctx t d = do
  raise_if (not (t.workspace_id == ctx.workspace_id)) (error forbidden 403)
  run ←
      or_raise (find (λ r. r.id == t.parent_run_id && r.workspace_id == ctx.workspace_id) d.runs)
        (error resource_not_found 404)
  same_project t run

abbrev pub released : TaskStatus → DelegatedTask → DelegatedTask
released status t = record t { status = status; lease_owner = none; lease_until = none }

abbrev pub finished : DelegatedTask → DelegatedTask
finished t = record (released completed t) {
  error_code = none;
  result_refs = record t.result_refs {
    others =
        with_key "worker" (str "delegated-task-worker")
          (with_key "status" (str "proposal_reconciled") t.result_refs.others);
  };
}

abbrev pub task_event : DelegatedTask → String → Fields
task_event t status =
    field "task_id" (str t.id)
      (field "task_type" (str t.task_type) (field "status" (str status) end))

unfoldable pub write_completion :
    RuntimeContext → AgentRun → DelegatedTask → RunSession → RunSession
unfolding append_event
write_completion ctx run t s = commit_run (
    in_session
      (audit ctx "delegated_task.completed" "delegated_task" (some t.id) "Specialist task completed"
        "success")
      (append_event ctx run "subagent.completed" (task_event t "completed") (
        write_task (finished t)
          (append_event ctx run "subagent.started" (task_event t "running") s))))

abbrev pub is_completed : TaskStatus → Bool
is_completed completed = true
is_completed _ = false

abbrev pub is_stopped : AgentRun → Bool
is_stopped run = run.cancel_requested || (run.status == "cancelled")

unfoldable pub process_in :
    RuntimeContext
    → DelegatedTask
    → Result AgentRun
    → RunSession
    → Result DelegatedTask × RunSession
unfolding write_completion
process_in ctx t (err e) s = (err e, s)
process_in ctx t (ok run) s =
    if is_stopped run
    then (ok (released cancelled t), commit_run (write_task (released cancelled t) s))
    else if is_completed t.status
    then (ok t, s)
    else (ok (finished t), write_completion ctx run t s)

unfoldable pub process_delegated_task :
    RuntimeContext → DelegatedTask → RunSession → Result DelegatedTask × RunSession
unfolding process_in parent_run
process_delegated_task ctx t s = process_in ctx t (parent_run ctx t s.work) s
