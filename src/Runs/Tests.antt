-- ===== src/Runs/Tests.antt =====
-- Delegated tasks at concrete inputs.
use groundloom.Base.{String, true, false, none, some, [], ◌∷◌, ◌≡◌, refl, arith, any, map, All}
use groundloom.Json.{end, number}
use groundloom.Store.Samples.{no_rows}
use groundloom.Store.{RuntimeContext}
use groundloom.Jobs.{claim}
use groundloom.Runs.Tables.{AgentRun, DelegatedTask, TaskStatus, queued, failed, Tables, RunSession}
use groundloom.Json.Numbers.{json_number}
use groundloom.Runs.Events.{append_event}
use groundloom.Runs.Tasks.{
  process_delegated_task, process_in, parent_run, write_completion, retry_delegated_task,
  claim_delegated_tasks, is_claimable,
}
use groundloom.Runs.Worker.{
  run_delegated_worker_once, ready, run_tasks, total, run_delegated_worker_once-total,
}
use groundloom.Runs.Numbering.{IsNumbered, process_delegated_task-IsNumbered}
use groundloom.Runs.Leases.{
  IsBounded, has_task_id, retry_delegated_task-IsBounded, claim_delegated_tasks-exclusive,
}

written_number : json_number 120 ≡ number false "120"
unfolding json_number
written_number = refl

abbrev author : RuntimeContext
author = record {
  user_id = "usr1";
  workspace_id = "ws1";
  roles = "author" ∷ [];
  correlation_id = "corr1";
}

abbrev task : String → TaskStatus → DelegatedTask
task id status = record {
  id = id;
  workspace_id = "ws1";
  project_id = "prj1";
  parent_run_id = "run1";
  task_type = "module_writer";
  status = status;
  result_refs = record { attempts = some 2; others = end };
  error_code = none;
  lease_owner = none;
  lease_until = none;
}

abbrev agent_run : AgentRun
agent_run = record {
  id = "run1";
  workspace_id = "ws1";
  project_id = "prj1";
  thread_id = "thr1";
  status = "running";
  cancel_requested = false;
  actor_id = none;
  correlation_id = none;
  attempts = 1;
  error_code = none;
  lease_owner = none;
  lease_until = none;
}

abbrev tables : Tables
tables = record {
  runs = agent_run ∷ [];
  tasks = task "task1" queued ∷ task "task2" failed ∷ [];
  public_events = [];
  heartbeats = [];
}

abbrev at_start : RunSession
at_start = record {
  session = record { committed = no_rows; work = no_rows; uuid4 = λ n. "0"; drawn = 0 };
  committed = tables;
  work = tables;
  pending = [];
}

two_events :
    map
      (λ e. e.seq)
      (process_delegated_task author (task "task1" queued) at_start).1.work.public_events
    ≡ 1 ∷ 2 ∷ []
unfolding process_delegated_task process_in parent_run write_completion append_event
two_events = refl

process_delegated_task-IsNumbered_example :
    IsNumbered (process_delegated_task author (task "task1" queued) at_start).1
process_delegated_task-IsNumbered_example =
    process_delegated_task-IsNumbered author (task "task1" queued) at_start (λ run. refl)

retry_delegated_task-IsBounded_example :
    All IsBounded (retry_delegated_task author "task2" at_start).1.work.tasks
retry_delegated_task-IsBounded_example =
    retry_delegated_task-IsBounded author "task2" at_start (omega arith, (omega arith, tt))

first_claim :
    any (has_task_id "task1") (claim_delegated_tasks "ws1" "worker1" 10 300 1000 at_start).0 ≡ true
unfolding claim_delegated_tasks is_claimable claim
first_claim = refl

claim_delegated_tasks-exclusive_example :
    any
      (has_task_id "task1")
      (claim_delegated_tasks "ws1" "worker2" 10 300 1200
        (claim_delegated_tasks "ws1" "worker1" 10 300 1000 at_start).1).0
    ≡ false
claim_delegated_tasks-exclusive_example =
    claim_delegated_tasks-exclusive "ws1" "worker1" "worker2" "task1" 10 10 300 300 1000 1200
      at_start (omega arith) first_claim

-- One task is done; the other, which is failed, is not claimed.
one_round :
    (run_delegated_worker_once author "worker1" 10 1000 1001 1002 at_start).0
    ≡ record { claimed = 1; completed = 1; cancelled = 0; failed = 0 }
unfolding run_delegated_worker_once ready run_tasks claim_delegated_tasks is_claimable claim
    process_delegated_task process_in parent_run write_completion append_event
one_round = refl

run_delegated_worker_once-total_example :
    total (run_delegated_worker_once author "worker1" 10 1000 1001 1002 at_start).0
    ≡ (run_delegated_worker_once author "worker1" 10 1000 1001 1002 at_start).0.claimed
run_delegated_worker_once-total_example =
    run_delegated_worker_once-total author "worker1" 10 1000 1001 1002 at_start
