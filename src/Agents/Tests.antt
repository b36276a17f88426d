-- ===== src/Agents/Tests.antt =====
-- A run that is attempted a second and last time, by a turn that raises.
use groundloom.Base.{◌≡◌, true, false, none, some, [], ◌∷◌}
use groundloom.Content.Samples.{tally}
use groundloom.Store.{RuntimeContext, Result, err, type_error, Scope}
use groundloom.Store.Samples.{no_rows}
use groundloom.Runs.Tables.{AgentRun}
use groundloom.Agents.Worker.{AgentTables, AgentSettings, run_agent_worker_once}
use groundloom.Agents.Rounds.{total, run_agent_worker_once-total}

abbrev agent_run : AgentRun
agent_run = record {
  id = "run1";
  workspace_id = "w1";
  project_id = "p1";
  thread_id = "t1";
  status = "queued";
  cancel_requested = false;
  actor_id = some "u1";
  correlation_id = none;
  attempts = 1;
  error_code = none;
  lease_owner = none;
  lease_until = none;
}

abbrev tables : AgentTables
tables = record {
  runs = agent_run ∷ [];
  memberships = record { workspace_id = "w1"; user_id = "u1"; role = "author"; active = true } ∷ [];
  heartbeats = [];
}

abbrev at_start : Scope AgentTables
at_start = record {
  session = record { committed = no_rows; work = no_rows; uuid4 = tally; drawn = 0 };
  committed = tables;
  work = tables;
}

abbrev settings : AgentSettings
settings = record { agent_max_attempts = 2; local_user_id = "u1" }

abbrev raising :
    RuntimeContext → AgentRun → Scope AgentTables → Result (Unit {0}) × Scope AgentTables
raising ctx r s = (err type_error, s)

run_agent_worker_once-total_example :
    let n = (run_agent_worker_once raising settings "x1" 10 20 21 22 at_start).0 in
    total n ≡ n.claimed
run_agent_worker_once-total_example =
    run_agent_worker_once-total raising settings "x1" 10 20 21 22 at_start
