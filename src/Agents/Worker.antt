-- ===== src/Agents/Worker.antt =====
-- `claim_agent_runs` and `run_agent_worker_once` of backend/app/services.py, and `Membership` of
-- backend/app/models.py. The worker setting of the database connection is left out.
use Prim.Native.String.{◌++◌ as ◌+++◌}
use groundloom.Base.{
  ℕ, ◌+◌, ◌≤◌, max, String, Bool, false, Option, none, some, List, [], ◌∷◌, ◌==◌, ◌&&◌, ◌||◌, find,
  length, ltb, ◌≡◌, refl, arith, if◌then◌else◌,
}
use groundloom.Json.{Fields, field, end}
use groundloom.Json.Numbers.{json_number}
use groundloom.Store.{RuntimeContext, Result, ok, err, Scope, commit_scope, rollback_scope}
use groundloom.Jobs.{JobTable, WorkerHeartbeat, is_before, beat, claim, set_row}
use groundloom.Runs.Tables.{AgentRun}

pub record Membership : Type 0 where
  pub workspace_id : String
  pub user_id : String
  pub role : String
  pub active : Bool

pub record AgentTables : Type 0 where
  pub runs : List AgentRun
  pub memberships : List Membership
  pub heartbeats : List WorkerHeartbeat

pub record AgentSettings : Type 0 where
  pub agent_max_attempts : ℕ
  pub local_user_id : String

unfoldable pub is_claimable : ℕ → ℕ → AgentRun → Bool
is_claimable max_attempts now r =
    (r.status == "queued" || (r.status == "running" && is_before r.lease_until now))
    && ltb r.attempts max_attempts

abbrev pub leased : String → ℕ → AgentRun → AgentRun
leased worker until r = record r {
  status = "running";
  attempts = r.attempts + 1;
  lease_owner = some worker;
  lease_until = some until;
}

pub leased-holds :
    (max_attempts : ℕ) (worker : String) (now until : ℕ) (r : AgentRun)
    → now ≤ until
    → is_claimable max_attempts now (leased worker until r) ≡ false
unfolding is_claimable
leased-holds max_attempts worker now until r h = ground (arith, h)

abbrev pub run_table : ℕ → JobTable AgentRun
run_table max_attempts = record {
  row_id = λ r. r.id;
  is_free = is_claimable max_attempts;
  lease = leased;
  row_id-lease = λ worker until r. refl;
  lease_holds = leased-holds max_attempts;
}

abbrev pub with_runs : List AgentRun → Scope AgentTables → Scope AgentTables
with_runs runs s = record s { work = record s.work { runs = runs } }

unfoldable pub claim_agent_runs :
    String → ℕ → ℕ → ℕ → ℕ → Scope AgentTables → List AgentRun × Scope AgentTables
claim_agent_runs worker limit lease_seconds max_attempts now s =
    let (rows, runs) = claim (run_table max_attempts) worker limit lease_seconds now s.work.runs in
    (rows, commit_scope (with_runs runs s))

-- `run.status = ...` and its error, with the lease given up.
abbrev pub released : String → String → AgentRun → AgentRun
released status error_code r = record r {
  status = status;
  error_code = some error_code;
  lease_owner = none;
  lease_until = none;
}

abbrev pub write_run : AgentRun → Scope AgentTables → Scope AgentTables
write_run r s = commit_scope (with_runs (set_row (run_table 0) r s.work.runs) s)

-- What one round of the worker counts.
pub record Summary : Type 0 where
  pub claimed : ℕ
  pub completed : ℕ
  pub requeued : ℕ
  pub failed : ℕ

abbrev pub one_completed : Summary → Summary
one_completed n = record n { completed = n.completed + 1 }

abbrev pub one_requeued : Summary → Summary
one_requeued n = record n { requeued = n.requeued + 1 }

abbrev pub one_failed : Summary → Summary
one_failed n = record n { failed = n.failed + 1 }

abbrev pub summary_details : Summary → Fields
summary_details n = field "claimed" (json_number n.claimed) (
    field "completed" (json_number n.completed)
      (field "requeued" (json_number n.requeued) (field "failed" (json_number n.failed) end)))

abbrev pub get_run : String → Scope AgentTables → Option AgentRun
get_run id s = find (λ r. r.id == id) s.work.runs

-- After a turn that returned, by the run as it is now.
abbrev pub count_run : Option AgentRun → Summary → Summary
count_run none n = one_requeued n
count_run (some r) n =
    if r.status == "completed"
      || (r.status == "waiting_for_approval" || r.status == "waiting_for_user")
    then one_completed n
    else if r.status == "failed"
    then one_failed n
    else one_requeued n

abbrev pub is_final : String → Bool
is_final status = status == "failed" || (status == "completed" || status == "cancelled")

-- After a turn that raised, by the run as it was committed.
abbrev pub recover : ℕ → Option AgentRun → Summary → Scope AgentTables → Summary × Scope AgentTables
recover max_attempts none n s = (one_failed n, s)
recover max_attempts (some r) n s =
    if is_final r.status
    then (one_failed n, s)
    else if ltb r.attempts max_attempts
    then (one_requeued n, write_run (released "queued" "AGENT_WORKER_FAILED" r) s)
    else (one_failed n, write_run (released "failed" "AGENT_WORKER_FAILED" r) s)

abbrev pub settle :
    ℕ → String → Result (Unit {0}) × Scope AgentTables → Summary → Summary × Scope AgentTables
settle max_attempts id (ok done, s) n = (count_run (get_run id s) n, s)
settle max_attempts id (err e, s) n =
    let back = rollback_scope s in recover max_attempts (get_run id back) n back

abbrev pub or_text : Option String → String → String
or_text none default = default
or_text (some s) default = s

-- The identity in which a turn runs.
abbrev pub context_of : AgentRun → String → String → Membership → RuntimeContext
context_of r actor worker_id m = record {
  user_id = actor;
  workspace_id = r.workspace_id;
  roles = m.role ∷ [];
  correlation_id = or_text r.correlation_id ("worker:" +++ worker_id);
}

abbrev pub find_membership : String → String → List Membership → Option Membership
find_membership workspace actor rows =
    find (λ m. m.workspace_id == workspace && (m.user_id == actor && m.active)) rows

abbrev pub agent_beat : String → Fields → ℕ → Scope AgentTables → Scope AgentTables
agent_beat worker_id details now s = commit_scope (record s {
  work = record s.work {
    heartbeats =
        beat
          (record {
            worker_id = worker_id;
            worker_type = "agent";
            workspace_id = none;
            status = "healthy";
            details = details;
            last_seen = now;
          })
          s.work.heartbeats;
  };
})

module _
    (turn : RuntimeContext → AgentRun → Scope AgentTables → Result (Unit {0}) × Scope AgentTables)
    (settings : AgentSettings) where
  -- One claimed run, by the membership of its actor.
  unfoldable pub run_as :
      Option Membership
      → String
      → String
      → AgentRun
      → Summary
      → Scope AgentTables
      → Summary × Scope AgentTables
  run_as none actor worker_id r n s =
      (one_failed n, write_run (released "failed" "WORKER_IDENTITY_UNAVAILABLE" r) s)
  run_as (some m) actor worker_id r n s =
      settle settings.agent_max_attempts r.id (turn (context_of r actor worker_id m) r s) n

  unfoldable pub run_one :
      String → AgentRun → Summary → Scope AgentTables → Summary × Scope AgentTables
  unfolding run_as
  run_one worker_id r n s =
      let actor = or_text r.actor_id settings.local_user_id in
      run_as (find_membership r.workspace_id actor s.work.memberships) actor worker_id r n s

  unfoldable pub run_all :
      String → List AgentRun → Summary → Scope AgentTables → Summary × Scope AgentTables
  unfolding run_one
  run_all worker_id [] n s = (n, s)
  run_all worker_id (r ∷ rs) n s =
      let (n', s') = run_one worker_id r n s in run_all worker_id rs n' s'

  abbrev pub nothing_counted : ℕ → Summary
  nothing_counted claimed = record { claimed = claimed; completed = 0; requeued = 0; failed = 0 }

  -- `now`, `now'` and `now''` are the three readings of the clock.
  unfoldable pub run_agent_worker_once :
      String → ℕ → ℕ → ℕ → ℕ → Scope AgentTables → Summary × Scope AgentTables
  unfolding claim_agent_runs run_all
  run_agent_worker_once worker_id limit now now' now'' s =
      let ready = agent_beat worker_id (field "limit" (json_number limit) end) now s in
      let (rs, leased_runs) =
        claim_agent_runs worker_id limit 300 (max 1 settings.agent_max_attempts) now' ready in
      let (n, done) = run_all worker_id rs (nothing_counted (length rs)) leased_runs in
      (n, agent_beat worker_id (summary_details n) now'' done)
