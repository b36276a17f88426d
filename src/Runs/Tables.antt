-- ===== src/Runs/Tables.antt =====
-- `AgentRun`, `DelegatedTask`, and `PublicEvent` of backend/app/models.py, and a session that holds
-- them beside the rows of the review service. Of a run and a task it is kept what the handlers of
-- delegated tasks and the agent worker use, of its pinned configuration the actor and the correlation; times are numbers of seconds.
use groundloom.Base.{ℕ, String, Bool, Option, List, [], ◌++◌}
use groundloom.Json.{Fields}
use groundloom.Jobs.{WorkerHeartbeat}
use groundloom.Store.{Session, commit, rollback}

pub record AgentRun : Type 0 where
  pub id : String
  pub workspace_id : String
  pub project_id : String
  pub thread_id : String
  pub status : String
  pub cancel_requested : Bool
  pub actor_id : Option String
  pub correlation_id : Option String
  pub attempts : ℕ
  pub error_code : Option String
  pub lease_owner : Option String
  pub lease_until : Option ℕ

pub data TaskStatus : Type 0 where
  queued running completed cancelled failed : TaskStatus

-- `result_refs`: its number of attempts, if there is one, and the other keys.
pub record ResultRefs : Type 0 where
  pub attempts : Option ℕ
  pub others : Fields

pub record DelegatedTask : Type 0 where
  pub id : String
  pub workspace_id : String
  pub project_id : String
  pub parent_run_id : String
  pub task_type : String
  pub status : TaskStatus
  pub result_refs : ResultRefs
  pub error_code : Option String
  pub lease_owner : Option String
  pub lease_until : Option ℕ

pub record PublicEvent : Type 0 where
  pub id : String
  pub workspace_id : String
  pub project_id : String
  pub run_id : String
  pub thread_id : String
  pub seq : ℕ
  pub schema_version : ℕ
  pub event_type : String
  pub payload : Fields

pub record Tables : Type 0 where
  pub runs : List AgentRun
  pub tasks : List DelegatedTask
  pub public_events : List PublicEvent
  pub heartbeats : List WorkerHeartbeat

-- `pending` are the events that are added and not flushed: queries do not see them, since the
-- session factory sets `autoflush=False`.
pub record RunSession : Type 0 where
  pub session : Session
  pub committed : Tables
  pub work : Tables
  pub pending : List PublicEvent

abbrev pub flushed : RunSession → Tables
flushed s = record s.work { public_events = s.work.public_events ++ s.pending }

abbrev pub flush_run : RunSession → RunSession
flush_run s = record s { work = flushed s; pending = [] }

abbrev pub commit_run : RunSession → RunSession
commit_run s = record {
  session = commit s.session;
  committed = flushed s;
  work = flushed s;
  pending = [];
}

abbrev pub rollback_run : RunSession → RunSession
rollback_run s = record {
  session = rollback s.session;
  committed = s.committed;
  work = s.committed;
  pending = [];
}

abbrev pub in_session : (Session → Session) → RunSession → RunSession
in_session f s = record s { session = f s.session }
