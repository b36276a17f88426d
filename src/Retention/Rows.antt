-- ===== src/Retention/Rows.antt =====
-- The rows that the deletion of a project reads, writes and deletes (backend/app/models.py). Of a row that
-- is only deleted it is kept by what it is selected. Times are numbers of seconds.
use groundloom.Base.{
  ℕ, ◌+◌, ◌≤◌, String, Bool, true, false, Option, some, List, ◌==◌, ◌&&◌, ltb, ◌≡◌, refl, arith,
}
use groundloom.Json.{Fields}
use groundloom.Store.{Result, Scope}
use groundloom.Jobs.{JobTable, WorkerHeartbeat, is_before}
use groundloom.Runs.Tables.{AgentRun, DelegatedTask, PublicEvent}
use groundloom.Exports.{ExportJob}

pub record RetentionPolicy : Type 0 where
  pub workspace_id : String
  pub sources_days : ℕ
  pub projects_days : ℕ
  pub agent_data_days : ℕ
  pub exports_days : ℕ
  pub audit_days : ℕ
  pub legal_hold : Bool

pub data DeletionStatus : Type 0 where
  pending running blocked completed failed : DeletionStatus

pub record DeletionRequest : Type 0 where
  pub id : String
  pub workspace_id : String
  pub scope_type : String
  pub resource_id : String
  pub requested_by : String
  pub status : DeletionStatus
  pub attempts : ℕ
  pub lease_owner : Option String
  pub lease_until : Option ℕ
  pub step_status : Fields
  pub error_code : Option String
  pub idempotency_key : Option String
  pub completed_at : Option ℕ

-- A `Todo`, `OutlineVersion`, `AgentThread` or `ValidationRun`.
pub record Owned : Type 0 where
  pub id : String
  pub workspace_id : String
  pub project_id : String

pub record ValidationFinding : Type 0 where
  pub id : String
  pub validation_run_id : String

-- A `SourceChunk`, `SourceBlock` or `IngestionJob`.
pub record OfSource : Type 0 where
  pub id : String
  pub source_version_id : String

pub record SourceVersion : Type 0 where
  pub id : String
  pub workspace_id : String
  pub source_id : String
  pub version_no : ℕ
  pub object_key : String

pub record Source : Type 0 where
  pub id : String
  pub workspace_id : String
  pub current_version_id : Option String

pub record RetentionTables : Type 0 where
  pub policies : List RetentionPolicy
  pub requests : List DeletionRequest
  pub heartbeats : List WorkerHeartbeat
  pub runs : List AgentRun
  pub tasks : List DelegatedTask
  pub public_events : List PublicEvent
  pub exports : List ExportJob
  pub todos : List Owned
  pub outlines : List Owned
  pub threads : List Owned
  pub validations : List Owned
  pub findings : List ValidationFinding
  pub chunks : List OfSource
  pub source_blocks : List OfSource
  pub ingestion_jobs : List OfSource
  pub source_versions : List SourceVersion
  pub sources : List Source

-- The files: the object store, and the directories of checkpoints.
pub record Files (S : Type 0) : Type 0 where
  pub delete_bytes : String → S → Result (Unit {0}) × S
  pub remove_checkpoints : String → String → S → Result (Unit {0}) × S

-- The database with the tables, and the files, which no rollback brings back.
pub record RetentionSession (S : Type 0) : Type 0 where
  pub scope : Scope RetentionTables
  pub files : S

abbrev pub is_claimable_as : DeletionStatus → DeletionRequest → ℕ → Bool
is_claimable_as pending r now = true
is_claimable_as running r now = is_before r.lease_until now && ltb r.attempts 3
is_claimable_as _ r now = false

unfoldable pub is_claimable : String → ℕ → DeletionRequest → Bool
is_claimable workspace now r = r.workspace_id == workspace && is_claimable_as r.status r now

abbrev pub leased : String → ℕ → DeletionRequest → DeletionRequest
leased worker until r = record r {
  status = running;
  lease_owner = some worker;
  lease_until = some until;
  attempts = r.attempts + 1;
}

pub leased-holds :
    (workspace worker : String) (now until : ℕ) (r : DeletionRequest)
    → now ≤ until
    → is_claimable workspace now (leased worker until r) ≡ false
unfolding is_claimable
leased-holds workspace worker now until r h = ground (arith, h)

abbrev pub request_table : String → JobTable DeletionRequest
request_table workspace = record {
  row_id = λ r. r.id;
  is_free = is_claimable workspace;
  lease = leased;
  row_id-lease = λ worker until r. refl;
  lease_holds = leased-holds workspace;
}
