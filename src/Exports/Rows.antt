-- ===== src/Exports/Rows.antt =====
-- `ExportJob` of backend/app/models.py and `ExportCreate` of backend/app/schemas.py, the tables of the
-- export service, and the object store as an interface. Times are numbers of seconds.
use groundloom.Base.{
  ℕ, ◌≤◌, ◌+◌, String, Bool, true, false, Option, some, List, ◌==◌, ◌&&◌, ◌≡◌, refl, arith,
}
use groundloom.Store.{Result, ok, is_ok, Scope}
use groundloom.Jobs.{JobTable, WorkerHeartbeat, is_before}

pub data Format : Type 0 where
  md html pdf docx : Format

abbrev pub format_text : Format → String
format_text md = "md"
format_text html = "html"
format_text pdf = "pdf"
format_text docx = "docx"

pub data ExportStatus : Type 0 where
  queued rendering storing completed failed : ExportStatus

pub record ExportJob : Type 0 where
  pub id : String
  pub workspace_id : String
  pub project_id : String
  pub content_version_id : String
  pub format : Format
  pub status : ExportStatus
  pub idempotency_key : String
  pub object_key : Option String
  pub error_code : Option String
  pub expires_at : Option ℕ
  pub attempts : ℕ
  pub lease_owner : Option String
  pub lease_until : Option ℕ

pub record ExportCreate : Type 0 where
  pub project_id : String
  pub content_version_id : String
  pub format : Format
  pub idempotency_key : Option String

pub record ExportTables : Type 0 where
  pub jobs : List ExportJob
  pub heartbeats : List WorkerHeartbeat

-- What the export service asks of an object store: a write that returns has left its bytes under its
-- key, and no write, also one that fails, makes an object unreadable.
pub record ObjectStore (S B : Type 0) : Type 0 where
  pub put_bytes : String → B → S → Result (Unit {0}) × S
  pub get_bytes : String → S → Result B
  pub get_bytes-put_bytes :
      (key : String) (bytes : B) (s : S)
      → (put_bytes key bytes s).0 ≡ ok tt
      → get_bytes key (put_bytes key bytes s).1 ≡ ok bytes
  pub get_bytes-kept :
      (key other : String) (bytes : B) (s : S)
      → is_ok (get_bytes other s) ≡ true
      → is_ok (get_bytes other (put_bytes key bytes s).1) ≡ true

-- The database with the export tables, and the objects, which no rollback brings back.
pub record ExportSession (S : Type 0) : Type 0 where
  pub scope : Scope ExportTables
  pub objects : S

abbrev pub is_claimable_as : ExportStatus → ExportJob → ℕ → Bool
is_claimable_as queued j now = true
is_claimable_as rendering j now = is_before j.lease_until now
is_claimable_as _ j now = false

unfoldable pub is_claimable : String → ℕ → ExportJob → Bool
is_claimable workspace now j = j.workspace_id == workspace && is_claimable_as j.status j now

abbrev pub leased : String → ℕ → ExportJob → ExportJob
leased worker until j = record j {
  status = rendering;
  lease_owner = some worker;
  lease_until = some until;
  attempts = j.attempts + 1;
}

pub leased-holds :
    (workspace worker : String) (now until : ℕ) (j : ExportJob)
    → now ≤ until
    → is_claimable workspace now (leased worker until j) ≡ false
unfolding is_claimable
leased-holds workspace worker now until j h = ground (arith, h)

abbrev pub job_table : String → JobTable ExportJob
job_table workspace = record {
  row_id = λ j. j.id;
  is_free = is_claimable workspace;
  lease = leased;
  row_id-lease = λ worker until j. refl;
  lease_holds = leased-holds workspace;
}
