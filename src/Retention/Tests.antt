-- ===== src/Retention/Tests.antt =====
-- A blocked deletion whose hold is lifted, and a project that shares a source with another.
use groundloom.Base.{ℕ, String, true, none, some, List, [], ◌∷◌, refl}
use groundloom.Json.{end}
use groundloom.Content.Samples.{tally}
use groundloom.Store.{
  Db, Project, ProjectConfigVersion, RuntimeContext, ok, Scope, new_id, require, outbox, audit,
}
use groundloom.Store.Samples.{no_rows}
use groundloom.Retention.Rows.{
  blocked, DeletionRequest, SourceVersion, RetentionTables, Files, RetentionSession,
}
use groundloom.Retention.Records.{delete_project_records}
use groundloom.Retention.Requests.{
  default_policy, update_retention_policy, request_project_deletion,
}
use groundloom.Retention.Rounds.{run_deletion_worker_once}
use groundloom.Retention.Blocked.{StaysBlocked}
use groundloom.Retention.Holds.{updates, requests, works, here, next, Reach-StaysBlocked}
use groundloom.Retention.Shared.{LeavesOthers, delete_project_records-LeavesOthers}

abbrev admin : RuntimeContext
admin = record {
  user_id = "u1";
  workspace_id = "w1";
  roles = "workspace_admin" ∷ [];
  correlation_id = "c1";
}

abbrev project : String → Project
project id = record {
  id = id;
  workspace_id = "w1";
  name = "Plan";
  status = "active";
  updated_at = 1;
  current_config_version_id = none;
  current_content_version_id = none;
}

abbrev config : String → String → List String → ProjectConfigVersion
config id project_id sources = record {
  id = id;
  workspace_id = "w1";
  project_id = project_id;
  source_version_ids = sources;
}

-- p1 selects sv1 and sv2, p2 selects sv2.
abbrev db : Db
db = record no_rows {
  projects = project "p1" ∷ project "p2" ∷ [];
  configs = config "cfg1" "p1" ("sv1" ∷ "sv2" ∷ []) ∷ config "cfg2" "p2" ("sv2" ∷ []) ∷ [];
}

abbrev source_version : String → SourceVersion
source_version id = record {
  id = id;
  workspace_id = "w1";
  source_id = "src1";
  version_no = 1;
  object_key = id;
}

abbrev held_request : DeletionRequest
held_request = record {
  id = "del1";
  workspace_id = "w1";
  scope_type = "project";
  resource_id = "p1";
  requested_by = "u1";
  status = blocked;
  attempts = 1;
  lease_owner = none;
  lease_until = none;
  step_status = end;
  error_code = some "LEGAL_HOLD";
  idempotency_key = none;
  completed_at = none;
}

abbrev tables : RetentionTables
tables = record {
  policies = record (default_policy "w1") { legal_hold = true } ∷ [];
  requests = held_request ∷ [];
  heartbeats = [];
  runs = [];
  tasks = [];
  public_events = [];
  exports = [];
  todos = [];
  outlines = [];
  threads = record { id = "t1"; workspace_id = "w1"; project_id = "p1" } ∷ [];
  validations = [];
  findings = [];
  chunks = record { id = "ch1"; source_version_id = "sv2" } ∷ [];
  source_blocks = [];
  ingestion_jobs = [];
  source_versions = source_version "sv1" ∷ source_version "sv2" ∷ [];
  sources = record { id = "src1"; workspace_id = "w1"; current_version_id = some "sv1" } ∷ [];
}

abbrev scope : Scope RetentionTables
scope = record {
  session = record { committed = db; work = db; uuid4 = tally; drawn = 0 };
  committed = tables;
  work = tables;
}

abbrev no_files : Files (Unit {0})
no_files = record {
  delete_bytes = λ key files. (ok tt, tt);
  remove_checkpoints = λ workspace project_id files. (ok tt, tt);
}

abbrev at_start : RetentionSession (Unit {0})
at_start = record { scope = scope; files = tt }

abbrev at_ten : String → ℕ
at_ten id = 10

-- The hold is lifted.
abbrev lifted : RetentionSession (Unit {0})
lifted = record at_start {
  scope = (update_retention_policy admin (default_policy "w1") at_start.scope).1;
}

abbrev asked_again : RetentionSession (Unit {0})
asked_again = record lifted { scope = (request_project_deletion admin "p1" none lifted.scope).1 }

abbrev worked : RetentionSession (Unit {0})
worked = (run_deletion_worker_once no_files at_ten admin "x1" 10 20 21 22 asked_again).1

Reach-StaysBlocked_example : StaysBlocked "del1" worked.scope
unfolding update_retention_policy require new_id outbox audit
Reach-StaysBlocked_example =
    Reach-StaysBlocked no_files at_ten "del1" at_start worked
      (next
        (next (next here (updates admin (default_policy "w1") at_start))
          (requests admin "p1" none lifted refl))
        (works admin "x1" 10 20 21 22 asked_again))
      ((λ h. refl, tt), (λ h. refl, tt))

delete_project_records-LeavesOthers_example :
    LeavesOthers "p1" "w1" scope (delete_project_records admin (project "p1") scope)
delete_project_records-LeavesOthers_example =
    delete_project_records-LeavesOthers admin (project "p1") scope
