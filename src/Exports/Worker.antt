-- ===== src/Exports/Worker.antt =====
-- `claim_export_jobs`, `process_export_job` and `run_export_worker_once` of backend/app/services.py. The
-- tenant setting of the database connection is left out: the queries name the workspace themselves.
use Prim.Native.String.{◌++◌ as ◌+++◌}
use groundloom.Base.{
  ℕ, ◌+◌, String, Bool, false, Option, none, some, List, [], ◌∷◌, ◌==◌, ◌&&◌, not, find, length,
  if◌then◌else◌,
}
use groundloom.Json.{Fields, str, field, end}
use groundloom.Json.Numbers.{json_number}
use groundloom.Content.Operations.{Block}
use groundloom.Store.{
  Db, Project, ContentVersion, RuntimeContext, Result, ok, err, Raised, domain, code_text, error,
  forbidden, raise_if, ◌>>=◌, ◌>>◌, audit, outbox, Scope, commit_scope, rollback_scope, within,
}
use groundloom.Review.Reads.{get_project, content_blocks}
use groundloom.Jobs.{WorkerHeartbeat, beat, worker_beat, claim, set_row}
use groundloom.Exports.Rows.{
  Format, format_text, ExportStatus, storing, completed, failed, ExportJob, ExportTables,
  ObjectStore, ExportSession, job_table,
}

abbrev pub write_job : ExportJob → Scope ExportTables → Scope ExportTables
write_job j s = record s {
  work = record s.work { jobs = set_row (job_table j.workspace_id) j s.work.jobs };
}

unfoldable pub claim_export_jobs :
    String → String → ℕ → ℕ → ℕ → Scope ExportTables → List ExportJob × Scope ExportTables
claim_export_jobs workspace worker limit lease_seconds now s =
    let (rows, jobs) = claim (job_table workspace) worker limit lease_seconds now s.work.jobs in
    (rows, commit_scope (record s { work = record s.work { jobs = jobs } }))

abbrev pub is_exported_as : ExportStatus → Option String → Bool
is_exported_as completed (some key) = not (key == "")
is_exported_as _ _ = false

-- How `process_export_job` goes on: the file is there, or the version is rendered and stored.
pub data Processing : Type 0 where
  unchanged : Processing
  renders : Project → ContentVersion → List Block → Processing

unfoldable pub decide_process : RuntimeContext → ExportJob → Db → Result Processing
decide_process ctx j d = do
  raise_if (not (j.workspace_id == ctx.workspace_id)) (error forbidden 403)
  if is_exported_as j.status j.object_key then ok unchanged else do
    project ← get_project ctx j.project_id d
    (version, blocks) ← content_blocks ctx project.id (some j.content_version_id) d
    ok (renders project version blocks)

abbrev pub object_key_of : RuntimeContext → ExportJob → String
object_key_of ctx j =
    "workspaces/" +++ ctx.workspace_id +++ "/exports/" +++ j.id +++ "." +++ format_text j.format

abbrev pub released : ExportStatus → ExportJob → ExportJob
released status j = record j { status = status; lease_owner = none; lease_until = none }

abbrev pub exported : RuntimeContext → ExportJob → ExportJob
exported ctx j = record (released completed j) {
  object_key = some (object_key_of ctx j);
  error_code = none;
}

abbrev pub write_export :
    RuntimeContext → ContentVersion → ExportJob → Scope ExportTables → Scope ExportTables
write_export ctx version j s = commit_scope (
    within
      (λ u.
        outbox (some ctx.workspace_id) "ExportCompleted" "export_job" j.id
          (field "export_id" (str j.id) (
            field "content_version_id" (str version.id)
              (field "format" (str (format_text j.format)) end)))
          (audit ctx "export.completed" "export_job" (some j.id)
            "Rendered immutable content version" "success" u))
      (write_job (exported ctx j) s))

abbrev pub error_code_of : Raised → String
error_code_of (domain e) = code_text e.code
error_code_of _ = "EXPORT_FAILED"

abbrev pub fail_found :
    RuntimeContext → Raised → Option ExportJob → Scope ExportTables → Scope ExportTables
fail_found ctx e none s = s
fail_found ctx e (some j) s = commit_scope (
    within
      (λ u.
        outbox (some ctx.workspace_id) "ExportFailed" "export_job" j.id
          (field "export_id" (str j.id) (field "error_code" (str (error_code_of e)) end))
          (audit ctx "export.failed" "export_job" (some j.id) "Export worker failed" "success" u))
      (write_job (record (released failed j) { error_code = some (error_code_of e) }) s))

-- The `except` branch: a rollback, and the job as failed if it is still there.
abbrev pub fail_job : RuntimeContext → Raised → String → Scope ExportTables → Scope ExportTables
fail_job ctx e id s =
    let back = rollback_scope s in
    fail_found ctx e (find (λ j. j.id == id && j.workspace_id == ctx.workspace_id) back.work.jobs)
      back

-- What one round of the worker counts.
pub record Summary : Type 0 where
  pub claimed : ℕ
  pub completed : ℕ
  pub failed : ℕ

abbrev pub summary_details : Summary → Fields
summary_details n =
    field "claimed" (json_number n.claimed)
      (field "completed" (json_number n.completed) (field "failed" (json_number n.failed) end))

unfoldable pub beat_export : WorkerHeartbeat → Scope ExportTables → Scope ExportTables
beat_export h s =
    commit_scope (record s { work = record s.work { heartbeats = beat h s.work.heartbeats } })

module _ {S B : Type 0} (store : ObjectStore S B)
    (render : String → List Block → Format → Result B) where
  -- The job with its file stored, if the write returned.
  abbrev pub finish :
      RuntimeContext
      → ContentVersion
      → ExportJob
      → Result (Unit {0}) × S
      → Scope ExportTables
      → Result ExportJob × ExportSession S
  finish ctx version j (err e, objects) s = (err e, record { scope = s; objects = objects })
  finish ctx version j (ok _, objects) s =
      (ok (exported ctx j), record { scope = write_export ctx version j s; objects = objects })

  abbrev pub store_rendered :
      RuntimeContext
      → ContentVersion
      → ExportJob
      → Result B
      → ExportSession S
      → Result ExportJob × ExportSession S
  store_rendered ctx version j (err e) s = (err e, s)
  store_rendered ctx version j (ok data_bytes) s =
      finish ctx version j (store.put_bytes (object_key_of ctx j) data_bytes s.objects) s.scope

  abbrev pub perform_process :
      RuntimeContext
      → ExportJob
      → Result Processing
      → ExportSession S
      → Result ExportJob × ExportSession S
  perform_process ctx j (err e) s = (err e, s)
  perform_process ctx j (ok unchanged) s = (ok j, s)
  perform_process ctx j (ok (renders project version blocks)) s =
      store_rendered ctx version j (render project.name blocks j.format)
        (record s { scope = write_job (record j { status = storing }) s.scope })

  unfoldable pub process_export_job :
      RuntimeContext → ExportJob → ExportSession S → Result ExportJob × ExportSession S
  unfolding decide_process
  process_export_job ctx j s = perform_process ctx j (decide_process ctx j s.scope.session.work) s

  abbrev pub settle :
      RuntimeContext
      → ExportJob
      → Result ExportJob × ExportSession S
      → Summary
      → Summary × ExportSession S
  settle ctx j (ok done, s) n = (record n { completed = n.completed + 1 }, s)
  settle ctx j (err e, s) n =
      (record n { failed = n.failed + 1 }, record s { scope = fail_job ctx e j.id s.scope })

  -- The loop over the claimed jobs.
  unfoldable pub run_jobs :
      RuntimeContext → List ExportJob → Summary → ExportSession S → Summary × ExportSession S
  unfolding process_export_job
  run_jobs ctx [] n s = (n, s)
  run_jobs ctx (j ∷ js) n s =
      let (n', s') = settle ctx j (process_export_job ctx j s) n in run_jobs ctx js n' s'

  abbrev pub nothing_counted : ℕ → Summary
  nothing_counted claimed = record { claimed = claimed; completed = 0; failed = 0 }

  abbrev pub export_beat : RuntimeContext → String → Fields → ℕ → ExportSession S → ExportSession S
  export_beat ctx worker_id details now s = record s {
    scope = beat_export (worker_beat "export" ctx worker_id details now) s.scope;
  }

  unfoldable pub run_claimed :
      RuntimeContext
      → List ExportJob × Scope ExportTables
      → ExportSession S
      → Summary × ExportSession S
  unfolding run_jobs
  run_claimed ctx (jobs, scope) s =
      run_jobs ctx jobs (nothing_counted (length jobs)) (record s { scope = scope })

  -- `now`, `now'` and `now''` are the three readings of the clock.
  unfoldable pub run_export_worker_once :
      RuntimeContext → String → ℕ → ℕ → ℕ → ℕ → ExportSession S → Summary × ExportSession S
  unfolding run_claimed claim_export_jobs beat_export
  run_export_worker_once ctx worker_id limit now now' now'' s =
      let ready = export_beat ctx worker_id (field "limit" (json_number limit) end) now s in
      let (n, done) =
        run_claimed ctx (claim_export_jobs ctx.workspace_id worker_id limit 300 now' ready.scope)
          ready in
      (n, export_beat ctx worker_id (summary_details n) now'' done)
