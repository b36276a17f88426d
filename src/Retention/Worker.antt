-- ===== src/Retention/Worker.antt =====
-- `claim_deletion_requests`, `process_deletion_request` and `run_deletion_worker_once` of
-- backend/app/services.py. The tenant setting of the database connection is left out.
use groundloom.Base.{
  ℕ, String, Option, none, some, List, [], ◌∷◌, ◌++◌, ◌==◌, ◌&&◌, not, find, keep, map,
  if◌then◌else◌,
}
use groundloom.Content.BlockTypes.{mem}
use groundloom.Json.{Fields, str, field, end, with_key}
use groundloom.Store.{
  Project, RuntimeContext, Result, ok, err, Raised, domain, code_text, error, forbidden,
  no_result_found, audit, outbox, Scope, commit_scope, rollback_scope, within,
}
use groundloom.Jobs.{claim, set_row}
use groundloom.Exports.{ExportJob}
use groundloom.Retention.Rows.{
  RetentionPolicy, DeletionStatus, blocked, completed, failed, DeletionRequest, RetentionTables,
  Files, RetentionSession, request_table,
}
use groundloom.Retention.Records.{is_of, removable_ids, delete_project_records}
use groundloom.Retention.Requests.{ensure_retention_policy}

unfoldable pub claim_deletion_requests :
    String
    → String
    → ℕ
    → ℕ
    → ℕ
    → Scope RetentionTables
    → List DeletionRequest × Scope RetentionTables
claim_deletion_requests workspace worker limit lease_seconds now s =
    let (rows, requests) =
      claim (request_table workspace) worker limit lease_seconds now s.work.requests in
    (rows, commit_scope (record s { work = record s.work { requests = requests } }))

abbrev pub write_request : DeletionRequest → Scope RetentionTables → Scope RetentionTables
write_request r s = record s {
  work = record s.work { requests = set_row (request_table r.workspace_id) r s.work.requests };
}

abbrev pub released : DeletionStatus → DeletionRequest → DeletionRequest
released status r = record r { status = status; lease_owner = none; lease_until = none }

abbrev pub held : DeletionRequest → DeletionRequest
held r = record (released blocked r) {
  error_code = some "LEGAL_HOLD";
  step_status = with_key "legal_hold" (str "blocked") r.step_status;
}

abbrev pub all_completed : Fields → Fields
all_completed steps =
    with_key "checkpoints" (str "completed")
      (with_key "objects" (str "completed") (with_key "canonical" (str "completed") steps))

abbrev pub done_at : ℕ → DeletionRequest → DeletionRequest
done_at now r = record (released completed r) {
  completed_at = some now;
  step_status = all_completed r.step_status;
}

abbrev pub erased : ℕ → DeletionRequest → DeletionRequest
erased now r = record (released completed r) {
  completed_at = some now;
  step_status = with_key "canonical" (str "completed") (
      with_key "checkpoints" (str "completed")
        (with_key "objects" (str "completed") r.step_status));
  error_code = none;
}

abbrev pub file_of : Option String → List String
file_of none = []
file_of (some key) = if key == "" then [] else key ∷ []

abbrev pub files_of : List ExportJob → List String
files_of [] = []
files_of (j ∷ js) = file_of j.object_key ++ files_of js

-- The objects of the source versions that are removed and of the project's exports.
unfoldable pub object_keys : RuntimeContext → Project → Scope RetentionTables → List String
unfolding removable_ids
object_keys ctx project s =
    let removed = removable_ids project.id ctx.workspace_id s.session.work.configs in
    map (λ v. v.object_key)
      (keep (λ v. v.workspace_id == ctx.workspace_id && mem v.id removed) s.work.source_versions)
    ++ files_of
        (keep (λ j. is_of project.id ctx.workspace_id j.project_id j.workspace_id) s.work.exports)

abbrev pub error_code_of : Raised → String
error_code_of (domain e) = code_text e.code
error_code_of _ = "DELETE_FAILED"

abbrev pub find_request : RuntimeContext → String → Scope RetentionTables → Option DeletionRequest
find_request ctx id s = find (λ r. r.id == id && r.workspace_id == ctx.workspace_id) s.work.requests

abbrev pub write_blocked :
    RuntimeContext → DeletionRequest → Scope RetentionTables → Scope RetentionTables
write_blocked ctx r s = commit_scope (
    within
      (audit ctx "retention.deletion.blocked" "deletion_request" (some r.id)
        "Deletion blocked by legal hold" "blocked")
      (write_request (held r) s))

unfoldable pub write_erased :
    RuntimeContext → Project → ℕ → DeletionRequest → Scope RetentionTables → Scope RetentionTables
unfolding delete_project_records
write_erased ctx project now r s = commit_scope (
    within
      (λ u.
        outbox (some ctx.workspace_id) "RetentionDeletionCompleted" "deletion_request" r.id
          (field "request_id" (str r.id) (field "scope_type" (str r.scope_type) end))
          (audit ctx "retention.deletion.completed" "deletion_request" (some r.id)
            "Project deletion completed" "success" u))
      (write_request (erased now r) (delete_project_records ctx project s)))

-- The `except` branch: a rollback, and the request as failed; `.one()` raises if it is not there.
abbrev pub fail_found :
    RuntimeContext
    → Raised
    → Option DeletionRequest
    → Scope RetentionTables
    → Result DeletionRequest × Scope RetentionTables
fail_found ctx e none s = (err no_result_found, s)
fail_found ctx e (some r) s =
    let f = record (released failed r) { error_code = some (error_code_of e) } in
    (
      ok f,
      commit_scope (
          within
            (audit ctx "retention.deletion.failed" "deletion_request" (some r.id)
              "Deletion workflow failed" "failure")
            (write_request f s)),
    )

abbrev pub fail_request :
    RuntimeContext
    → Raised
    → String
    → Scope RetentionTables
    → Result DeletionRequest × Scope RetentionTables
fail_request ctx e id s =
    let back = rollback_scope s in fail_found ctx e (find_request ctx id back) back

module _ {S : Type 0} (store : Files S) where
  -- `for key in object_keys: store.delete_bytes(key)`
  unfoldable pub delete_all : List String → S → Result (Unit {0}) × S
  delete_all [] files = (ok tt, files)
  delete_all (key ∷ keys) files =
      let (r, files') = store.delete_bytes key files in
      let rest = delete_all keys files' in elim r [ err e ↦ (err e, files') | ok _ ↦ rest ]

  abbrev pub then_checkpoints :
      RuntimeContext → Project → Result (Unit {0}) × S → Result (Unit {0}) × S
  then_checkpoints ctx project (err e, files) = (err e, files)
  then_checkpoints ctx project (ok _, files) =
      store.remove_checkpoints ctx.workspace_id project.id files

  abbrev pub with_files :
      Result DeletionRequest × Scope RetentionTables
      → S
      → Result DeletionRequest × RetentionSession S
  with_files (r, scope) files = (r, record { scope = scope; files = files })

  unfoldable pub finish :
      RuntimeContext
      → Project
      → ℕ
      → DeletionRequest
      → Result (Unit {0}) × S
      → Scope RetentionTables
      → Result DeletionRequest × RetentionSession S
  unfolding write_erased
  finish ctx project now r (err e, files) s = with_files (fail_request ctx e r.id s) files
  finish ctx project now r (ok _, files) s =
      with_files (ok (erased now r), write_erased ctx project now r s) files

  -- The request, by the project it names.
  unfoldable pub process_project :
      RuntimeContext
      → ℕ
      → DeletionRequest
      → Option Project
      → Scope RetentionTables
      → S
      → Result DeletionRequest × RetentionSession S
  unfolding delete_all object_keys finish
  process_project ctx now r none s files =
      with_files (ok (done_at now r), commit_scope (write_request (done_at now r) s)) files
  process_project ctx now r (some project) s files =
      finish ctx project now r
        (then_checkpoints ctx project (delete_all (object_keys ctx project s) files)) s

  unfoldable pub process_under :
      RuntimeContext
      → ℕ
      → DeletionRequest
      → RetentionPolicy × Scope RetentionTables
      → S
      → Result DeletionRequest × RetentionSession S
  unfolding process_project
  process_under ctx now r (policy, s) files =
      if policy.legal_hold
      then with_files (ok (held r), write_blocked ctx r s) files
      else process_project ctx now r
          (find (λ p. p.id == r.resource_id && p.workspace_id == ctx.workspace_id)
            s.session.work.projects)
          s files

  -- `now` is the time at which the deletion is completed.
  unfoldable pub process_deletion_request :
      RuntimeContext
      → ℕ
      → DeletionRequest
      → RetentionSession S
      → Result DeletionRequest × RetentionSession S
  unfolding process_under
  process_deletion_request ctx now r s =
      if not (r.workspace_id == ctx.workspace_id)
      then (err (error forbidden 403), s)
      else process_under ctx now r (ensure_retention_policy ctx.workspace_id s.scope) s.files
