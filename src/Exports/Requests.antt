-- ===== src/Exports/Requests.antt =====
-- `export_content` of backend/app/services.py.
use Prim.Native.String.{◌++◌ as ◌+++◌}
use groundloom.Base.{
  ℕ, ◌+◌, String, Bool, true, false, Option, none, some, List, [], ◌∷◌, ◌++◌, ◌==◌, ◌&&◌, ◌||◌,
  find, if◌then◌else◌,
}
use groundloom.Json.{str, field, end}
use groundloom.Content.Operations.{Block}
use groundloom.Store.{
  Db, RuntimeContext, Result, ok, err, no_result_found, require, or_raise, ◌>>=◌, ◌>>◌, new_id,
  audit, outbox, Scope, commit_scope, within, draw_id,
}
use groundloom.Review.Reads.{get_project, content_blocks}
use groundloom.Exports.Rows.{
  Format, format_text, queued, ExportJob, ExportCreate, ExportTables, ObjectStore, ExportSession,
}
use groundloom.Exports.Worker.{run_export_worker_once}

-- What `export_content` reads of the settings.
pub record ExportSettings : Type 0 where
  pub export_inline_local : Option Bool
  pub env : String

abbrev pub is_not_false : Option Bool → Bool
is_not_false (some false) = false
is_not_false _ = true

abbrev pub is_inline : ExportSettings → Bool
is_inline settings =
    is_not_false settings.export_inline_local
    && (settings.env == "development" || settings.env == "test")

abbrev pub export_roles : List String
export_roles = "author" ∷ "reviewer" ∷ "workspace_admin" ∷ "organization_admin" ∷ []

-- `body.idempotency_key or f"export:{project.id}:{version.id}:{body.format}"`
abbrev pub key_or : Option String → String → String
key_or none key = key
key_or (some given) key = if given == "" then key else given

-- How a call goes on: with the job that has the key, or with a new one.
pub data Export : Type 0 where
  existing : ExportJob → Export
  requested : (project_id version_id key : String) → Export

abbrev pub export_for : Option ExportJob → String → String → String → Export
export_for none project_id version_id key = requested project_id version_id key
export_for (some j) project_id version_id key = existing j

unfoldable pub decide_export : RuntimeContext → ExportCreate → Db → List ExportJob → Result Export
decide_export ctx body d jobs = do
  require ctx export_roles
  project ← get_project ctx body.project_id d
  (version, blocks) ← content_blocks ctx project.id (some body.content_version_id) d
  let key =
      key_or body.idempotency_key
        ("export:" +++ project.id +++ ":" +++ version.id +++ ":" +++ format_text body.format)
  ok (
      export_for (find (λ j. j.workspace_id == ctx.workspace_id && j.idempotency_key == key) jobs)
        project.id version.id key)

abbrev pub new_job :
    RuntimeContext → ExportCreate → String → String → String → ℕ → Scope ExportTables → ExportJob
new_job ctx body project_id version_id key now s = record {
  id = new_id "exp" (s.session.uuid4 s.session.drawn);
  workspace_id = ctx.workspace_id;
  project_id = project_id;
  content_version_id = version_id;
  format = body.format;
  status = queued;
  idempotency_key = key;
  object_key = none;
  error_code = none;
  expires_at = some (now + 604800);
  attempts = 0;
  lease_owner = none;
  lease_until = none;
}

abbrev pub write_request : RuntimeContext → ExportJob → Scope ExportTables → Scope ExportTables
write_request ctx j s = commit_scope (
    within
      (λ u.
        outbox (some ctx.workspace_id) "ExportRequested" "export_job" j.id
          (field "export_id" (str j.id) (
            field "content_version_id" (str j.content_version_id)
              (field "format" (str (format_text j.format)) end)))
          (audit ctx "export.requested" "export_job" (some j.id) "Queued immutable content export"
            "success" (draw_id u)))
      (record s { work = record s.work { jobs = s.work.jobs ++ j ∷ [] } }))

-- The four readings of the clock: when the job is queued, and those of an inline worker.
pub record Clock : Type 0 where
  pub asked : ℕ
  pub started : ℕ
  pub claimed : ℕ
  pub ended : ℕ

module _ {S B : Type 0} (store : ObjectStore S B)
    (render : String → List Block → Format → Result B) where
  abbrev pub read_again :
      RuntimeContext → String → ExportSession S → Result ExportJob × ExportSession S
  read_again ctx id s = (
    or_raise (find (λ j. j.id == id && j.workspace_id == ctx.workspace_id) s.scope.work.jobs)
        no_result_found,
    s,
  )

  unfoldable pub run_inline :
      RuntimeContext
      → ExportSettings
      → Clock
      → ExportJob
      → ExportSession S
      → Result ExportJob × ExportSession S
  unfolding run_export_worker_once
  run_inline ctx settings clock j s =
      if is_inline settings
      then read_again ctx j.id
          (run_export_worker_once store render ctx "inline-local" 1 clock.started clock.claimed
            clock.ended s).1
      else (ok j, s)

  unfoldable pub perform_export :
      RuntimeContext
      → ExportSettings
      → ExportCreate
      → Clock
      → Result Export
      → ExportSession S
      → Result ExportJob × ExportSession S
  unfolding run_inline
  perform_export ctx settings body clock (err e) s = (err e, s)
  perform_export ctx settings body clock (ok (existing j)) s = (ok j, s)
  perform_export ctx settings body clock (ok (requested project_id version_id key)) s =
      let j = new_job ctx body project_id version_id key clock.asked s.scope in
      run_inline ctx settings clock j (record s { scope = write_request ctx j s.scope })

  unfoldable pub export_content :
      RuntimeContext
      → ExportSettings
      → ExportCreate
      → Clock
      → ExportSession S
      → Result ExportJob × ExportSession S
  unfolding perform_export decide_export
  export_content ctx settings body clock s =
      perform_export ctx settings body clock
        (decide_export ctx body s.scope.session.work s.scope.work.jobs) s
