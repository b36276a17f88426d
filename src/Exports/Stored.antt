-- ===== src/Exports/Stored.antt =====
-- The files of completed export jobs.
use groundloom.Base.{
  ℕ, String, Bool, true, false, Option, none, some, List, [], ◌∷◌, ◌==◌, ◌&&◌, ◌≡◌, refl, inl, inr,
  find, length, All, All-append, All-weaken, Bool-cases, ap, subst,
}
use groundloom.Json.{Fields, field, end}
use groundloom.Json.Numbers.{json_number}
use groundloom.Content.Operations.{Block}
use groundloom.Store.{
  Session, RuntimeContext, Result, ok, err, is_ok, Raised, ContentVersion, Scope, rollback_scope,
}
use groundloom.Jobs.{All-set_row, All-claim}
use groundloom.Exports.Rows.{
  Format, ExportStatus, queued, rendering, storing, completed, failed, ExportJob, ExportCreate,
  ExportTables, ObjectStore, ExportSession, job_table,
}
use groundloom.Exports.Worker.{
  write_job, claim_export_jobs, Processing, unchanged, renders, decide_process, object_key_of,
  exported, finish, store_rendered, perform_process, process_export_job, released, fail_found,
  Summary, settle, run_jobs, nothing_counted, run_claimed, beat_export, export_beat,
  run_export_worker_once, error_code_of, summary_details,
}
use groundloom.Exports.Requests.{
  ExportSettings, Clock, is_inline, Export, existing, requested, decide_export, new_job,
  write_request, run_inline, perform_export, export_content,
}

module _ {S B : Type 0} (store : ObjectStore S B)
    (render : String → List Block → Format → Result B) where
  abbrev pub is_stored_as : ExportStatus → Option String → S → Bool
  is_stored_as completed (some key) objects = is_ok (store.get_bytes key objects)
  is_stored_as completed none objects = false
  is_stored_as _ key objects = true

  -- A completed job has a file, and the object store reads it.
  abbrev pub IsStored : S → ExportJob → Type 0
  IsStored objects j = is_stored_as j.status j.object_key objects ≡ true

  abbrev pub AreStored : ExportSession S → Type 0
  AreStored s =
      All (IsStored s.objects) s.scope.committed.jobs × All (IsStored s.objects) s.scope.work.jobs

  IsStored-kept :
      (status : ExportStatus) (file : Option String) (key : String) (bytes : B) (objects : S)
      → is_stored_as status file objects ≡ true
      → is_stored_as status file (store.put_bytes key bytes objects).1 ≡ true
  IsStored-kept completed (some file) key bytes objects h =
      store.get_bytes-kept key file bytes objects h
  IsStored-kept completed none key bytes objects h = h
  IsStored-kept queued file key bytes objects h = refl
  IsStored-kept rendering file key bytes objects h = refl
  IsStored-kept storing file key bytes objects h = refl
  IsStored-kept failed file key bytes objects h = refl

  after_put :
      (key : String) (bytes : B) (objects objects' : S) (js : List ExportJob)
      → (store.put_bytes key bytes objects).1 ≡ objects'
      → All (IsStored objects) js
      → All (IsStored objects') js
  after_put key bytes objects objects' js e h =
      All-weaken (IsStored objects) {Q = IsStored objects'} js
        (λ j k.
          subst (λ o. IsStored o j) e (IsStored-kept j.status j.object_key key bytes objects k))
        h

  finish-AreStored :
      (ctx : RuntimeContext) (version : ContentVersion) (j : ExportJob) (bytes : B) (objects : S)
      (scope : Scope ExportTables) (r : Result (Unit {0}) × S)
      → store.put_bytes (object_key_of ctx j) bytes objects ≡ r
      → AreStored (record { scope = scope; objects = objects })
      → AreStored (finish store render ctx version j r scope).1
  finish-AreStored ctx version j bytes objects scope (err e, objects') put h = (
    after_put (object_key_of ctx j) bytes objects objects' scope.committed.jobs (ap (λ p. p.1) put)
        h.0,
    after_put (object_key_of ctx j) bytes objects objects' scope.work.jobs (ap (λ p. p.1) put) h.1,
  )
  finish-AreStored ctx version j bytes objects scope (ok done, objects') put h =
      let there =
        ap is_ok
          (store.get_bytes-put_bytes (object_key_of ctx j) bytes objects (ap (λ p. p.0) put)) in
      let stored : IsStored objects' (exported ctx j) =
        subst (λ o. is_ok (store.get_bytes (object_key_of ctx j) o) ≡ true) (ap (λ p. p.1) put)
          there in
      let rows =
        All-set_row (job_table j.workspace_id) (IsStored objects') (exported ctx j) scope.work.jobs
          stored
          (after_put (object_key_of ctx j) bytes objects objects' scope.work.jobs
            (ap (λ p. p.1) put) h.1) in
      (rows, rows)

  rendered-AreStored :
      (ctx : RuntimeContext) (version : ContentVersion) (j : ExportJob) (r : Result B)
      (s : ExportSession S)
      → AreStored s
      → AreStored (store_rendered store render ctx version j r s).1
  rendered-AreStored ctx version j (err e) s h = h
  rendered-AreStored ctx version j (ok bytes) s h =
      finish-AreStored ctx version j bytes s.objects s.scope
        (store.put_bytes (object_key_of ctx j) bytes s.objects) refl h

  perform-AreStored :
      (ctx : RuntimeContext) (j : ExportJob) (r : Result Processing) (s : ExportSession S)
      → AreStored s
      → AreStored (perform_process store render ctx j r s).1
  perform-AreStored ctx j (err e) s h = h
  perform-AreStored ctx j (ok unchanged) s h = h
  perform-AreStored ctx j (ok (renders project version blocks)) s h =
      rendered-AreStored ctx version j (render project.name blocks j.format)
        (record s { scope = write_job (record j { status = storing }) s.scope })
        (
          h.0,
          All-set_row (job_table j.workspace_id) (IsStored s.objects)
              (record j { status = storing }) s.scope.work.jobs refl h.1,
        )

  fail_found-AreStored :
      (ctx : RuntimeContext) (e : Raised) (o : Option ExportJob) (s : ExportSession S)
      → AreStored s
      → AreStored (record s { scope = fail_found ctx e o s.scope })
  fail_found-AreStored ctx e none s h = h
  fail_found-AreStored ctx e (some j) s h =
      let rows =
        All-set_row (job_table j.workspace_id) (IsStored s.objects)
          (record (released failed j) { error_code = some (error_code_of e) }) s.scope.work.jobs
          refl h.1 in
      (rows, rows)

  settle-AreStored :
      (ctx : RuntimeContext) (j : ExportJob) (r : Result ExportJob × ExportSession S) (n : Summary)
      → AreStored r.1
      → AreStored (settle store render ctx j r n).1
  settle-AreStored ctx j (ok done, s) n h = h
  settle-AreStored ctx j (err e, s) n h =
      let back = rollback_scope s.scope in
      fail_found-AreStored ctx e
        (find (λ k. k.id == j.id && k.workspace_id == ctx.workspace_id) back.work.jobs)
        (record s { scope = back }) (h.0, h.0)

  run_jobs-AreStored :
      (ctx : RuntimeContext) (js : List ExportJob) (n : Summary) (s : ExportSession S)
      → AreStored s
      → AreStored (run_jobs store render ctx js n s).1
  unfolding run_jobs process_export_job
  run_jobs-AreStored ctx [] n s h = h
  run_jobs-AreStored ctx (j ∷ js) n s h =
      let one = perform-AreStored ctx j (decide_process ctx j s.scope.session.work) s h in
      let r = process_export_job store render ctx j s in
      run_jobs-AreStored ctx js (settle store render ctx j r n).0 (settle store render ctx j r n).1
        (settle-AreStored ctx j r n one)

  run_claimed-AreStored :
      (ctx : RuntimeContext) (claim : List ExportJob × Scope ExportTables) (s : ExportSession S)
      → AreStored (record s { scope = claim.1 })
      → AreStored (run_claimed store render ctx claim s).1
  unfolding run_claimed
  run_claimed-AreStored ctx claim s h =
      run_jobs-AreStored ctx claim.0 (nothing_counted store render (length claim.0))
        (record s { scope = claim.1 }) h

  claim-AreStored :
      (workspace worker : String) (limit lease_seconds now : ℕ) (s : ExportSession S)
      → AreStored s
      → AreStored (record s {
        scope = (claim_export_jobs workspace worker limit lease_seconds now s.scope).1;
      })
  unfolding claim_export_jobs
  claim-AreStored workspace worker limit lease_seconds now s h =
      let rows =
        All-claim (job_table workspace) (IsStored s.objects) worker limit lease_seconds now
          s.scope.work.jobs (λ j p free. refl) h.1 in
      (rows.1, rows.1)

  beat-AreStored :
      (ctx : RuntimeContext) (worker : String) (details : Fields) (now : ℕ) (s : ExportSession S)
      → AreStored s
      → AreStored (export_beat store render ctx worker details now s)
  unfolding beat_export
  beat-AreStored ctx worker details now s h = (h.1, h.1)

  -- A round of the export worker keeps it.
  worker-AreStored :
      (ctx : RuntimeContext) (worker : String) (limit now now' now'' : ℕ) (s : ExportSession S)
      → AreStored s
      → AreStored (run_export_worker_once store render ctx worker limit now now' now'' s).1
  unfolding run_export_worker_once
  worker-AreStored ctx worker limit now now' now'' s h =
      let ready =
        export_beat store render ctx worker (field "limit" (json_number limit) end) now s in
      let claim = claim_export_jobs ctx.workspace_id worker limit 300 now' ready.scope in
      let done = run_claimed-AreStored ctx claim ready (
        claim-AreStored ctx.workspace_id worker limit 300 now' ready
          (beat-AreStored ctx worker (field "limit" (json_number limit) end) now s h)) in
      let r = run_claimed store render ctx claim ready in
      beat-AreStored ctx worker (summary_details r.0) now'' r.1 done

  run_inline-AreStored :
      (ctx : RuntimeContext) (settings : ExportSettings) (clock : Clock) (j : ExportJob)
      (s : ExportSession S)
      → AreStored s
      → AreStored (run_inline store render ctx settings clock j s).1
  unfolding run_inline
  run_inline-AreStored ctx settings clock j s h = elim (Bool-cases (is_inline settings)) [
    | inl e ↦
        rw e (worker-AreStored ctx "inline-local" 1 clock.started clock.claimed clock.ended s h)
    | inr e ↦ rw e h
  ]

  request-AreStored :
      (ctx : RuntimeContext) (settings : ExportSettings) (body : ExportCreate) (clock : Clock)
      (r : Result Export) (s : ExportSession S)
      → AreStored s
      → AreStored (perform_export store render ctx settings body clock r s).1
  unfolding perform_export
  request-AreStored ctx settings body clock (err e) s h = h
  request-AreStored ctx settings body clock (ok (existing j)) s h = h
  request-AreStored ctx settings body clock (ok (requested project_id version_id key)) s h =
      let j = new_job ctx body project_id version_id key clock.asked s.scope in
      let rows = All-append (IsStored s.objects) s.scope.work.jobs (j ∷ []) h.1 (refl, tt) in
      run_inline-AreStored ctx settings clock j (record s { scope = write_request ctx j s.scope })
        (rows, rows)

  -- One call of `export_content` or round of an export worker, by any caller and at any time, or any
  -- change of the other rows, such as a new version of the content.
  pub data Step : ExportSession S → ExportSession S → Type 0 where
    exports :
        (ctx : RuntimeContext) (settings : ExportSettings) (body : ExportCreate) (clock : Clock)
        (s : ExportSession S)
        → Step s (export_content store render ctx settings body clock s).1
    works :
        (ctx : RuntimeContext) (worker : String) (limit now now' now'' : ℕ) (s : ExportSession S)
        → Step s (run_export_worker_once store render ctx worker limit now now' now'' s).1
    elsewhere :
        (rows : Session) (s : ExportSession S)
        → Step s (record s { scope = record s.scope { session = rows } })

  pub data Reach (s : ExportSession S) : ExportSession S → Type 0 where
    here : Reach s s
    next : {t u : ExportSession S} → Reach s t → Step t u → Reach s u

  Step-AreStored : {s t : ExportSession S} → Step s t → AreStored s → AreStored t
  unfolding export_content
  Step-AreStored (exports ctx settings body clock s) h =
      request-AreStored ctx settings body clock
        (decide_export ctx body s.scope.session.work s.scope.work.jobs) s h
  Step-AreStored (works ctx worker limit now now' now'' s) h =
      worker-AreStored ctx worker limit now now' now'' s h
  Step-AreStored (elsewhere rows s) h = h

  -- No export is completed without its file, over any store whose writes can be read back and make no
  -- other object unreadable, as those of the local store: after any calls of `export_content`, any rounds
  -- of export workers, whatever of them failed, and any changes of the other rows between them, each
  -- completed job, committed or not, names an object that the store reads, if that was so before them.
  -- Other writers of the jobs and of the store, such as the deletion of a project, are not among the
  -- steps, and whether a job has expired is not looked at.
  pub Reach-AreStored : (s t : ExportSession S) → Reach s t → AreStored s → AreStored t
  Reach-AreStored s t here h = h
  Reach-AreStored s t (next r step) h = Step-AreStored step (Reach-AreStored s _ r h)
