-- ===== src/Retention/Holds.antt =====
-- A request that a legal hold has blocked.
use groundloom.Base.{
  length, ℕ, String, false, Option, none, some, List, [], ◌∷◌, ◌==◌, ◌&&◌, ◌≡◌, refl, inl, inr,
  find, All, All-append, Bool-cases,
}
use groundloom.Json.{field, end}
use groundloom.Json.Numbers.{json_number}
use groundloom.Store.{
  Project, RuntimeContext, Result, ok, err, Scope, rollback_scope, require, new_id,
}
use groundloom.Retention.Rows.{
  RetentionPolicy, DeletionRequest, RetentionTables, Files, RetentionSession,
}
use groundloom.Retention.Records.{delete_project_records, delete_tables}
use groundloom.Retention.Requests.{
  perform_update, update_retention_policy, Deletion, existing, requested, decide_deletion,
  new_request, perform_deletion, request_project_deletion, admin_roles, ensure_retention_policy,
}
use groundloom.Retention.Worker.{
  claim_deletion_requests, held, done_at, erased, find_request, write_erased, delete_all,
  then_checkpoints, object_keys, finish, process_project, process_under, process_deletion_request,
}
use groundloom.Retention.Rounds.{
  Summary, counted, run_requests, nothing_counted, run_claimed, end_round, retention_beat,
  beat_retention, run_deletion_worker_once, count_status,
}
use groundloom.Retention.Blocked.{
  IsBlocked, IsOther, StaysBlocked, other-IsBlocked, after_claim, after_write, after_failure,
}

module _ {S : Type 0} (store : Files S) (id : String) where
  finish-StaysBlocked :
      (ctx : RuntimeContext) (project : Project) (now : ℕ) (r : DeletionRequest)
      (d : Result (Unit {0}) × S) (s : Scope RetentionTables)
      → IsOther id r
      → StaysBlocked id s
      → StaysBlocked id (finish store ctx project now r d s).1.scope
  unfolding finish write_erased delete_project_records delete_tables
  finish-StaysBlocked ctx project now r (err e, files) s other h =
      let back = rollback_scope s in
      after_failure id r.id ctx e (find_request ctx r.id back) back refl other (h.0, h.0)
  finish-StaysBlocked ctx project now r (ok done, files) s other h =
      let rows = after_write id (erased now r) s.work.requests other h.1 in (rows, rows)

  project-StaysBlocked :
      (ctx : RuntimeContext) (now : ℕ) (r : DeletionRequest) (o : Option Project)
      (s : Scope RetentionTables) (files : S)
      → IsOther id r
      → StaysBlocked id s
      → StaysBlocked id (process_project store ctx now r o s files).1.scope
  unfolding process_project
  project-StaysBlocked ctx now r none s files other h =
      let rows = after_write id (done_at now r) s.work.requests other h.1 in (rows, rows)
  project-StaysBlocked ctx now r (some project) s files other h =
      finish-StaysBlocked ctx project now r
        (then_checkpoints store ctx project (delete_all store (object_keys ctx project s) files)) s
        other h

  under-StaysBlocked :
      (ctx : RuntimeContext) (now : ℕ) (r : DeletionRequest)
      (p : RetentionPolicy × Scope RetentionTables) (files : S)
      → IsOther id r
      → StaysBlocked id p.1
      → StaysBlocked id (process_under store ctx now r p files).1.scope
  unfolding process_under
  under-StaysBlocked ctx now r (policy, s) files other h = elim (Bool-cases policy.legal_hold) [
    | inl e ↦ let rows = after_write id (held r) s.work.requests other h.1 in rw e (rows, rows)
    | inr e ↦ rw e (
        project-StaysBlocked ctx now r
          (find (λ p. p.id == r.resource_id && p.workspace_id == ctx.workspace_id)
            s.session.work.projects)
          s files other h)
  ]

  process-StaysBlocked :
      (ctx : RuntimeContext) (now : ℕ) (r : DeletionRequest) (s : RetentionSession S)
      → IsOther id r
      → StaysBlocked id s.scope
      → StaysBlocked id (process_deletion_request store ctx now r s).1.scope
  unfolding process_deletion_request
  process-StaysBlocked ctx now r s other h =
      elim (Bool-cases (r.workspace_id == ctx.workspace_id)) [
        | inl e ↦ rw e (
            under-StaysBlocked ctx now r (ensure_retention_policy ctx.workspace_id s.scope) s.files
              other h)
        | inr e ↦ rw e h
      ]

  module _ (clock : String → ℕ) where
    counted-StaysBlocked :
        (r : Result DeletionRequest × RetentionSession S) (n : Summary)
        (rest : Summary → RetentionSession S → Result Summary × RetentionSession S)
        → StaysBlocked id r.1.scope
        → ((n : Summary) (s : RetentionSession S)
            → StaysBlocked id s.scope
            → StaysBlocked id (rest n s).1.scope)
        → StaysBlocked id (counted store clock r n rest).1.scope
    counted-StaysBlocked (err e, s) n rest h f = h
    counted-StaysBlocked (ok r, s) n rest h f = f (count_status r.status n) s h

    requests-StaysBlocked :
        (ctx : RuntimeContext) (rs : List DeletionRequest) (n : Summary) (s : RetentionSession S)
        → All (IsOther id) rs
        → StaysBlocked id s.scope
        → StaysBlocked id (run_requests store clock ctx rs n s).1.scope
    unfolding run_requests
    requests-StaysBlocked ctx [] n s others h = h
    requests-StaysBlocked ctx (r ∷ rs) n s others h =
        counted-StaysBlocked (process_deletion_request store ctx (clock r.id) r s) n
          (λ n' s'. run_requests store clock ctx rs n' s')
          (process-StaysBlocked ctx (clock r.id) r s others.0 h)
          (λ n' s' h'. requests-StaysBlocked ctx rs n' s' others.1 h')

    claimed-StaysBlocked :
        (ctx : RuntimeContext) (c : List DeletionRequest × Scope RetentionTables)
        (s : RetentionSession S)
        → All (IsOther id) c.0
        → StaysBlocked id c.1
        → StaysBlocked id (run_claimed store clock ctx c s).1.scope
    unfolding run_claimed
    claimed-StaysBlocked ctx c s others h =
        requests-StaysBlocked ctx c.0 (nothing_counted (length c.0)) (record s { scope = c.1 })
          others h

    end-StaysBlocked :
        (ctx : RuntimeContext) (worker : String) (now : ℕ) (r : Result Summary × RetentionSession S)
        → StaysBlocked id r.1.scope
        → StaysBlocked id (end_round store clock ctx worker now r).1.scope
    unfolding end_round beat_retention
    end-StaysBlocked ctx worker now (err e, s) h = h
    end-StaysBlocked ctx worker now (ok n, s) h = (h.1, h.1)

    worker-StaysBlocked :
        (ctx : RuntimeContext) (worker : String) (limit now now' now'' : ℕ) (s : RetentionSession S)
        → StaysBlocked id s.scope
        → StaysBlocked id
            (run_deletion_worker_once store clock ctx worker limit now now' now'' s).1.scope
    unfolding run_deletion_worker_once beat_retention
    worker-StaysBlocked ctx worker limit now now' now'' s h =
        let ready =
          retention_beat store clock ctx worker (field "limit" (json_number limit) end) now s in
        let c = claim_deletion_requests ctx.workspace_id worker limit 300 now' ready.scope in
        let after = after_claim id ctx.workspace_id worker limit 300 now' ready.scope (h.1, h.1) in
        end-StaysBlocked ctx worker now'' (run_claimed store clock ctx c ready)
          (claimed-StaysBlocked ctx c ready after.0 after.1)

update-StaysBlocked :
    (id : String) (ctx : RuntimeContext) (body : RetentionPolicy) (r : Result (Unit {0}))
    (s : Scope RetentionTables)
    → StaysBlocked id s
    → StaysBlocked id (perform_update ctx body r s).1
update-StaysBlocked id ctx body (err e) s h = h
update-StaysBlocked id ctx body (ok done) s h = (h.1, h.1)

deletion-StaysBlocked :
    (id : String) (ctx : RuntimeContext) (key : Option String) (r : Result Deletion)
    (s : Scope RetentionTables)
    → (new_id "del" (s.session.uuid4 s.session.drawn) == id) ≡ false
    → StaysBlocked id s
    → StaysBlocked id (perform_deletion ctx key r s).1
deletion-StaysBlocked id ctx key (err e) s fresh h = h
deletion-StaysBlocked id ctx key (ok (existing r)) s fresh h = h
deletion-StaysBlocked id ctx key (ok (requested project)) s fresh h =
    let r = new_request ctx project key s in
    let rows =
      All-append (IsBlocked id) s.work.requests (r ∷ []) h.1 (other-IsBlocked id r fresh, tt) in
    (rows, rows)

-- One call, by any caller: a policy is updated, a deletion is requested, where the new id is none that
-- is there, or a worker makes a round.
pub data Step {S : Type 0} (store : Files S) (clock : String → ℕ) (id : String)
    : RetentionSession S → RetentionSession S → Type 0 where
  updates :
      (ctx : RuntimeContext) (body : RetentionPolicy) (s : RetentionSession S)
      → Step store clock id s (record s { scope = (update_retention_policy ctx body s.scope).1 })
  requests :
      (ctx : RuntimeContext) (project : String) (key : Option String) (s : RetentionSession S)
      → (new_id "del" (s.scope.session.uuid4 s.scope.session.drawn) == id) ≡ false
      → Step store clock id s
          (record s { scope = (request_project_deletion ctx project key s.scope).1 })
  works :
      (ctx : RuntimeContext) (worker : String) (limit now now' now'' : ℕ) (s : RetentionSession S)
      → Step store clock id s
          (run_deletion_worker_once store clock ctx worker limit now now' now'' s).1

pub data Reach {S : Type 0} (store : Files S) (clock : String → ℕ) (id : String)
    (s : RetentionSession S) : RetentionSession S → Type 0 where
  here : Reach store clock id s s
  next :
      {t u : RetentionSession S}
      → Reach store clock id s t
      → Step store clock id t u
      → Reach store clock id s u

Step-StaysBlocked :
    {S : Type 0} (store : Files S) (clock : String → ℕ) (id : String) {s t : RetentionSession S}
    → Step store clock id s t
    → StaysBlocked id s.scope
    → StaysBlocked id t.scope
unfolding update_retention_policy request_project_deletion
Step-StaysBlocked store clock id (updates ctx body s) h =
    update-StaysBlocked id ctx body (require ctx admin_roles) s.scope h
Step-StaysBlocked store clock id (requests ctx project key s fresh) h =
    deletion-StaysBlocked id ctx key
      (decide_deletion ctx project key s.scope.session.work s.scope.work.requests) s.scope fresh h
Step-StaysBlocked store clock id (works ctx worker limit now now' now'' s) h =
    worker-StaysBlocked store id clock ctx worker limit now now' now'' s h

-- A legal hold blocks a deletion for good: once a request is blocked it stays so, whatever is requested
-- afterwards, however often workers run, and also when an administrator lifts the hold, provided that
-- new requests have new ids.
pub Reach-StaysBlocked :
    {S : Type 0} (store : Files S) (clock : String → ℕ) (id : String) (s t : RetentionSession S)
    → Reach store clock id s t
    → StaysBlocked id s.scope
    → StaysBlocked id t.scope
Reach-StaysBlocked store clock id s t here h = h
Reach-StaysBlocked store clock id s t (next r step) h =
    Step-StaysBlocked store clock id step (Reach-StaysBlocked store clock id s _ r h)
