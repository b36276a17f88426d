-- ===== src/Retention/Requests.antt =====
-- The retention policy and `request_project_deletion` of backend/app/services.py.
use groundloom.Base.{
  String, Bool, true, false, Option, none, some, List, [], ◌∷◌, ◌++◌, ◌==◌, ◌&&◌, ◌||◌, find, map,
  if◌then◌else◌,
}
use groundloom.Json.{bool, str, field, end}
use groundloom.Store.{
  Db, Project, RuntimeContext, Result, ok, err, require, ◌>>=◌, ◌>>◌, new_id, audit, outbox, Scope,
  Session, commit_scope, within, draw_id,
}
use groundloom.Review.Reads.{get_project}
use groundloom.Runs.Tables.{AgentRun}
use groundloom.Retention.Rows.{
  RetentionPolicy, DeletionStatus, pending, running, blocked, DeletionRequest, RetentionTables,
}

abbrev pub default_policy : String → RetentionPolicy
default_policy workspace = record {
  workspace_id = workspace;
  sources_days = 365;
  projects_days = 365;
  agent_data_days = 90;
  exports_days = 7;
  audit_days = 2555;
  legal_hold = false;
}

abbrev pub find_policy : String → List RetentionPolicy → Option RetentionPolicy
find_policy workspace policies = find (λ p. p.workspace_id == workspace) policies

abbrev pub policy_or : Option RetentionPolicy → String → RetentionPolicy
policy_or none workspace = default_policy workspace
policy_or (some p) workspace = p

abbrev pub added_if_none :
    Option RetentionPolicy → String → List RetentionPolicy → List RetentionPolicy
added_if_none none workspace policies = policies ++ default_policy workspace ∷ []
added_if_none (some p) workspace policies = policies

-- `ensure_retention_policy`: what it returns, and the tables with the policy added if there was none.
abbrev pub ensure_retention_policy :
    String → Scope RetentionTables → RetentionPolicy × Scope RetentionTables
ensure_retention_policy workspace s = (
  policy_or (find_policy workspace s.work.policies) workspace,
  record s {
    work = record s.work {
      policies = added_if_none (find_policy workspace s.work.policies) workspace s.work.policies;
    };
  },
)

abbrev pub admin_roles : List String
admin_roles = "workspace_admin" ∷ "organization_admin" ∷ []

abbrev pub set_policy : RetentionPolicy → List RetentionPolicy → List RetentionPolicy
set_policy p [] = []
set_policy p (q ∷ qs) = (if q.workspace_id == p.workspace_id then p else q) ∷ set_policy p qs

-- The body of an update is a policy, whose workspace is the caller's.
abbrev pub write_policy :
    RuntimeContext → RetentionPolicy → Scope RetentionTables → Scope RetentionTables
write_policy ctx body s =
    let ensured = (ensure_retention_policy ctx.workspace_id s).1 in
    commit_scope (
      within
        (λ u.
          outbox (some ctx.workspace_id) "RetentionPolicyUpdated" "workspace" ctx.workspace_id
            (field "workspace_id" (str ctx.workspace_id)
              (field "legal_hold" (bool body.legal_hold) end))
            (audit ctx "retention.policy.updated" "retention_policy" (some ctx.workspace_id)
              "Updated workspace retention policy" "success" u))
        (record ensured {
          work = record ensured.work {
            policies =
                set_policy (record body { workspace_id = ctx.workspace_id }) ensured.work.policies;
          };
        }))

abbrev pub perform_update :
    RuntimeContext
    → RetentionPolicy
    → Result (Unit {0})
    → Scope RetentionTables
    → Result RetentionPolicy × Scope RetentionTables
perform_update ctx body (err e) s = (err e, s)
perform_update ctx body (ok done) s =
    (ok (record body { workspace_id = ctx.workspace_id }), write_policy ctx body s)

unfoldable pub update_retention_policy :
    RuntimeContext
    → RetentionPolicy
    → Scope RetentionTables
    → Result RetentionPolicy × Scope RetentionTables
update_retention_policy ctx body s = perform_update ctx body (require ctx admin_roles) s

abbrev pub has_key : String → Option String → Bool
has_key key none = false
has_key key (some k) = k == key

-- `if idempotency_key:` and the request that has it.
abbrev pub find_by_key : String → Option String → List DeletionRequest → Option DeletionRequest
find_by_key workspace none requests = none
find_by_key workspace (some key) requests =
    if key == ""
    then none
    else find (λ r. r.workspace_id == workspace && has_key key r.idempotency_key) requests

abbrev pub is_open : DeletionStatus → Bool
is_open pending = true
is_open running = true
is_open blocked = true
is_open _ = false

abbrev pub is_open_for : String → String → DeletionRequest → Bool
is_open_for workspace project r =
    r.workspace_id == workspace
    && (r.scope_type == "project" && (r.resource_id == project && is_open r.status))

-- How a request goes on: with one that is there, or with a new one.
pub data Deletion : Type 0 where
  existing : DeletionRequest → Deletion
  requested : Project → Deletion

abbrev pub or_else : Option DeletionRequest → Option DeletionRequest → Project → Deletion
or_else (some r) second project = existing r
or_else none (some r) project = existing r
or_else none none project = requested project

unfoldable pub decide_deletion :
    RuntimeContext → String → Option String → Db → List DeletionRequest → Result Deletion
decide_deletion ctx project_id idempotency_key d requests = do
  require ctx admin_roles
  project ← get_project ctx project_id d
  ok (
      or_else (find_by_key ctx.workspace_id idempotency_key requests)
        (find (is_open_for ctx.workspace_id project.id) requests) project)

abbrev pub new_request :
    RuntimeContext → Project → Option String → Scope RetentionTables → DeletionRequest
new_request ctx project idempotency_key s = record {
  id = new_id "del" (s.session.uuid4 s.session.drawn);
  workspace_id = ctx.workspace_id;
  scope_type = "project";
  resource_id = project.id;
  requested_by = ctx.user_id;
  status = pending;
  attempts = 0;
  lease_owner = none;
  lease_until = none;
  step_status =
      field "canonical" (str "pending")
        (field "objects" (str "pending") (field "checkpoints" (str "pending") end));
  error_code = none;
  idempotency_key = idempotency_key;
  completed_at = none;
}

abbrev pub is_active : String → Bool
is_active status =
    status == "queued"
    || (status == "running" || (status == "waiting_for_user" || status == "waiting_for_approval"))

abbrev pub cancelled_runs : RuntimeContext → Project → List AgentRun → List AgentRun
cancelled_runs ctx project runs =
    map
      (λ r.
        if r.project_id == project.id && (r.workspace_id == ctx.workspace_id && is_active r.status)
        then record r { cancel_requested = true }
        else r)
      runs

abbrev pub set_project_status : String → String → List Project → List Project
set_project_status id status [] = []
set_project_status id status (p ∷ ps) =
    (if p.id == id then record p { status = status } else p) ∷ set_project_status id status ps

abbrev pub mark_project : Project → Session → Session
mark_project project u = record u {
  work = record u.work {
    projects = set_project_status project.id "deletion_pending" u.work.projects;
  };
}

abbrev pub write_deletion :
    RuntimeContext → Project → DeletionRequest → Scope RetentionTables → Scope RetentionTables
write_deletion ctx project r s =
    let ensured = (ensure_retention_policy ctx.workspace_id s).1 in
    commit_scope (
      within
        (λ u.
          outbox (some ctx.workspace_id) "RetentionDeletionRequested" "deletion_request" r.id
            (field "request_id" (str r.id)
              (field "scope_type" (str r.scope_type) (field "resource_id" (str project.id) end)))
            (audit ctx "retention.deletion.requested" "project" (some project.id)
              "Project deletion queued" "success" (mark_project project (draw_id u))))
        (record ensured {
          work = record ensured.work {
            requests = ensured.work.requests ++ r ∷ [];
            runs = cancelled_runs ctx project ensured.work.runs;
          };
        }))

abbrev pub perform_deletion :
    RuntimeContext
    → Option String
    → Result Deletion
    → Scope RetentionTables
    → Result DeletionRequest × Scope RetentionTables
perform_deletion ctx key (err e) s = (err e, s)
perform_deletion ctx key (ok (existing r)) s = (ok r, s)
perform_deletion ctx key (ok (requested project)) s =
    let r = new_request ctx project key s in (ok r, write_deletion ctx project r s)

unfoldable pub request_project_deletion :
    RuntimeContext
    → String
    → Option String
    → Scope RetentionTables
    → Result DeletionRequest × Scope RetentionTables
unfolding decide_deletion
request_project_deletion ctx project_id idempotency_key s =
    perform_deletion ctx idempotency_key
      (decide_deletion ctx project_id idempotency_key s.session.work s.work.requests) s
