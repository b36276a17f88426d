-- ===== src/Review/Accept.antt =====
-- `accept_patch`: a presented patch with no finding, against the version that is still current,
-- becomes one new version. A stale one becomes conflicted, and an accepted one is answered again.
pub mod Branches
pub mod Versions
pub mod Conflicts
pub mod Outcomes
pub mod Proposed
pub mod Contract
use groundloom.Base.{
  ℕ, suc, ◌+◌, String, Bool, true, false, Option, none, some, List, [], ◌∷◌, ◌++◌, ◌==◌, ◌&&◌, ◌||◌,
  not, find, keep, max, leb, ltb, if◌then◌else◌,
}
use groundloom.Json.{str, field, end}
use groundloom.Content.Operations.{Block, PatchOperation, apply_operations, number_blocks}
use groundloom.Store.{
  Db, Session, Project, ContentVersion, ContentBlock, Patch, PatchStatus, draft, presented,
  accepted, conflicted, rejected, superseded, Validation, RuntimeContext, Result, ok, err, Raised,
  domain, error, validation_error, failed_validation, current_version, internal_error,
  invalid_state, invalid_proposal, version_conflict, raise_if, or_raise, require, ◌>>=◌, ◌>>◌,
  commit, new_id, audit, outbox,
}
use groundloom.Review.Reads.{
  Proposal, get_project, get_patch, content_blocks, validate_patch_operations, is_valid,
  is_in_bounds, is_id, pinned_sources,
}
use groundloom.Review.Writes.{write_patch, point_project}

pub record DecisionIn : Type 0 where
  pub reason : Option String
  pub expected_current_version_id : String

abbrev pub accept_roles : List String
accept_roles = "reviewer" ∷ "workspace_admin" ∷ "organization_admin" ∷ []

-- `order_by(version_no.desc()).first()`
abbrev pub later : ContentVersion → Option ContentVersion → ContentVersion
later v none = v
later v (some w) = if ltb v.version_no w.version_no then w else v

abbrev pub latest : List ContentVersion → Option ContentVersion
latest [] = none
latest (v ∷ vs) = some (later v (latest vs))

-- The newest version of the patch's project whose parent is the patch's base.
unfoldable pub accepted_version : Patch → Db → Option ContentVersion
accepted_version p d = latest (
    keep (λ v. is_id v.parent_version_id p.base_content_version_id && v.project_id == p.project_id)
      d.versions)

-- `db.query(func.max(ContentVersion.version_no)).filter_by(project_id=...).scalar() or 0`
abbrev pub max_version_no : String → List ContentVersion → ℕ
max_version_no project_id [] = 0
max_version_no project_id (v ∷ vs) =
    let rest = max_version_no project_id vs in
    if v.project_id == project_id then max v.version_no rest else rest

abbrev pub proposal_of : Patch → Proposal
proposal_of p = record {
  base_content_version_id = p.base_content_version_id;
  operations = p.operations;
  summary = p.summary;
}

-- How a call goes on after its reads.
pub data Decision : Type 0 where
  already : Patch → ContentVersion → Decision
  stale : Patch → Project → Decision
  fresh : Patch → Project → ContentVersion → List Block → Decision

abbrev pub is_stale : Patch → Project → String → Bool
is_stale p project expected =
    not (is_id project.current_content_version_id expected)
    || not (expected == p.base_content_version_id)

decide_current : RuntimeContext → Patch → Project → String → Db → Result Decision
decide_current ctx p project expected d =
    if is_stale p project expected then ok (stale p project) else do
      (base, blocks) ← content_blocks ctx project.id (some p.base_content_version_id) d
      ok (fresh p project base blocks)

decide_presented : RuntimeContext → Patch → DecisionIn → Db → Result Decision
unfolding decide_current
decide_presented ctx p body d = do
  raise_if (not (is_in_bounds (proposal_of p))) validation_error
  v ← validate_patch_operations ctx p.project_id (proposal_of p) d
  raise_if (not (is_valid v)) (
      domain (record { code = invalid_proposal; status_code = 422; details = failed_validation v }))
  project ← get_project ctx p.project_id d
  decide_current ctx p project body.expected_current_version_id d

decide_status : PatchStatus → RuntimeContext → Patch → DecisionIn → Db → Result Decision
unfolding decide_presented
decide_status accepted ctx p body d = do
  v ← or_raise (accepted_version p d) (error internal_error 500)
  ok (already p v)
decide_status presented ctx p body d = decide_presented ctx p body d
decide_status _ ctx p body d = err (error invalid_state 409)

-- The reads and tests of `accept_patch`.
unfoldable pub decide : RuntimeContext → String → DecisionIn → Db → Result Decision
unfolding decide_status
decide ctx patch_id body d = do
  require ctx accept_roles
  p ← get_patch ctx patch_id d
  decide_status p.status ctx p body d

-- `patch.status = "conflicted"`, its audit event and the commit.
unfoldable pub write_conflict : RuntimeContext → Patch → Session → Session
write_conflict ctx p s = commit (
    audit ctx "patch.conflicted" "patch" (some p.id) "Patch base version is stale" "conflict"
      (write_patch (record p { status = conflicted }) s))

-- The new version of the project.
abbrev pub new_version :
    RuntimeContext → Patch → Project → ContentVersion → Session → ContentVersion
new_version ctx p project base s = record {
  id = new_id "cv" (s.uuid4 s.drawn);
  workspace_id = ctx.workspace_id;
  project_id = project.id;
  version_no = max_version_no project.id s.work.versions + 1;
  status = "accepted";
  parent_version_id = some base.id;
  provenance = some (record {
    accepted_patch_id = p.id;
    actor_id = ctx.user_id;
    pinned_source_version_ids = pinned_sources project s.work;
  });
}

abbrev pub block_rows : String → String → List Block → List ContentBlock
block_rows version workspace [] = []
block_rows version workspace (b ∷ bs) =
    record { content_version_id = version; workspace_id = workspace; block = b }
    ∷ block_rows version workspace bs

-- The id of the n-th block that the loop inserts.
abbrev pub block_ids : Session → ℕ → String
block_ids s n = new_id "blk" (s.uuid4 n)

-- The blocks that the loop leaves, before they are numbered, and the ids that were drawn by then.
abbrev pub patched : Patch → List Block → Session → List Block × ℕ
patched p blocks s = apply_operations (block_ids s) (s.drawn + 1) p.operations blocks

-- The rows of an acceptance: the version, its blocks, the project's pointer and the patch.
unfoldable pub write_version :
    RuntimeContext
    → Option String
    → Patch
    → Project
    → ContentVersion
    → List Block
    → Session
    → Session
write_version ctx reason p project base blocks s =
    let v = new_version ctx p project base s in
    let (items, drawn) = patched p blocks s in
    write_patch (record p { status = accepted; decision_reason = reason })
      (record s {
        work = record s.work {
          versions = s.work.versions ++ v ∷ [];
          blocks = s.work.blocks ++ block_rows v.id ctx.workspace_id (number_blocks 0 items);
          projects = point_project project.id v.id s.work.projects;
        };
        drawn = drawn;
      })

unfoldable pub write_acceptance :
    RuntimeContext
    → Option String
    → Patch
    → Project
    → ContentVersion
    → List Block
    → Session
    → Session
unfolding write_version
write_acceptance ctx reason p project base blocks s =
    let v = new_version ctx p project base s in
    commit (
      outbox (some ctx.workspace_id) "PatchAccepted" "patch" p.id
        (field "patch_id" (str p.id) (field "content_version_id" (str v.id) end))
        (audit ctx "patch.accepted" "patch" (some p.id)
          "Accepted patch into one immutable content version" "success"
          (write_version ctx reason p project base blocks s)))

abbrev pub conflict_error : Project → Raised
conflict_error project = domain (record {
  code = version_conflict;
  status_code = 409;
  details = current_version project.current_content_version_id;
})

unfoldable pub perform :
    RuntimeContext
    → Option String
    → Result Decision
    → Session
    → Result (Patch × ContentVersion) × Session
perform ctx reason (err e) s = (err e, s)
perform ctx reason (ok (already p v)) s = (ok (p, v), s)
perform ctx reason (ok (stale p project)) s = (err (conflict_error project), write_conflict ctx p s)
perform ctx reason (ok (fresh p project base blocks)) s = (
  ok (record p { status = accepted; decision_reason = reason }, new_version ctx p project base s),
  write_acceptance ctx reason p project base blocks s,
)

unfoldable pub accept_patch :
    RuntimeContext → String → DecisionIn → Session → Result (Patch × ContentVersion) × Session
unfolding perform
accept_patch ctx patch_id body s = perform ctx body.reason (decide ctx patch_id body s.work) s
