-- ===== src/Review/Create/Presented.antt =====
-- When `create_patch` makes a patch, and that the patch can be read and accepted then.
use groundloom.Base.{
  String, ◌≡◌, refl, false, none, some, List, [], ◌==◌, ◌&&◌, find, find-last, eq_refl, sym, subst,
}
use groundloom.Content.Operations.{Block}
use groundloom.Content.Operations.Findings.{patch_findings, raises_type_error}
use groundloom.Store.{
  Session, Project, ContentVersion, Patch, presented, Validation, RuntimeContext, ok, new_id,
  require,
}
use groundloom.Review.Reads.{
  get_project, get_patch, content_blocks, pinned_sources, validate_patch_operations,
}
use groundloom.Review.Create.{
  PatchCreate, created, create_roles, existing_record, decide_creation, create_for, create_new,
  create_patch,
}
use groundloom.Review.Create.Repeats.{session_after, create_patch_creates}
use groundloom.Review.Create.Guards.{MayPropose, IsCreated-session_after}

MayPropose-allowed : (ctx : RuntimeContext) → MayPropose ctx → require ctx create_roles ≡ ok tt
unfolding require
MayPropose-allowed ctx h = rw h refl

-- The patch that a body proposes.
abbrev pub presented_patch : RuntimeContext → String → PatchCreate → ContentVersion → String → Patch
presented_patch ctx project_id body base id = record {
  id = id;
  workspace_id = ctx.workspace_id;
  project_id = project_id;
  base_content_version_id = body.base_content_version_id;
  status = presented;
  operations = body.operations;
  summary = body.summary;
  validation = record { findings = []; base_version_id = base.id };
  actor_id = ctx.user_id;
  decision_reason = none;
}

module _ (ctx : RuntimeContext) (project_id : String) (body : PatchCreate) (s : Session)
    (project : Project) (base : ContentVersion) (blocks : List Block) (allowed : MayPropose ctx)
    (first : existing_record ctx body.idempotency_key s.work ≡ none)
    (project_found : get_project ctx project_id s.work ≡ ok project)
    (base_found : content_blocks ctx project_id (some body.base_content_version_id) s.work
      ≡ ok (base, blocks))
    (typed : raises_type_error body.operations ≡ false)
    (clean : patch_findings blocks (pinned_sources project s.work) body.operations ≡ []) where
  abbrev answer : Validation
  answer = record { findings = []; base_version_id = base.id }

  pub decides_to_create : decide_creation ctx project_id body s.work ≡ ok (created answer)
  unfolding decide_creation create_for create_new validate_patch_operations
  decides_to_create =
      rw (MayPropose-allowed ctx allowed, first, base_found, project_found, typed, clean) refl

  -- What the call returns, and what is committed then.
  pub create_patch_presents :
      let id = new_id "pat" (s.uuid4 s.drawn) in
      find (λ (q : Patch). q.id == id && q.workspace_id == ctx.workspace_id) s.work.patches ≡ none
      → let p = presented_patch ctx project_id body base (new_id "pat" (s.uuid4 s.drawn)) in
        let (r, t) = create_patch ctx project_id body s in
        (r ≡ ok p) × (get_patch ctx p.id t.committed ≡ ok p)
  unfolding get_patch
  create_patch_presents new =
      let p = presented_patch ctx project_id body base (new_id "pat" (s.uuid4 s.drawn)) in
      let (made, _) = create_patch_creates ctx project_id body s answer decides_to_create in
      let c = IsCreated-session_after ctx project_id body s answer decides_to_create refl in
      let t = session_after ctx project_id body s answer in
      let read : find (λ (q : Patch). q.id == p.id && q.workspace_id == ctx.workspace_id)
            t.work.patches
          ≡ some p =
        rw c.added
          (find-last _ s.work.patches p new (rw (eq_refl p.id, eq_refl ctx.workspace_id))) in
      subst (λ (r, t). (r ≡ ok p) × (get_patch ctx p.id t.committed ≡ ok p)) (sym made)
        (refl, rw read refl)
