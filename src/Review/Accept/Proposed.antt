-- ===== src/Review/Accept/Proposed.antt =====
-- A patch that `create_patch` has made, as `accept_patch` finds it.
use groundloom.Base.{
  String, ◌≡◌, refl, true, false, Option, none, some, List, [], ◌==◌, ◌&&◌, ap, ◌∙◌, find,
  find-last, eq_refl, sym, subst,
}
use groundloom.Content.Operations.{Block}
use groundloom.Content.Operations.Findings.{patch_findings, raises_type_error}
use groundloom.Store.{
  Db, Session, Project, ContentVersion, Patch, presented, accepted, RuntimeContext, ok, new_id,
  require, Validation, or_raise, error, resource_not_found, ◌>>=◌,
}
use groundloom.Review.Reads.{
  get_project, get_patch, content_blocks, pinned_sources, validate_patch_operations, is_in_bounds,
  version_blocks, find_version, selected, find_config, sources_of,
}
use groundloom.Review.Accept.{
  DecisionIn, fresh, accept_roles, decide, decide_status, decide_presented, decide_current, perform,
  accept_patch, proposal_of,
}
use groundloom.Review.Accept.Branches.{MayAccept, get_project-id}
use groundloom.Review.Accept.Conflicts.{SameContent}
use groundloom.Review.Accept.Versions.{made}
use groundloom.Review.Create.{PatchCreate, existing_record, create_patch}
use groundloom.Review.Create.Repeats.{session_after, create_patch_creates}
use groundloom.Review.Create.Guards.{MayPropose, IsCreated-session_after}
use groundloom.Review.Create.Presented.{presented_patch, decides_to_create, create_patch_presents}

MayAccept-allowed : (ctx : RuntimeContext) → MayAccept ctx → require ctx accept_roles ≡ ok tt
unfolding require
MayAccept-allowed ctx h = rw h refl

-- Callers of one workspace read the same canonical rows.
get_project-same :
    (a b : RuntimeContext) (id : String) (d e : Db)
    → a.workspace_id ≡ b.workspace_id
    → SameContent d e
    → get_project a id d ≡ get_project b id e
unfolding get_project
get_project-same a b id d e w h = rw (w, h.projects) refl

find_version-same :
    (a b : RuntimeContext) (project : Project) (v : Option String) (d e : Db)
    → a.workspace_id ≡ b.workspace_id
    → SameContent d e
    → find_version a project v d ≡ find_version b project v e
find_version-same a b project none d e w h = refl
find_version-same a b project (some id) d e w h = rw (w, h.versions) refl

version_blocks-same :
    (version x y : String) (d e : Db)
    → x ≡ y
    → SameContent d e
    → version_blocks version x d ≡ version_blocks version y e
unfolding version_blocks
version_blocks-same version x y d e w h = rw (w, h.blocks) refl

content_blocks-same :
    (a b : RuntimeContext) (id : String) (v : Option String) (d e : Db)
    → a.workspace_id ≡ b.workspace_id
    → SameContent d e
    → content_blocks a id v d ≡ content_blocks b id v e
unfolding content_blocks
content_blocks-same a b id v d e w h = λ i. get_project-same a b id d e w h i >>= λ project.
    or_raise (find_version-same a b project (selected v project) d e w h i)
      (error resource_not_found 404)
    >>= λ version.
        ok (version, version_blocks-same version.id a.workspace_id b.workspace_id d e w h i)

find_config-same :
    (o : Option String) (d e : Db) → SameContent d e → find_config o d ≡ find_config o e
find_config-same none d e h = refl
find_config-same (some id) d e h = rw h.configs refl

pinned_sources-same :
    (p : Project) (d e : Db) → SameContent d e → pinned_sources p d ≡ pinned_sources p e
pinned_sources-same p d e h = ap sources_of (find_config-same p.current_config_version_id d e h)

-- What `accept_patch` decides on a presented patch of the project's current version, by what it reads.
decides_fresh :
    (ctx : RuntimeContext) (id : String) (body : DecisionIn) (d : Db) (p : Patch)
    (project : Project) (base : ContentVersion) (blocks : List Block)
    → require ctx accept_roles ≡ ok tt
    → get_patch ctx id d ≡ ok p
    → p.status ≡ presented
    → is_in_bounds (proposal_of p) ≡ true
    → content_blocks ctx p.project_id (some p.base_content_version_id) d ≡ ok (base, blocks)
    → get_project ctx p.project_id d ≡ ok project
    → raises_type_error p.operations ≡ false
    → patch_findings blocks (pinned_sources project d) p.operations ≡ []
    → project.current_content_version_id ≡ some p.base_content_version_id
    → body.expected_current_version_id ≡ p.base_content_version_id
    → decide ctx id body d ≡ ok (fresh p project base blocks)
unfolding decide decide_status decide_presented decide_current validate_patch_operations
decides_fresh ctx id body d p project base blocks allowed found st bounds b g typed clean current
      expected =
    rw (
      allowed,
      found,
      st,
      bounds,
      b,
      g,
      typed,
      clean,
      current,
      expected,
      eq_refl p.base_content_version_id,
      get_project-id ctx p.project_id d g,
      b,
    )

-- Who may propose and who may accept, and what is proposed: operations in which nothing is found, for
-- the current version of the project, within the bounds of a request.
pub record IsInOrder (ctx ctx' : RuntimeContext) (project_id : String) (body : PatchCreate)
    (decision : DecisionIn) (d : Db) (project : Project) (base : ContentVersion)
    (blocks : List Block) : Type 0 where
  pub may_propose : MayPropose ctx
  pub may_accept : MayAccept ctx'
  pub one_workspace : ctx'.workspace_id ≡ ctx.workspace_id
  pub first_call : existing_record ctx body.idempotency_key d ≡ none
  pub project_found : get_project ctx project_id d ≡ ok project
  pub base_found :
      content_blocks ctx project_id (some body.base_content_version_id) d ≡ ok (base, blocks)
  pub bounds : is_in_bounds body.proposal ≡ true
  pub typed : raises_type_error body.operations ≡ false
  pub clean : patch_findings blocks (pinned_sources project d) body.operations ≡ []
  pub current : project.current_content_version_id ≡ some body.base_content_version_id
  pub expected : decision.expected_current_version_id ≡ body.base_content_version_id

-- A proposal in order becomes a patch that the next call accepts. When a caller in one of the four
-- proposing roles, under no key or a new one, proposes operations within the bounds of a request, in
-- which nothing is found and no citation raises a TypeError, on the current version of the project,
-- `create_patch` returns a presented patch with those operations and no finding, and the committed rows
-- have it under its id. `accept_patch`, called next by anyone of the workspace in one of the roles
-- reviewer, workspace_admin and organization_admin who expects that version, returns it as accepted
-- beside a new version on that base. No patch of the workspace may have the id that is drawn for the
-- patch.
pub create_patch-accept_patch :
    (ctx ctx' : RuntimeContext) (project_id : String) (body : PatchCreate) (decision : DecisionIn)
    (s : Session) (project : Project) (base : ContentVersion) (blocks : List Block)
    → IsInOrder ctx ctx' project_id body decision s.work project base blocks
    → find
        (λ (q : Patch).
          q.id == new_id "pat" (s.uuid4 s.drawn) && q.workspace_id == ctx.workspace_id)
        s.work.patches
      ≡ none
    → let p = presented_patch ctx project_id body base (new_id "pat" (s.uuid4 s.drawn)) in
      let (r, t) = create_patch ctx project_id body s in
      (r ≡ ok p)
      × (get_patch ctx p.id t.committed ≡ ok p)
      × ((accept_patch ctx' p.id decision t).0
          ≡ ok (
            record p { status = accepted; decision_reason = decision.reason },
            made ctx' decision.reason p project base blocks t,
          ))
unfolding accept_patch perform get_patch
create_patch-accept_patch ctx ctx' project_id body decision s project base blocks o new =
    let p = presented_patch ctx project_id body base (new_id "pat" (s.uuid4 s.drawn)) in
    let v : Validation = record { findings = []; base_version_id = base.id } in
    let creates =
      decides_to_create ctx project_id body s project base blocks o.may_propose o.first_call
        o.project_found o.base_found o.typed o.clean in
    let (returned, _) = create_patch_creates ctx project_id body s v creates in
    let c = IsCreated-session_after ctx project_id body s v creates refl in
    let t = session_after ctx project_id body s v in
    let read : get_patch ctx' p.id t.work ≡ ok p = rw (
      c.added,
      o.one_workspace,
      find-last _ s.work.patches p new (rw (eq_refl p.id, eq_refl ctx.workspace_id)),
    ) in
    let goes =
      decides_fresh ctx' p.id decision t.work p project base blocks
        (MayAccept-allowed ctx' o.may_accept) read refl o.bounds
        (content_blocks-same ctx' ctx project_id (some body.base_content_version_id) t.work s.work
            o.one_workspace c.content
          ∙ o.base_found)
        (get_project-same ctx' ctx project_id t.work s.work o.one_workspace c.content
          ∙ o.project_found)
        o.typed
        (subst (λ sources. patch_findings blocks sources body.operations ≡ [])
          (sym (pinned_sources-same project t.work s.work c.content)) o.clean)
        o.current o.expected in
    let (answered, stored) =
      create_patch_presents ctx project_id body s project base blocks o.may_propose o.first_call
        o.project_found o.base_found o.typed o.clean new in
    let taken : (accept_patch ctx' p.id decision (create_patch ctx project_id body s).1).0
        ≡ ok (
          record p { status = accepted; decision_reason = decision.reason },
          made ctx' decision.reason p project base blocks (create_patch ctx project_id body s).1,
        ) =
      subst
        (λ (r, t).
          (accept_patch ctx' p.id decision t).0
          ≡ ok (
            record p { status = accepted; decision_reason = decision.reason },
            made ctx' decision.reason p project base blocks t,
          ))
        (sym returned) (rw goes refl) in
    (answered, stored, taken)
