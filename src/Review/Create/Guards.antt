-- ===== src/Review/Create/Guards.antt =====
-- Every way in which a call of `create_patch` ends, with what it has tested by then.
use groundloom.Base.{
  String, Bool, ◌≡◌, refl, true, Option, none, some, List, [], ◌∷◌, ◌++◌, ◌≢◌, false, ◌⊎◌, inl, inr,
  ◌==◌, ap, ◌∙◌, any, not, find-passes, eq_iff, arith, Bool-cases, sym, subst,
}
use groundloom.Content.BlockTypes.{mem}
use groundloom.Content.Operations.{Block}
use groundloom.Content.Operations.Findings.{patch_findings}
use groundloom.Store.{
  Db, Session, Project, ContentVersion, Patch, presented, Validation, IdempotencyRecord,
  RuntimeContext, Result, ok, err, Raised, audit, require, raise_if, ◌>>◌, >>=-eq-ok,
  raise_if-eq-ok, or_raise-eq-ok,
}
use groundloom.Json.{str, get_or, as_text, field, end}
use groundloom.Review.Reads.{get_project, content_blocks, pinned_sources, validate_patch_operations}
use groundloom.Review.Accept.Conflicts.{SameContent}
use groundloom.Review.Create.{
  PatchCreate, Creation, repeated, created, create_roles, existing_record, named_patch,
  decide_creation, create_for, create_new, replay, add_patch, perform_creation, create_patch,
}
use groundloom.Review.Create.Proposals.{IsProposable-decide_creation, IsValidated-validate}
use groundloom.Review.Create.Repeats.{
  proposed, session_after, recorded-KeepsRows, create_patch_creates,
}

-- The roles that may propose a change.
abbrev pub MayPropose : RuntimeContext → Type 0
MayPropose ctx =
    any (λ r. mem r ("author" ∷ "reviewer" ∷ "workspace_admin" ∷ "organization_admin" ∷ []))
      ctx.roles
    ≡ true

-- The patch was made under the key of the call, which changes nothing.
pub record IsRepeated (ctx : RuntimeContext) (project_id : String) (body : PatchCreate)
    (s : Session) (p : Patch) (t : Session) : Type 0 where
  pub key : IdempotencyRecord
  pub key_found : existing_record ctx body.idempotency_key s.work ≡ some key
  pub key_of_patch : key.operation ≡ "patch.create"
  pub patch_found :
      named_patch ctx project_id (as_text (get_or "patch_id" key.response (str ""))) s.work ≡ some p
  pub of_workspace : p.workspace_id ≡ ctx.workspace_id
  pub of_project : p.project_id ≡ project_id
  pub unchanged : t ≡ s

-- The patch is new: it is presented, nothing is found in it against its base, and it is committed
-- with no change to the canonical rows.
pub record IsCreated (ctx : RuntimeContext) (project_id : String) (body : PatchCreate) (s : Session)
    (p : Patch) (t : Session) : Type 0 where
  pub first_call : existing_record ctx body.idempotency_key s.work ≡ none
  pub project : Project
  pub base : ContentVersion
  pub blocks : List Block
  pub project_found : get_project ctx project_id s.work ≡ ok project
  pub base_found :
      content_blocks ctx project_id (some body.base_content_version_id) s.work ≡ ok (base, blocks)
  pub clean : patch_findings blocks (pinned_sources project s.work) body.operations ≡ []
  pub is_presented : p.status ≡ presented
  pub is_undecided : p.decision_reason ≡ none
  pub of_workspace : p.workspace_id ≡ ctx.workspace_id
  pub of_project : p.project_id ≡ project_id
  pub of_base : p.base_content_version_id ≡ body.base_content_version_id
  pub operations : p.operations ≡ body.operations
  pub validation : p.validation ≡ record { findings = []; base_version_id = base.id }
  pub added : t.work.patches ≡ s.work.patches ++ p ∷ []
  pub content : SameContent t.work s.work
  pub durable : t.committed ≡ t.work

-- How a call ends.
abbrev pub IsGuarded :
    RuntimeContext → String → PatchCreate → Session → Result Patch × Session → Type 0
IsGuarded ctx project_id body s (err e, t) = t ≡ s
IsGuarded ctx project_id body s (ok p, t) =
    MayPropose ctx × (IsRepeated ctx project_id body s p t ⊎ IsCreated ctx project_id body s p t)

allowed-MayPropose : (ctx : RuntimeContext) → require ctx create_roles ≡ ok tt → MayPropose ctx
unfolding require
allowed-MayPropose ctx h = elim (Bool-cases (any (λ r. mem r create_roles) ctx.roles)) [
  | inl e ↦ e
  | inr e ↦ (let no = rw e at h in cc no)
]

named_patch-of :
    (ctx : RuntimeContext) (project_id : String) (o : Option String) (d : Db) (p : Patch)
    → named_patch ctx project_id o d ≡ some p
    → (p.workspace_id ≡ ctx.workspace_id) × (p.project_id ≡ project_id)
named_patch-of ctx project_id none d p h = cc
named_patch-of ctx project_id (some id) d p h =
    let passes = find-passes _ d.patches p h in
    (
      (eq_iff p.workspace_id ctx.workspace_id).0 (ground arith),
      (eq_iff p.project_id project_id).0 (ground arith),
    )

refused_repeats_nothing :
    (t : Bool) (e : Raised) (v : Validation) (p : Patch)
    → (raise_if t e >> ok (created v)) ≢ ok (repeated p)
refused_repeats_nothing true e v p h = cc
refused_repeats_nothing false e v p h = cc

module _ (ctx : RuntimeContext) (project_id : String) (body : PatchCreate) (s : Session) where
  pub IsCreated-session_after :
      (v : Validation)
      → decide_creation ctx project_id body s.work ≡ ok (created v)
      → v.findings ≡ []
      → IsCreated ctx project_id body s
          (proposed ctx project_id body s v)
          (session_after ctx project_id body s v)
  unfolding audit
  IsCreated-session_after v h none_found =
      let q = IsProposable-decide_creation ctx project_id body s.work v h in
      let c = IsValidated-validate ctx project_id body s.work v q.validation in
      let p = proposed ctx project_id body s v in
      let rows =
        recorded-KeepsRows ctx body.idempotency_key "patch.create" (field "patch_id" (str p.id) end)
          (add_patch p s) in
      record {
        first_call = q.first_call;
        project = c.project;
        base = c.base;
        blocks = c.blocks;
        project_found = c.project_found;
        base_found = c.base_found;
        clean = ap (λ (u : Validation). u.findings) c.is_answer ∙ none_found;
        is_presented = refl;
        is_undecided = refl;
        of_workspace = refl;
        of_project = refl;
        of_base = refl;
        operations = refl;
        validation =
            ap (λ fs. record { findings = fs; base_version_id = v.base_version_id }) none_found
            ∙ ap (λ id. record { findings = []; base_version_id = id })
                (sym (ap (λ (u : Validation). u.base_version_id) c.is_answer));
        added = rows.patches;
        content = record {
          projects = rows.content.projects;
          configs = rows.content.configs;
          versions = rows.content.versions;
          blocks = rows.content.blocks;
        };
        durable = refl;
      }

  repeated_from :
      (o : Option IdempotencyRecord) (p : Patch)
      → existing_record ctx body.idempotency_key s.work ≡ o
      → create_for o ctx project_id body s.work ≡ ok (repeated p)
      → IsRepeated ctx project_id body s p s
  unfolding create_for create_new replay
  repeated_from none p first h =
      let (v, _, h₁) =
        >>=-eq-ok (validate_patch_operations ctx project_id body.proposal s.work) _ h in
      absurd (refused_repeats_nothing _ _ v p h₁)
  repeated_from (some r) p found h =
      let (q, h₁, h₂) = >>=-eq-ok (replay ctx project_id r s.work) _ h in
      let same : q ≡ p = cc h₂ in
      let (op, h₃) = raise_if-eq-ok (not (r.operation == "patch.create")) _ _ h₁ in
      let there = or_raise-eq-ok _ _ h₃ ∙ ap some same in
      record {
        key = r;
        key_found = found;
        key_of_patch = (eq_iff r.operation "patch.create").0 (ground arith);
        patch_found = there;
        of_workspace = (named_patch-of ctx project_id _ s.work p there).0;
        of_project = (named_patch-of ctx project_id _ s.work p there).1;
        unchanged = refl;
      }

  perform-IsGuarded :
      (r : Result Creation)
      → decide_creation ctx project_id body s.work ≡ r
      → IsGuarded ctx project_id body s (create_patch ctx project_id body s)
  unfolding create_patch perform_creation decide_creation
  perform-IsGuarded (err e) h = rw h refl
  perform-IsGuarded (ok (repeated p)) h =
      let (_, allowed, h₁) = >>=-eq-ok (require ctx create_roles) _ h in
      rw h (
        allowed-MayPropose ctx allowed,
        inl (repeated_from (existing_record ctx body.idempotency_key s.work) p refl h₁),
      )
  perform-IsGuarded (ok (created v)) h =
      let q = IsProposable-decide_creation ctx project_id body s.work v h in
      let (made, none_found) = create_patch_creates ctx project_id body s v h in
      subst (IsGuarded ctx project_id body s) (sym made)
        (allowed-MayPropose ctx q.allowed, inr (IsCreated-session_after v h none_found))

-- A call that raises leaves the session as it was, the committed rows included. A call that returns a
-- patch is made in one of the roles author, reviewer, workspace_admin and organization_admin, and
-- either the key of the call is recorded for `patch.create` with that patch, which is of this project,
-- and the session stays as it was; or the key is not recorded, the patch is added to the others as
-- presented and undecided, with the operations of the body and no finding against the blocks of its
-- base and the pinned sources, the canonical rows are as they were, and all of it is committed.
pub create_patch-IsGuarded :
    (ctx : RuntimeContext) (project_id : String) (body : PatchCreate) (s : Session)
    → IsGuarded ctx project_id body s (create_patch ctx project_id body s)
create_patch-IsGuarded ctx project_id body s =
    perform-IsGuarded ctx project_id body s (decide_creation ctx project_id body s.work) refl
