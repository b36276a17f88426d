-- ===== src/Review/Create/Proposals.antt =====
-- What a call of `create_patch` has read when it goes on to make a patch.
use groundloom.Base.{
  String, ◌≡◌, ◌≢◌, refl, false, Option, none, some, List, [], ◌∷◌, ap, ◌∙◌, not, subst,
}
use groundloom.Store.{
  Project, ContentVersion, Db, Patch, Validation, IdempotencyRecord, RuntimeContext, Result, ok,
  err, require, >>=-eq-ok, raise_if-eq-ok, ◌>>=◌,
}
use groundloom.Content.Operations.{Block}
use groundloom.Content.Operations.Findings.{Finding, patch_findings, raises_type_error}
use groundloom.Review.Reads.{
  get_project, content_blocks, pinned_sources, validate_patch_operations, is_valid, has_no_finding,
}
use groundloom.Review.Create.{
  PatchCreate, repeated, created, create_roles, existing_record, decide_creation, create_for,
  create_new, replay,
}

-- What `create_patch` reads when it makes a new patch.
pub record IsProposable (ctx : RuntimeContext) (project_id : String) (body : PatchCreate) (d : Db)
    (v : Validation) : Type 0 where
  pub allowed : require ctx create_roles ≡ ok tt
  pub first_call : existing_record ctx body.idempotency_key d ≡ none
  pub validation : validate_patch_operations ctx project_id body.proposal d ≡ ok v
  pub clean : v.findings ≡ []

has_no_finding-nil : (fs : List Finding) → not (has_no_finding fs) ≡ false → fs ≡ []
has_no_finding-nil [] h = refl
has_no_finding-nil (f ∷ fs) h = cc

create_new_clean :
    (ctx : RuntimeContext) (project_id : String) (body : PatchCreate) (d : Db) (v : Validation)
    → create_new ctx project_id body d ≡ ok (created v)
    → (validate_patch_operations ctx project_id body.proposal d ≡ ok v) × (v.findings ≡ [])
unfolding create_new
create_new_clean ctx project_id body d v h =
    let (w, valid, h₁) = >>=-eq-ok (validate_patch_operations ctx project_id body.proposal d) _ h in
    let (clean, h₂) = raise_if-eq-ok (not (is_valid w)) _ _ h₁ in
    let same : w ≡ v = cc h₂ in
    (valid ∙ ap ok same, subst (λ u. u.findings ≡ []) same (has_no_finding-nil w.findings clean))

replay_creates_nothing :
    (r : Result Patch) {v : Validation} → (r >>= λ p. ok (repeated p)) ≢ ok (created v)
replay_creates_nothing (ok p) h = cc
replay_creates_nothing (err e) h = cc

IsProposable-create_for :
    (o : Option IdempotencyRecord) (ctx : RuntimeContext) (project_id : String) (body : PatchCreate)
    (d : Db) (v : Validation)
    → require ctx create_roles ≡ ok tt
    → existing_record ctx body.idempotency_key d ≡ o
    → create_for o ctx project_id body d ≡ ok (created v)
    → IsProposable ctx project_id body d v
unfolding create_for
IsProposable-create_for none ctx project_id body d v allowed first h =
    let (valid, clean) = create_new_clean ctx project_id body d v h in
    record { allowed = allowed; first_call = first; validation = valid; clean = clean }
IsProposable-create_for (some r) ctx project_id body d v allowed first h =
    absurd (replay_creates_nothing (replay ctx project_id r d) h)

pub IsProposable-decide_creation :
    (ctx : RuntimeContext) (project_id : String) (body : PatchCreate) (d : Db) (v : Validation)
    → decide_creation ctx project_id body d ≡ ok (created v)
    → IsProposable ctx project_id body d v
unfolding decide_creation
IsProposable-decide_creation ctx project_id body d v h =
    let (_, allowed, h₁) = >>=-eq-ok (require ctx create_roles) _ h in
    IsProposable-create_for (existing_record ctx body.idempotency_key d) ctx project_id body d v
      allowed refl h₁

-- What a validation has read.
pub record IsValidated (ctx : RuntimeContext) (project_id : String) (body : PatchCreate) (d : Db)
    (v : Validation) : Type 0 where
  pub project : Project
  pub base : ContentVersion
  pub blocks : List Block
  pub project_found : get_project ctx project_id d ≡ ok project
  pub base_found :
      content_blocks ctx project_id (some body.base_content_version_id) d ≡ ok (base, blocks)
  pub is_answer :
      record {
        findings = patch_findings blocks (pinned_sources project d) body.operations;
        base_version_id = base.id;
      }
      ≡ v

pub IsValidated-validate :
    (ctx : RuntimeContext) (project_id : String) (body : PatchCreate) (d : Db) (v : Validation)
    → validate_patch_operations ctx project_id body.proposal d ≡ ok v
    → IsValidated ctx project_id body d v
unfolding validate_patch_operations
IsValidated-validate ctx project_id body d v h =
    let ((base, blocks), b, h₁) =
      >>=-eq-ok (content_blocks ctx project_id (some body.base_content_version_id) d) _ h in
    let (project, p, h₂) = >>=-eq-ok (get_project ctx project_id d) _ h₁ in
    let (_, h₃) = raise_if-eq-ok (raises_type_error body.operations) _ _ h₂ in
    record {
      project = project;
      base = base;
      blocks = blocks;
      project_found = p;
      base_found = b;
      is_answer = cc h₃;
    }
