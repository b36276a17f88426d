-- ===== src/Review/Create.antt =====
-- `create_patch`: a proposal with no finding becomes a presented patch, once for each
-- idempotency key.
pub mod Proposals
pub mod Repeats
pub mod Guards
pub mod Presented
use groundloom.Base.{
  ℕ, suc, ◌+◌, String, Bool, true, false, Option, none, some, List, [], ◌∷◌, ◌++◌, ◌==◌, ◌&&◌, not,
  find, if◌then◌else◌,
}
use groundloom.Json.{Json, Fields, str, field, end, get_or, as_text}
use groundloom.Store.{
  Db, Session, Patch, PatchStatus, presented, Validation, IdempotencyRecord, RuntimeContext, Result,
  ok, err, Raised, domain, error, failed_validation, internal_error, idempotency_conflict,
  model_output_invalid, raise_if, or_raise, require, ◌>>=◌, ◌>>◌, commit, new_id, audit,
  find_idempotency, remember_idempotency,
}
use groundloom.Review.Reads.{Proposal, validate_patch_operations, is_valid}

pub record PatchCreate : Type 0 where
  pub proposal : Proposal
  pub open proposal use *
  pub idempotency_key : Option String

abbrev pub create_roles : List String
create_roles = "author" ∷ "reviewer" ∷ "workspace_admin" ∷ "organization_admin" ∷ []

-- The record of the body's key, if there is a key and it is not empty.
abbrev pub existing_record : RuntimeContext → Option String → Db → Option IdempotencyRecord
existing_record ctx none d = none
existing_record ctx (some key) d =
    if key == "" then none else find_idempotency ctx.workspace_id key d

-- `filter_by(id=patch_id, ...)`: ids of patches are texts, so what is no text names none.
abbrev pub named_patch : RuntimeContext → String → Option String → Db → Option Patch
named_patch ctx project_id none d = none
named_patch ctx project_id (some id) d =
    find (λ p. p.id == id && (p.workspace_id == ctx.workspace_id && p.project_id == project_id))
      d.patches

-- A repeated call answers with the patch that the first one made.
replay : RuntimeContext → String → IdempotencyRecord → Db → Result Patch
replay ctx project_id r d = do
  raise_if (not (r.operation == "patch.create")) (error idempotency_conflict 409)
  or_raise (named_patch ctx project_id (as_text (get_or "patch_id" r.response (str ""))) d)
      (error internal_error 500)

-- How a call goes on after its reads.
pub data Creation : Type 0 where
  repeated : Patch → Creation
  created : Validation → Creation

create_new : RuntimeContext → String → PatchCreate → Db → Result Creation
create_new ctx project_id body d = do
  v ← validate_patch_operations ctx project_id body.proposal d
  raise_if (not (is_valid v)) (
      domain
        (record { code = model_output_invalid; status_code = 422; details = failed_validation v }))
  ok (created v)

create_for : Option IdempotencyRecord → RuntimeContext → String → PatchCreate → Db → Result Creation
unfolding replay create_new
create_for none ctx project_id body d = create_new ctx project_id body d
create_for (some r) ctx project_id body d = do p ← replay ctx project_id r d; ok (repeated p)

-- The reads and tests of `create_patch`.
unfoldable pub decide_creation : RuntimeContext → String → PatchCreate → Db → Result Creation
unfolding create_for
decide_creation ctx project_id body d =
    require ctx create_roles
    >> create_for (existing_record ctx body.idempotency_key d) ctx project_id body d

abbrev pub new_patch : RuntimeContext → String → PatchCreate → Validation → Session → Patch
new_patch ctx project_id body v s = record {
  id = new_id "pat" (s.uuid4 s.drawn);
  workspace_id = ctx.workspace_id;
  project_id = project_id;
  base_content_version_id = body.base_content_version_id;
  status = presented;
  operations = body.operations;
  summary = body.summary;
  validation = v;
  actor_id = ctx.user_id;
  decision_reason = none;
}

abbrev pub add_patch : Patch → Session → Session
add_patch p s = record s {
  work = record s.work { patches = s.work.patches ++ p ∷ [] };
  drawn = s.drawn + 1;
}

-- `remember_idempotency` raises or goes on to the audit event and the commit.
abbrev pub finish_creation :
    RuntimeContext → Patch → Result Fields × Session → Result Patch × Session
finish_creation ctx p (err e, s) = (err e, s)
finish_creation ctx p (ok _, s) = (
  ok p,
  commit (
      audit ctx "patch.proposed" "patch" (some p.id) "Created a validated non-canonical patch"
        "success" s),
)

unfoldable pub perform_creation :
    RuntimeContext → String → PatchCreate → Result Creation → Session → Result Patch × Session
perform_creation ctx project_id body (err e) s = (err e, s)
perform_creation ctx project_id body (ok (repeated p)) s = (ok p, s)
perform_creation ctx project_id body (ok (created v)) s =
    let p = new_patch ctx project_id body v s in
    finish_creation ctx p (
      remember_idempotency ctx body.idempotency_key "patch.create" (field "patch_id" (str p.id) end)
        (add_patch p s))

unfoldable pub create_patch :
    RuntimeContext → String → PatchCreate → Session → Result Patch × Session
unfolding perform_creation
create_patch ctx project_id body s =
    perform_creation ctx project_id body (decide_creation ctx project_id body s.work) s
