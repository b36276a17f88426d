-- ===== src/Review/Accept/Branches.antt =====
-- What a decision of `accept_patch` rests on, and what a call that raises leaves behind.
use groundloom.Base.{
  any, String, ◌≡◌, ◌≢◌, refl, true, false, Option, none, some, List, [], ◌∷◌, inl, inr, arith,
  eq_iff, not, Bool-cases, find, ap, subst, sym, ◌∙◌, ◌==◌, ◌&&◌,
}
use mathlib.Core.Path.{subst₂}
use groundloom.Content.BlockTypes.{mem}
use groundloom.Content.Operations.{Block}
use groundloom.Content.Operations.Findings.{Finding}
use groundloom.Store.{
  Db, Project, ContentVersion, Patch, PatchStatus, presented, accepted, Validation, RuntimeContext,
  Result, ok, err, require, ◌>>=◌, >>=-eq-ok, raise_if-eq-ok, or_raise-eq-ok, or_raise, error,
  internal_error, resource_not_found,
}
use groundloom.Review.Reads.{
  get_project, get_patch, content_blocks, validate_patch_operations, is_valid, is_id, is_in_bounds,
  selected, find_version, version_blocks, has_no_finding,
}
use groundloom.Review.Accept.{
  DecisionIn, already, fresh, accept_roles, decide, decide_status, decide_presented, decide_current,
  is_stale, proposal_of, accepted_version,
}

-- The roles that may accept a change.
abbrev pub MayAccept : RuntimeContext → Type 0
MayAccept ctx =
    any (λ r. mem r ("reviewer" ∷ "workspace_admin" ∷ "organization_admin" ∷ [])) ctx.roles ≡ true

allowed-MayAccept : (ctx : RuntimeContext) → require ctx accept_roles ≡ ok tt → MayAccept ctx
unfolding require
allowed-MayAccept ctx h = elim (Bool-cases (any (λ r. mem r accept_roles) ctx.roles)) [
  | inl e ↦ e
  | inr e ↦ (let no = rw e at h in cc no)
]

-- What holds of the rows when a patch is accepted into a new version.
pub record IsAcceptable (ctx : RuntimeContext) (patch_id : String) (body : DecisionIn) (d : Db)
    (p : Patch) (project : Project) (base : ContentVersion) (blocks : List Block) : Type 0 where
  pub may_accept : MayAccept ctx
  pub allowed : require ctx accept_roles ≡ ok tt
  pub patch_found : get_patch ctx patch_id d ≡ ok p
  pub is_presented : p.status ≡ presented
  pub project_found : get_project ctx p.project_id d ≡ ok project
  pub expected : body.expected_current_version_id ≡ p.base_content_version_id
  pub current : project.current_content_version_id ≡ some p.base_content_version_id
  pub content : content_blocks ctx project.id (some p.base_content_version_id) d ≡ ok (base, blocks)
  pub validated :
      (v : Validation) × (validate_patch_operations ctx p.project_id (proposal_of p) d ≡ ok v)
      × (v.findings ≡ [])

has_no_finding-nil : (fs : List Finding) → not (has_no_finding fs) ≡ false → fs ≡ []
has_no_finding-nil [] h = refl
has_no_finding-nil (f ∷ fs) h = cc

is_id-eq : (o : Option String) (v : String) → is_id o v ≡ true → o ≡ some v
is_id-eq none v h = cc
is_id-eq (some u) v h = ap some ((eq_iff u v).0 h)

is_stale-false :
    (p : Patch) (project : Project) (expected : String)
    → is_stale p project expected ≡ false
    → (expected ≡ p.base_content_version_id)
      × (project.current_content_version_id ≡ some p.base_content_version_id)
is_stale-false p project expected h =
    let same : expected ≡ p.base_content_version_id =
      (eq_iff expected p.base_content_version_id).0 (ground arith) in
    let current : project.current_content_version_id ≡ some expected =
      is_id-eq project.current_content_version_id expected (ground arith) in
    (same, current ∙ ap some same)

fresh_from :
    (r : Result (ContentVersion × List Block)) (q : Patch) (project' : Project) {p : Patch}
    {project : Project} {base : ContentVersion} {blocks : List Block}
    → (r >>= λ (b, bs). ok (fresh q project' b bs)) ≡ ok (fresh p project base blocks)
    → (q ≡ p) × (project' ≡ project) × (r ≡ ok (base, blocks))
fresh_from (ok (b, bs)) q project' h = (cc, cc, cc)
fresh_from (err e) q project' h = cc

decide_current_fresh :
    (ctx : RuntimeContext) (q : Patch) (project' : Project) (expected : String) (d : Db) {p : Patch}
    {project : Project} {base : ContentVersion} {blocks : List Block}
    → decide_current ctx q project' expected d ≡ ok (fresh p project base blocks)
    → (is_stale q project' expected ≡ false)
      × (q ≡ p)
      × (project' ≡ project)
      × (content_blocks ctx project'.id (some q.base_content_version_id) d ≡ ok (base, blocks))
unfolding decide_current
decide_current_fresh ctx q project' expected d h =
    elim (Bool-cases (is_stale q project' expected)) [
      | inl t ↦ let e = rw t at h in cc e
      | inr f ↦
          let (a, b, c) =
            fresh_from (content_blocks ctx project'.id (some q.base_content_version_id) d) q
              project' (rw f at h) in
          (f, a, b, c)
    ]

IsAcceptable-decide_presented :
    (ctx : RuntimeContext) (patch_id : String) (body : DecisionIn) (d : Db) (q p : Patch)
    (project : Project) (base : ContentVersion) (blocks : List Block)
    → require ctx accept_roles ≡ ok tt
    → get_patch ctx patch_id d ≡ ok q
    → q.status ≡ presented
    → decide_presented ctx q body d ≡ ok (fresh p project base blocks)
    → IsAcceptable ctx patch_id body d p project base blocks
unfolding decide_presented
IsAcceptable-decide_presented ctx patch_id body d q p project base blocks allowed found status h =
    let (_, h₁) = raise_if-eq-ok (not (is_in_bounds (proposal_of q))) _ _ h in
    let (v, valid, h₂) =
      >>=-eq-ok (validate_patch_operations ctx q.project_id (proposal_of q) d) _ h₁ in
    let (none_found, h₃) = raise_if-eq-ok (not (is_valid v)) _ _ h₂ in
    let (project', has_project, h₄) = >>=-eq-ok (get_project ctx q.project_id d) _ h₃ in
    let (current, same_patch, same_project, content) =
      decide_current_fresh ctx q project' body.expected_current_version_id d h₄ in
    let (expected, points) = is_stale-false q project' body.expected_current_version_id current in
    let whole : IsAcceptable ctx patch_id body d q project' base blocks = record {
      may_accept = allowed-MayAccept ctx allowed;
      allowed = allowed;
      patch_found = found;
      is_presented = status;
      project_found = has_project;
      expected = expected;
      current = points;
      content = content;
      validated = (v, valid, has_no_finding-nil v.findings none_found);
    } in
    subst₂ (λ a b. IsAcceptable ctx patch_id body d a b base blocks) same_patch same_project whole

accepted_is_already :
    (o : Option ContentVersion) (q : Patch) {p : Patch} {project : Project} {base : ContentVersion}
    {blocks : List Block}
    → (or_raise o (error internal_error 500) >>= λ v. ok (already q v))
      ≢ ok (fresh p project base blocks)
accepted_is_already none q h = cc
accepted_is_already (some v) q h = cc

IsAcceptable-decide_status :
    (status : PatchStatus) (ctx : RuntimeContext) (patch_id : String) (body : DecisionIn) (d : Db)
    (q p : Patch) (project : Project) (base : ContentVersion) (blocks : List Block)
    → require ctx accept_roles ≡ ok tt
    → get_patch ctx patch_id d ≡ ok q
    → q.status ≡ status
    → decide_status status ctx q body d ≡ ok (fresh p project base blocks)
    → IsAcceptable ctx patch_id body d p project base blocks
unfolding decide_status
IsAcceptable-decide_status presented ctx patch_id body d q p project base blocks allowed found
      status h =
    IsAcceptable-decide_presented ctx patch_id body d q p project base blocks allowed found status h
IsAcceptable-decide_status accepted ctx patch_id body d q p project base blocks allowed found status
      h =
    absurd (accepted_is_already (accepted_version q d) q h)
IsAcceptable-decide_status _ ctx patch_id body d q p project base blocks allowed found status h = cc

-- `decide` lets a patch become a new version only if the caller has one of the roles reviewer,
-- workspace_admin and organization_admin, the patch of the caller's workspace is presented, has no finding against its base version, and that base is
-- both what the reviewer expects and the project's current version.
pub IsAcceptable-decide :
    (ctx : RuntimeContext) (patch_id : String) (body : DecisionIn) (d : Db) (p : Patch)
    (project : Project) (base : ContentVersion) (blocks : List Block)
    → decide ctx patch_id body d ≡ ok (fresh p project base blocks)
    → IsAcceptable ctx patch_id body d p project base blocks
unfolding decide
IsAcceptable-decide ctx patch_id body d p project base blocks h =
    let (_, allowed, h₁) = >>=-eq-ok (require ctx accept_roles) _ h in
    let (q, found, h₂) = >>=-eq-ok (get_patch ctx patch_id d) _ h₁ in
    IsAcceptable-decide_status q.status ctx patch_id body d q p project base blocks allowed found
      refl h₂

find_project_id :
    (id w : String) (ps : List Project) {p : Project}
    → find (λ q. q.id == id && q.workspace_id == w) ps ≡ some p
    → p.id ≡ id
find_project_id id w [] h = cc
find_project_id id w (q ∷ qs) {p} h =
    ground (arith, eq_iff q.id id, find_project_id id w qs {p = p})

pub get_project-id :
    (ctx : RuntimeContext) (id : String) (d : Db) {p : Project}
    → get_project ctx id d ≡ ok p
    → p.id ≡ id
unfolding get_project
get_project-id ctx id d h = find_project_id id ctx.workspace_id d.projects (or_raise-eq-ok _ _ h)

-- The project of an acceptable patch, looked up by its own id.
pub project_found_by_id :
    {ctx : RuntimeContext} {patch_id : String} {body : DecisionIn} {d : Db} {p : Patch}
    {project : Project} {base : ContentVersion} {blocks : List Block}
    → IsAcceptable ctx patch_id body d p project base blocks
    → get_project ctx project.id d ≡ ok project
project_found_by_id {ctx} {d = d} {p = p} {project = project} a =
    subst (λ i. get_project ctx i d ≡ ok project)
      (sym (get_project-id ctx p.project_id d a.project_found)) a.project_found

find_version_id :
    (ctx : RuntimeContext) (project : Project) (v : String) (d : Db) {base : ContentVersion}
    → find_version ctx project (some v) d ≡ some base
    → base.id ≡ v
find_version_id ctx project v d {base} h = elim (Bool-cases (v == "")) [
  | inl e ↦ let none_found = rw e at h in cc none_found
  | inr e ↦ first_id d.versions (rw e at h)
]
  where
    first_id :
        (vs : List ContentVersion)
        → find
            (λ w. w.id == v && (w.project_id == project.id && w.workspace_id == ctx.workspace_id))
            vs
          ≡ some base
        → base.id ≡ v
    first_id [] k = cc
    first_id (w ∷ ws) k = ground (arith, eq_iff w.id v, first_id ws)

selected-current :
    (v : String) (project : Project)
    → project.current_content_version_id ≡ some v
    → selected (some v) project ≡ some v
selected-current v project h = ground (arith)

read_from :
    (o : Option ContentVersion) (ctx : RuntimeContext) (d : Db) {base : ContentVersion}
    {blocks : List Block}
    → ◌>>=◌ {B = ContentVersion × List Block}
        (or_raise o (error resource_not_found 404))
        (λ v. ok (v, version_blocks v.id ctx.workspace_id d))
      ≡ ok (base, blocks)
    → (o ≡ some base) × (blocks ≡ version_blocks base.id ctx.workspace_id d)
read_from none ctx d h = cc
read_from (some v) ctx d h = (cc, cc)

-- The version that is read under the project's current id has that id, and its own blocks.
pub content_blocks-current :
    (ctx : RuntimeContext) (id v : String) (d : Db) (project : Project) (base : ContentVersion)
    (blocks : List Block)
    → get_project ctx id d ≡ ok project
    → project.current_content_version_id ≡ some v
    → content_blocks ctx id (some v) d ≡ ok (base, blocks)
    → (base.id ≡ v) × (blocks ≡ version_blocks v ctx.workspace_id d)
unfolding content_blocks
content_blocks-current ctx id v d project base blocks found current h =
    let k = rw (found, selected-current v project current) at h in
    let (version, read) = read_from (find_version ctx project (some v) d) ctx d k in
    let same = find_version_id ctx project v d version in
    (same, read ∙ ap (λ i. version_blocks i ctx.workspace_id d) same)
