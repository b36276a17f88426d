-- ===== src/Review/Reads.antt =====
-- The queries of the review service, and `validate_patch_operations`.
use groundloom.Base.{
  String, Bool, true, false, Option, none, some, List, [], ◌∷◌, ◌==◌, ◌&&◌, find, keep, map, leb,
  length, text_len, if◌then◌else◌,
}
use groundloom.Content.Operations.{Block, PatchOperation}
use groundloom.Content.Operations.Findings.{Finding, patch_findings, raises_type_error, is_named}
use groundloom.Store.{
  Db, Project, ProjectConfigVersion, ContentVersion, ContentBlock, Patch, Validation,
  RuntimeContext, Result, ok, error, type_error, resource_not_found, raise_if, or_raise, ◌>>=◌,
  ◌>>◌,
}

-- `a.current_content_version_id == v`
abbrev pub is_id : Option String → String → Bool
is_id none v = false
is_id (some u) v = u == v

-- `_project`
unfoldable pub get_project : RuntimeContext → String → Db → Result Project
get_project ctx id d =
    or_raise (find (λ p. p.id == id && p.workspace_id == ctx.workspace_id) d.projects)
      (error resource_not_found 404)

-- `version_id or project.current_content_version_id`
abbrev pub selected : Option String → Project → Option String
selected version_id p = if is_named version_id then version_id else p.current_content_version_id

abbrev pub find_version : RuntimeContext → Project → Option String → Db → Option ContentVersion
find_version ctx p none d = none
find_version ctx p (some id) d =
    if id == ""
    then none
    else find (λ v. v.id == id && (v.project_id == p.id && v.workspace_id == ctx.workspace_id))
        d.versions

-- `order_by(ContentBlock.order_no)`
abbrev pub insert_ordered : Block → List Block → List Block
insert_ordered b [] = b ∷ []
insert_ordered b (x ∷ xs) =
    if leb b.order_no x.order_no then b ∷ x ∷ xs else x ∷ insert_ordered b xs

abbrev pub order_blocks : List Block → List Block
order_blocks [] = []
order_blocks (b ∷ bs) = insert_ordered b (order_blocks bs)

abbrev pub rows_of : String → String → List ContentBlock → List Block
rows_of version workspace rows =
    map (λ r. r.block)
      (keep (λ r. r.content_version_id == version && r.workspace_id == workspace) rows)

-- The blocks of a version as `content_blocks` reads them.
unfoldable pub version_blocks : String → String → Db → List Block
version_blocks version workspace d = order_blocks (rows_of version workspace d.blocks)

unfoldable pub content_blocks :
    RuntimeContext → String → Option String → Db → Result (ContentVersion × List Block)
content_blocks ctx project_id version_id d = do
  project ← get_project ctx project_id d
  version ←
      or_raise (find_version ctx project (selected version_id project) d)
        (error resource_not_found 404)
  ok (version, version_blocks version.id ctx.workspace_id d)

-- `config.source_version_ids if config else []`, for the project's current configuration.
abbrev pub find_config : Option String → Db → Option ProjectConfigVersion
find_config none d = none
find_config (some id) d = find (λ c. c.id == id) d.configs

abbrev pub sources_of : Option ProjectConfigVersion → List String
sources_of none = []
sources_of (some c) = c.source_version_ids

abbrev pub pinned_sources : Project → Db → List String
pinned_sources p d = sources_of (find_config p.current_config_version_id d)

-- The body that `PatchCreate` holds, less its idempotency key.
pub record Proposal : Type 0 where
  pub base_content_version_id : String
  pub operations : List PatchOperation
  pub summary : String

unfoldable pub validate_patch_operations :
    RuntimeContext → String → Proposal → Db → Result Validation
validate_patch_operations ctx project_id body d = do
  (version, blocks) ← content_blocks ctx project_id (some body.base_content_version_id) d
  project ← get_project ctx project_id d
  raise_if (raises_type_error body.operations) type_error
  ok (record {
    findings = patch_findings blocks (pinned_sources project d) body.operations;
    base_version_id = version.id;
  })

-- `validation["status"] == "valid"`
abbrev pub has_no_finding : List Finding → Bool
has_no_finding [] = true
has_no_finding (f ∷ fs) = false

abbrev pub is_valid : Validation → Bool
is_valid v = has_no_finding v.findings

-- The bounds that pydantic checks when a `PatchCreate` is built.
abbrev pub is_in_bounds : Proposal → Bool
is_in_bounds b =
    leb 1 (length b.operations)
    && (leb (length b.operations) 100
        && (leb 1 (text_len b.summary) && leb (text_len b.summary) 2000))

-- `db.query(Patch).filter_by(id=..., workspace_id=...).first()`
unfoldable pub get_patch : RuntimeContext → String → Db → Result Patch
get_patch ctx id d =
    or_raise (find (λ p. p.id == id && p.workspace_id == ctx.workspace_id) d.patches)
      (error resource_not_found 404)
