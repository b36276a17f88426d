-- ===== src/Retention/Records.antt =====
-- `_delete_project_records` of backend/app/services.py, and the source versions that it removes.
use groundloom.Base.{
  String, Bool, Option, none, some, List, [], ◌∷◌, ◌++◌, ◌==◌, ◌&&◌, not, keep, map, ltb,
  if◌then◌else◌,
}
use groundloom.Content.BlockTypes.{mem}
use groundloom.Store.{Db, Project, ProjectConfigVersion, RuntimeContext, Scope}
use groundloom.Retention.Rows.{Owned, OfSource, SourceVersion, Source, RetentionTables}

abbrev pub is_of : String → String → String → String → Bool
is_of project workspace p w = p == project && w == workspace

-- The source versions that configurations select.
abbrev pub selections : List ProjectConfigVersion → List String
selections [] = []
selections (c ∷ cs) = c.source_version_ids ++ selections cs

abbrev pub own_configs : String → String → List ProjectConfigVersion → List ProjectConfigVersion
own_configs project workspace configs =
    keep (λ c. is_of project workspace c.project_id c.workspace_id) configs

abbrev pub other_configs : String → String → List ProjectConfigVersion → List ProjectConfigVersion
other_configs project workspace configs =
    keep (λ c. c.workspace_id == workspace && not (c.project_id == project)) configs

-- `selected_source_version_ids - shared_ids`
unfoldable pub removable_ids : String → String → List ProjectConfigVersion → List String
removable_ids project workspace configs =
    keep (λ v. not (mem v (selections (other_configs project workspace configs))))
      (selections (own_configs project workspace configs))

abbrev pub newer : SourceVersion → Option SourceVersion → SourceVersion
newer v none = v
newer v (some w) = if ltb v.version_no w.version_no then w else v

-- `order_by(version_no.desc()).first()`
abbrev pub newest : List SourceVersion → Option SourceVersion
newest [] = none
newest (v ∷ vs) = some (newer v (newest vs))

abbrev pub current_or_deleted : Option SourceVersion → Source → List Source → List Source
current_or_deleted none s rest = rest
current_or_deleted (some v) s rest = record s { current_version_id = some v.id } ∷ rest

-- A source whose versions were deleted points to the newest that is left, or is deleted.
abbrev pub refresh_source : String → List SourceVersion → String → List Source → List Source
refresh_source workspace versions id [] = []
refresh_source workspace versions id (s ∷ ss) =
    let rest = refresh_source workspace versions id ss in
    if s.id == id && s.workspace_id == workspace
    then current_or_deleted
        (newest (keep (λ v. v.source_id == id && v.workspace_id == workspace) versions)) s ss
    else s ∷ rest

abbrev pub refresh_sources : String → List SourceVersion → List String → List Source → List Source
refresh_sources workspace versions [] sources = sources
refresh_sources workspace versions (id ∷ ids) sources =
    refresh_sources workspace versions ids (refresh_source workspace versions id sources)

abbrev pub without_ids : List String → List OfSource → List OfSource
without_ids ids rows = keep (λ r. not (mem r.source_version_id ids)) rows

abbrev pub others : String → String → List Owned → List Owned
others project workspace rows =
    keep (λ r. not (is_of project workspace r.project_id r.workspace_id)) rows

abbrev pub ids_of_owned : String → String → List Owned → List String
ids_of_owned project workspace rows =
    map (λ r. r.id) (keep (λ r. is_of project workspace r.project_id r.workspace_id) rows)

abbrev pub left_versions : List String → List SourceVersion → List SourceVersion
left_versions ids versions = keep (λ v. not (mem v.id ids)) versions

unfoldable pub delete_tables :
    String → String → List ProjectConfigVersion → RetentionTables → RetentionTables
unfolding removable_ids
delete_tables project workspace configs d =
    let removed = removable_ids project workspace configs in
    let validation_ids = ids_of_owned project workspace d.validations in
    let gone = keep (λ v. mem v.id removed) d.source_versions in
    let left = left_versions removed d.source_versions in
    record d {
      findings = keep (λ f. not (mem f.validation_run_id validation_ids)) d.findings;
      validations = keep (λ v. not (mem v.id validation_ids)) d.validations;
      public_events =
          keep (λ e. not (is_of project workspace e.project_id e.workspace_id)) d.public_events;
      todos = others project workspace d.todos;
      tasks = keep (λ t. not (is_of project workspace t.project_id t.workspace_id)) d.tasks;
      runs = keep (λ r. not (is_of project workspace r.project_id r.workspace_id)) d.runs;
      outlines = others project workspace d.outlines;
      exports = keep (λ j. not (is_of project workspace j.project_id j.workspace_id)) d.exports;
      threads = others project workspace d.threads;
      chunks = without_ids removed d.chunks;
      source_blocks = without_ids removed d.source_blocks;
      ingestion_jobs = without_ids removed d.ingestion_jobs;
      source_versions = left;
      sources = refresh_sources workspace left (map (λ v. v.source_id) gone) d.sources;
    }

unfoldable pub delete_rows : String → String → Db → Db
delete_rows project workspace d =
    let content_version_ids =
      map (λ v. v.id)
        (keep (λ v. is_of project workspace v.project_id v.workspace_id) d.versions) in
    record d {
      blocks = keep (λ b. not (mem b.content_version_id content_version_ids)) d.blocks;
      versions = keep (λ v. not (mem v.id content_version_ids)) d.versions;
      patches = keep (λ p. not (is_of project workspace p.project_id p.workspace_id)) d.patches;
      configs = keep (λ c. not (is_of project workspace c.project_id c.workspace_id)) d.configs;
      projects = keep (λ p. not (p.id == project)) d.projects;
    }

unfoldable pub delete_project_records :
    RuntimeContext → Project → Scope RetentionTables → Scope RetentionTables
unfolding delete_tables delete_rows
delete_project_records ctx project s = record s {
  work = delete_tables project.id ctx.workspace_id s.session.work.configs s.work;
  session = record s.session { work = delete_rows project.id ctx.workspace_id s.session.work };
}
