-- ===== src/Skills/Drafts.antt =====
-- `create_skill`, `fork_skill` and `repair_skill_draft` of backend/app/services.py. The hash of a
-- package is a parameter.
use Prim.Native.String.{◌++◌ as ◌+++◌}
use groundloom.Base.{
  ℕ, ◌+◌, max, String, Bool, true, false, Option, none, some, List, [], ◌∷◌, ◌++◌, ◌==◌, ◌&&◌, ◌||◌,
  not, any, find, keep, is_blank, ltb, if◌then◌else◌,
}
use groundloom.Content.BlockTypes.{mem}
use groundloom.Store.{
  RuntimeContext, Result, ok, err, error, validation_error, permission_denied, resource_not_found,
  invalid_state, invalid_input, raise_if, or_raise, require, ◌>>=◌, ◌>>◌, new_id, audit,
  commit_scope, within, draw_id,
}
use groundloom.Skills.Patterns.{contains_secret}
use groundloom.Skills.Rows.{
  Skill, SkillStatus, draft, published, SkillVersion, SkillTables, SkillSession, belongs,
  SkillCreate, SkillForkCreate, SkillDraftRepair, is_in_bounds,
}

abbrev pub author_roles : List String
author_roles = "author" ∷ "reviewer" ∷ "workspace_admin" ∷ "organization_admin" ∷ []

abbrev pub has_slug : RuntimeContext → String → SkillTables → Bool
has_slug ctx slug d = any (λ k. k.slug == slug && belongs k.workspace_id ctx.workspace_id) d.skills

abbrev pub scope_text : Bool → String
scope_text is_organization = if is_organization then "organization" else "workspace"

abbrev pub next_id : String → ℕ → SkillSession → String
next_id prefix n s = new_id prefix (s.session.uuid4 (s.session.drawn + n))

-- The text whose hash identifies a package.
abbrev pub raw_package : String → String → String → String
raw_package name description content =
    "name: " +++ name +++ "\ndescription: " +++ description +++ "\n\n" +++ content

abbrev pub is_published : SkillStatus → Bool
is_published published = true
is_published _ = false

-- `order_by(version_no.desc()).first()`
abbrev pub newer : SkillVersion → Option SkillVersion → SkillVersion
newer v none = v
newer v (some w) = if ltb v.version_no w.version_no then w else v

abbrev pub newest : List SkillVersion → Option SkillVersion
newest [] = none
newest (v ∷ vs) = some (newer v (newest vs))

abbrev pub or_given : Option String → String → String
or_given none s = s
or_given (some t) s = if t == "" then s else t

-- `func.max(SkillVersion.version_no)` of a skill, or 0.
abbrev pub max_version : String → List SkillVersion → ℕ
max_version skill [] = 0
max_version skill (v ∷ vs) =
    let rest = max_version skill vs in if v.skill_id == skill then max v.version_no rest else rest

abbrev pub add_version : SkillVersion → SkillTables → SkillTables
add_version v d = record d { versions = d.versions ++ v ∷ [] }

module _ (sha256 : String → String) where
  -- The reads and tests of `create_skill`.
  unfoldable pub decide_create : RuntimeContext → SkillCreate → SkillTables → Result (Unit {0})
  decide_create ctx body d = do
    require ctx author_roles
    raise_if (body.is_organization && not (mem "organization_admin" ctx.roles))
        (error permission_denied 403)
    raise_if (has_slug ctx body.slug d) (error invalid_input 422)
    raise_if (contains_secret body.content) (error invalid_input 422)

  abbrev pub created_skill : RuntimeContext → SkillCreate → SkillSession → Skill
  created_skill ctx body s = record {
    id = next_id "sk" 0 s;
    workspace_id = some ctx.workspace_id;
    scope = scope_text body.is_organization;
    slug = body.slug;
    name = body.name;
  }

  abbrev pub first_version : RuntimeContext → SkillCreate → SkillSession → SkillVersion
  first_version ctx body s = record {
    id = next_id "skv" 1 s;
    workspace_id = some ctx.workspace_id;
    skill_id = next_id "sk" 0 s;
    version_no = 1;
    status = draft;
    description = body.description;
    package_json = record {
      content = body.content;
      name = body.name;
      description = body.description;
      repaired_from = none;
    };
    content_hash = sha256 (raw_package body.name body.description body.content);
    actor_id = ctx.user_id;
  }

  abbrev pub write_create : RuntimeContext → SkillCreate → SkillSession → SkillSession
  write_create ctx body s =
      let v = first_version ctx body s in
      commit_scope (
        within
          (λ t.
            audit ctx "skill.draft.created" "skill_version" (some v.id)
              "Created an unpublished skill draft" "success" (draw_id (draw_id t)))
          (record s {
            work =
                add_version v
                  (record s.work { skills = s.work.skills ++ created_skill ctx body s ∷ [] });
          }))

  abbrev pub perform_create :
      RuntimeContext
      → SkillCreate
      → Result (Unit {0})
      → SkillSession
      → Result SkillVersion × SkillSession
  perform_create ctx body (err e) s = (err e, s)
  perform_create ctx body (ok _) s = (ok (first_version ctx body s), write_create ctx body s)

  unfoldable pub create_skill :
      RuntimeContext → SkillCreate → SkillSession → Result SkillVersion × SkillSession
  unfolding decide_create
  create_skill ctx body s = perform_create ctx body (decide_create ctx body s.work) s

  -- The package that a fork creates anew, from the skill and its newest published version.
  abbrev pub forked : SkillForkCreate → Skill → SkillVersion → SkillCreate
  forked body source v = record {
    slug = or_given body.slug (source.slug +++ "-fork");
    name = or_given body.name (source.name +++ " (fork)");
    description = or_given body.description v.description;
    content = v.package_json.content;
    is_organization = false;
  }

  abbrev pub is_shared : Option String → Bool
  is_shared none = true
  is_shared (some w) = false

  unfoldable pub decide_fork :
      RuntimeContext → String → SkillForkCreate → SkillTables → Result SkillCreate
  decide_fork ctx skill_id body d = do
    require ctx author_roles
    source ←
        or_raise
          (find
            (λ k.
              k.id == skill_id
              && (belongs k.workspace_id ctx.workspace_id || is_shared k.workspace_id))
            d.skills)
          (error resource_not_found 404)
    v ←
        or_raise (newest (keep (λ v. v.skill_id == source.id && is_published v.status) d.versions))
          (error invalid_state 409)
    raise_if (is_blank v.package_json.content) (error invalid_state 409)
    raise_if (has_slug ctx (forked body source v).slug d) (error invalid_input 422)
    raise_if (not (is_in_bounds (forked body source v))) validation_error
    ok (forked body source v)

  abbrev pub create_forked :
      RuntimeContext → Result SkillCreate → SkillSession → Result SkillVersion × SkillSession
  create_forked ctx (err e) s = (err e, s)
  create_forked ctx (ok body) s = create_skill ctx body s

  unfoldable pub fork_skill :
      RuntimeContext → String → SkillForkCreate → SkillSession → Result SkillVersion × SkillSession
  unfolding decide_fork create_skill
  fork_skill ctx skill_id body s = create_forked ctx (decide_fork ctx skill_id body s.work) s

  -- The draft that is repaired, and its skill.
  unfoldable pub decide_repair :
      RuntimeContext → String → SkillDraftRepair → SkillTables → Result (SkillVersion × Skill)
  decide_repair ctx version_id body d = do
    require ctx author_roles
    previous ←
        or_raise
          (find (λ v. v.id == version_id && belongs v.workspace_id ctx.workspace_id) d.versions)
          (error resource_not_found 404)
    raise_if (is_published previous.status) (error invalid_state 409)
    skill ←
        or_raise
          (find (λ k. k.id == previous.skill_id && belongs k.workspace_id ctx.workspace_id)
            d.skills)
          (error resource_not_found 404)
    raise_if (contains_secret body.content) (error invalid_input 422)
    ok (previous, skill)

  abbrev pub repaired :
      RuntimeContext → SkillDraftRepair → SkillVersion → Skill → SkillSession → SkillVersion
  repaired ctx body previous skill s = record {
    id = next_id "skv" 0 s;
    workspace_id = some ctx.workspace_id;
    skill_id = skill.id;
    version_no = max_version skill.id s.work.versions + 1;
    status = draft;
    description = body.description;
    package_json = record {
      content = body.content;
      name = skill.name;
      description = body.description;
      repaired_from = some previous.id;
    };
    content_hash = sha256 (raw_package skill.name body.description body.content);
    actor_id = ctx.user_id;
  }

  abbrev pub perform_repair :
      RuntimeContext
      → SkillDraftRepair
      → Result (SkillVersion × Skill)
      → SkillSession
      → Result SkillVersion × SkillSession
  perform_repair ctx body (err e) s = (err e, s)
  perform_repair ctx body (ok (previous, skill)) s =
      let v = repaired ctx body previous skill s in
      (
        ok v,
        commit_scope (
            within
              (λ t.
                audit ctx "skill.draft.repaired" "skill_version" (some v.id)
                  "Created a repaired unpublished skill draft" "success" (draw_id t))
              (record s { work = add_version v s.work })),
      )

  unfoldable pub repair_skill_draft :
      RuntimeContext → String → SkillDraftRepair → SkillSession → Result SkillVersion × SkillSession
  unfolding decide_repair
  repair_skill_draft ctx version_id body s =
      perform_repair ctx body (decide_repair ctx version_id body s.work) s
