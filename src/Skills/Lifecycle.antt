-- ===== src/Skills/Lifecycle.antt =====
-- `validate_skill` and `publish_skill` of backend/app/services.py.
use groundloom.Base.{
  String, Bool, true, false, some, List, [], ◌∷◌, ◌==◌, ◌&&◌, not, find, is_blank, leb, text_len,
  if◌then◌else◌,
}
use groundloom.Json.{str, field, end}
use groundloom.Store.{
  RuntimeContext, Result, ok, err, Raised, domain, error, status_details, resource_not_found,
  invalid_state, model_output_invalid, raise_if, or_raise, require, ◌>>=◌, ◌>>◌, audit, outbox,
  commit_scope, within,
}
use groundloom.Skills.Patterns.{contains_command}
use groundloom.Skills.Rows.{
  SkillStatus, valid, invalid, approval_pending, published, SkillVersion, SkillTables, SkillSession,
  belongs,
}

unfoldable pub get_version : RuntimeContext → String → SkillTables → Result SkillVersion
get_version ctx id d =
    or_raise (find (λ v. v.id == id && belongs v.workspace_id ctx.workspace_id) d.versions)
      (error resource_not_found 404)

-- The checks of `validate_skill`.
unfoldable pub is_valid_package : SkillVersion → Bool
is_valid_package v =
    not (is_blank v.description)
    && (leb (text_len v.package_json.content) 100000
        && not (contains_command v.package_json.content))

-- `version.status = ...` on the row that was loaded.
abbrev pub set_status : String → SkillStatus → List SkillVersion → List SkillVersion
set_status id status [] = []
set_status id status (v ∷ vs) =
    (if v.id == id then record v { status = status } else v) ∷ set_status id status vs

abbrev pub write_status : String → SkillStatus → SkillSession → SkillSession
write_status id status s = record s {
  work = record s.work { versions = set_status id status s.work.versions };
}

abbrev pub verdict : SkillVersion → SkillStatus
verdict v = if is_valid_package v then valid else invalid

abbrev pub write_validation : RuntimeContext → SkillVersion → SkillSession → SkillSession
write_validation ctx v s = commit_scope (
    within
      (audit ctx "skill.version.validated" "skill_version" (some v.id) "Validated skill package"
        "success")
      (write_status v.id (verdict v) s))

abbrev pub failed_package : Raised
failed_package =
    domain (record {
      code = model_output_invalid;
      status_code = 422;
      details = status_details "invalid";
    })

abbrev pub perform_validation :
    RuntimeContext → Result SkillVersion → SkillSession → Result SkillVersion × SkillSession
perform_validation ctx (err e) s = (err e, s)
perform_validation ctx (ok v) s = (
  if is_valid_package v then ok (record v { status = valid }) else err failed_package,
  write_validation ctx v s,
)

unfoldable pub validate_skill :
    RuntimeContext → String → SkillSession → Result SkillVersion × SkillSession
unfolding get_version is_valid_package
validate_skill ctx version_id s = perform_validation ctx (get_version ctx version_id s.work) s

abbrev pub publish_roles : List String
publish_roles = "workspace_admin" ∷ "organization_admin" ∷ []

abbrev pub is_publishable : SkillStatus → Bool
is_publishable valid = true
is_publishable approval_pending = true
is_publishable _ = false

unfoldable pub decide_publish : RuntimeContext → String → SkillTables → Result SkillVersion
unfolding get_version
decide_publish ctx version_id d = do
  v ← get_version ctx version_id d
  raise_if (not (is_publishable v.status)) (error invalid_state 409)
  require ctx publish_roles
  ok v

abbrev pub write_publish : RuntimeContext → SkillVersion → SkillSession → SkillSession
write_publish ctx v s = commit_scope (
    within
      (λ t.
        outbox (some ctx.workspace_id) "SkillVersionPublished" "skill_version" v.id
          (field "skill_version_id" (str v.id) end)
          (audit ctx "skill.version.published" "skill_version" (some v.id)
            "Published immutable skill version" "success" t))
      (write_status v.id published s))

abbrev pub perform_publish :
    RuntimeContext → Result SkillVersion → SkillSession → Result SkillVersion × SkillSession
perform_publish ctx (err e) s = (err e, s)
perform_publish ctx (ok v) s = (ok (record v { status = published }), write_publish ctx v s)

unfoldable pub publish_skill :
    RuntimeContext → String → SkillSession → Result SkillVersion × SkillSession
unfolding decide_publish
publish_skill ctx version_id s = perform_publish ctx (decide_publish ctx version_id s.work) s
