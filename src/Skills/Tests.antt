-- ===== src/Skills/Tests.antt =====
-- A skill that is created, published by an administrator and checked again by a member.
use groundloom.Base.{
  String, false, none, some, [], ◌∷◌, ◌≡◌, refl, find, All, is_blank, text_len, if◌then◌else◌,
}
use groundloom.Content.Samples.{tally}
use groundloom.Store.Samples.{no_rows}
use groundloom.Store.{RuntimeContext, ok, require, new_id}
use groundloom.Skills.Patterns.{contains_command, contains_secret}
use groundloom.Skills.Rows.{
  Skill, valid, invalid, published, SkillVersion, SkillTables, SkillSession, SkillCreate,
}
use groundloom.Skills.Lifecycle.{get_version, is_valid_package, validate_skill, publish_skill}
use groundloom.Skills.Drafts.{create_skill, decide_create}
use groundloom.Skills.Keys.{has_version_id, IsKeyed}
use groundloom.Skills.History.{creates, publishes, here, next, Extends, Reach-Extends}
use groundloom.Skills.Vetting.{start, call, IsVetted, KeyedReach-IsVetted, validate_skill-withdraws}

abbrev admin : RuntimeContext
admin = record {
  user_id = "u1";
  workspace_id = "w1";
  roles = "author" ∷ "workspace_admin" ∷ [];
  correlation_id = "c1";
}

-- A member of the workspace without a role that may publish.
abbrev member : RuntimeContext
member = record {
  user_id = "u2";
  workspace_id = "w1";
  roles = "author" ∷ [];
  correlation_id = "c2";
}

abbrev style : Skill
style = record {
  id = "sk0";
  workspace_id = some "w1";
  scope = "workspace";
  slug = "style";
  name = "Style";
}

abbrev style_version : SkillVersion
style_version = record {
  id = "skv0";
  workspace_id = some "w1";
  skill_id = "sk0";
  version_no = 1;
  status = valid;
  description = "Plain style";
  package_json = record {
    content = "Write short sentences.";
    name = "Style";
    description = "Plain style";
    repaired_from = none;
  };
  content_hash = "h";
  actor_id = "u2";
}

abbrev tables : SkillTables
tables = record { skills = style ∷ []; versions = style_version ∷ [] }

abbrev at_start : SkillSession
at_start = record {
  session = record { committed = no_rows; work = no_rows; uuid4 = tally; drawn = 0 };
  committed = tables;
  work = tables;
}

abbrev body : SkillCreate
body = record {
  slug = "tone";
  name = "Tone";
  description = "Plain tone";
  content = "Stay calm.";
  is_organization = false;
}

abbrev same_hash : String → String
same_hash s = "h"

abbrev created : SkillSession
created = (create_skill same_hash member body at_start).1

abbrev published_once : SkillSession
published_once = (publish_skill admin "skv0" created).1

Reach-Extends_example : Extends at_start.work.versions published_once.work.versions
Reach-Extends_example =
    Reach-Extends same_hash at_start published_once
      (next (next here (creates member body at_start)) (publishes admin "skv0" created))

style-IsVetted : All IsVetted at_start.work.versions
unfolding is_valid_package contains_command is_blank text_len
style-IsVetted = (refl, tt)

created-IsKeyed : IsKeyed created.work.versions
unfolding create_skill decide_create require contains_secret new_id
created-IsKeyed = (refl, (refl, tt))

KeyedReach-IsVetted_example : All IsVetted published_once.work.versions
KeyedReach-IsVetted_example =
    KeyedReach-IsVetted same_hash at_start published_once
      (call (call start (refl, tt) (creates member body at_start)) created-IsKeyed
        (publishes admin "skv0" created))
      style-IsVetted

abbrev in_use : SkillVersion
in_use = record style_version { status = published }

abbrev after_publication : SkillSession
after_publication = record at_start { work = record tables { versions = in_use ∷ [] } }

in_use-found : get_version member "skv0" after_publication.work ≡ ok in_use
unfolding get_version
in_use-found = refl

validate_skill-withdraws_example :
    find
      (has_version_id "skv0")
      (validate_skill member "skv0" after_publication).1.committed.versions
    ≡ some (record in_use { status = if is_valid_package in_use then valid else invalid })
validate_skill-withdraws_example =
    validate_skill-withdraws member "skv0" after_publication in_use in_use-found (refl, tt)
