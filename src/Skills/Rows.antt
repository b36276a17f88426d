-- ===== src/Skills/Rows.antt =====
-- `Skill` and `SkillVersion` of backend/app/models.py, and the bodies of the skill requests of
-- backend/app/schemas.py with their bounds.
use Prim.Native.Char.{code}
use groundloom.Base.{
  ℕ, String, Bool, true, false, Option, none, some, List, ◌==◌, ◌&&◌, ◌||◌, leb, nat_eq, text_len,
}
use groundloom.Store.{Scope}

pub record Skill : Type 0 where
  pub id : String
  pub workspace_id : Option String
  pub scope : String
  pub slug : String
  pub name : String

pub data SkillStatus : Type 0 where
  draft valid invalid approval_pending published : SkillStatus

-- `package_json`: the content, the frontmatter and the version that this one repairs.
pub record SkillPackage : Type 0 where
  pub content : String
  pub name : String
  pub description : String
  pub repaired_from : Option String

pub record SkillVersion : Type 0 where
  pub id : String
  pub workspace_id : Option String
  pub skill_id : String
  pub version_no : ℕ
  pub status : SkillStatus
  pub description : String
  pub package_json : SkillPackage
  pub content_hash : String
  pub actor_id : String

pub record SkillTables : Type 0 where
  pub skills : List Skill
  pub versions : List SkillVersion

abbrev pub SkillSession : Type 0
SkillSession = Scope SkillTables

-- `row.workspace_id == workspace`
abbrev pub belongs : Option String → String → Bool
belongs none workspace = false
belongs (some w) workspace = w == workspace

pub record SkillCreate : Type 0 where
  pub slug : String
  pub name : String
  pub description : String
  pub content : String
  pub is_organization : Bool

pub record SkillForkCreate : Type 0 where
  pub slug : Option String
  pub name : Option String
  pub description : Option String

pub record SkillDraftRepair : Type 0 where
  pub description : String
  pub content : String

abbrev is_slug_start : ℕ → Bool
is_slug_start c = (leb 97 c && leb c 122) || (leb 48 c && leb c 57)

all_slug : String → Bool
all_slug String.[] = true
all_slug (String.◌∷◌ c s) = (is_slug_start (code c) || nat_eq (code c) 45) && all_slug s

-- `^[a-z0-9][a-z0-9-]{1,119}$`
is_slug : String → Bool
unfolding all_slug
is_slug String.[] = false
is_slug (String.◌∷◌ c s) =
    is_slug_start (code c) && (all_slug s && (leb 1 (text_len s) && leb (text_len s) 119))

abbrev is_between : ℕ → String → Bool
is_between most s = leb 1 (text_len s) && leb (text_len s) most

-- What pydantic checks when a `SkillCreate` is built.
unfoldable pub is_in_bounds : SkillCreate → Bool
unfolding is_slug
is_in_bounds b =
    is_slug b.slug
    && (is_between 200 b.name && (is_between 5000 b.description && is_between 100000 b.content))
