-- ===== src/Review/Samples.antt =====
-- A small database with two proposals, as an input of the tests.
use groundloom.Base.{String, none, some, List, [], ◌∷◌}
use groundloom.Content.Operations.{Block, number_blocks}
use groundloom.Content.Samples.{tally, version, paragraph, patch}
use groundloom.Store.{
  Db, Session, Project, ContentVersion, ContentBlock, Patch, presented, RuntimeContext,
}
use groundloom.Review.Accept.{DecisionIn}

abbrev pub reviewer : RuntimeContext
reviewer = record {
  user_id = "u1";
  workspace_id = "w1";
  roles = "reviewer" ∷ [];
  correlation_id = "c1";
}

abbrev pub project : Project
project = record {
  id = "p1";
  workspace_id = "w1";
  name = "Plan";
  status = "active";
  updated_at = 1;
  current_config_version_id = none;
  current_content_version_id = some "v1";
}

abbrev pub base : ContentVersion
base = record {
  id = "v1";
  workspace_id = "w1";
  project_id = "p1";
  version_no = 1;
  status = "accepted";
  parent_version_id = none;
  provenance = none;
}

abbrev pub row : Block → ContentBlock
row b = record { content_version_id = "v1"; workspace_id = "w1"; block = b }

abbrev pub proposed : String → Patch
proposed id = record {
  id = id;
  workspace_id = "w1";
  project_id = "p1";
  base_content_version_id = "v1";
  status = presented;
  operations = patch;
  summary = "draft";
  validation = record { findings = []; base_version_id = "v1" };
  actor_id = "u2";
  decision_reason = none;
}

abbrev pub blocks : List Block
blocks = number_blocks 0 version

abbrev pub db : Db
db = record {
  projects = project ∷ [];
  configs = [];
  versions = base ∷ [];
  blocks = row (paragraph "a") ∷ row (paragraph "b") ∷ row (paragraph "c") ∷ [];
  patches = proposed "pat1" ∷ proposed "pat2" ∷ [];
  idempotency = [];
  audits = [];
  outbox = [];
}

abbrev pub session : Session
session = record { committed = db; work = db; uuid4 = tally; drawn = 0 }

abbrev pub decision : DecisionIn
decision = record { reason = none; expected_current_version_id = "v1" }
