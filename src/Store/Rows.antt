-- ===== src/Store/Rows.antt =====
-- The rows of backend/app/models.py that the review service reads and writes. Times of creation are
-- left out: a table lists its rows in the order in which they were added.
use groundloom.Base.{ℕ, String, Option, List}
use groundloom.Json.{Fields}
use groundloom.Content.Operations.{PatchOperation, Block}
use groundloom.Content.Operations.Findings.{Finding}

pub record Project : Type 0 where
  pub id : String
  pub workspace_id : String
  pub name : String
  pub status : String
  pub updated_at : ℕ
  pub current_config_version_id : Option String
  pub current_content_version_id : Option String

pub record ProjectConfigVersion : Type 0 where
  pub id : String
  pub workspace_id : String
  pub project_id : String
  pub source_version_ids : List String

-- What `accept_patch` records of a version's origin.
pub record Provenance : Type 0 where
  pub accepted_patch_id : String
  pub actor_id : String
  pub pinned_source_version_ids : List String

pub record ContentVersion : Type 0 where
  pub id : String
  pub workspace_id : String
  pub project_id : String
  pub version_no : ℕ
  pub status : String
  pub parent_version_id : Option String
  pub provenance : Option Provenance

pub record ContentBlock : Type 0 where
  pub content_version_id : String
  pub workspace_id : String
  pub block : Block

pub data PatchStatus : Type 0 where
  draft presented accepted conflicted rejected superseded : PatchStatus

-- What `validate_patch_operations` returns: its status is "valid" if there is no finding.
pub record Validation : Type 0 where
  pub findings : List Finding
  pub base_version_id : String

pub record Patch : Type 0 where
  pub id : String
  pub workspace_id : String
  pub project_id : String
  pub base_content_version_id : String
  pub status : PatchStatus
  pub operations : List PatchOperation
  pub summary : String
  pub validation : Validation
  pub actor_id : String
  pub decision_reason : Option String

pub record IdempotencyRecord : Type 0 where
  pub id : String
  pub workspace_id : String
  pub key : String
  pub operation : String
  pub response : Fields

pub record AuditEvent : Type 0 where
  pub id : String
  pub workspace_id : String
  pub actor_id : String
  pub action : String
  pub target_type : String
  pub target_id : Option String
  pub result : String
  pub correlation_id : String
  pub summary : String

pub record OutboxMessage : Type 0 where
  pub id : String
  pub workspace_id : Option String
  pub event_type : String
  pub aggregate_type : String
  pub aggregate_id : String
  pub payload : Fields
  pub published_at : Option ℕ
  pub attempts : ℕ

pub record Db : Type 0 where
  pub projects : List Project
  pub configs : List ProjectConfigVersion
  pub versions : List ContentVersion
  pub blocks : List ContentBlock
  pub patches : List Patch
  pub idempotency : List IdempotencyRecord
  pub audits : List AuditEvent
  pub outbox : List OutboxMessage
