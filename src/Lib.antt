-- ===== src/Lib.antt =====
-- Groundloom keeps the content of a project as a chain of immutable versions. An agent or an author
-- proposes a patch against a version; a reviewer accepts it, which writes one new version, or rejects
-- it. The agent works through a harness that bounds its tool calls and projects its progress.
--
-- Base: the shared names, tests on numbers and texts, and Python's list operations over them.
-- Json: JSON values as constructors; a dict is its fields in insertion order.
-- Content: backend/app/content_types.py (BlockTypes: validate_block_payload) and the patch
--   operations of backend/app/schemas.py. Operations is the loop of accept_patch in
--   backend/app/services.py, Operations.Findings the findings of validate_patch_operations there.
--   Their proofs: Identity (ids of blocks), Frame (what an operation changes), Contract (payloads),
--   Places (where blocks stand), Gaps (what the findings do not cover).
-- Store: backend/app/models.py (Rows), errors.py and context.py (Errors), and one database session
--   with its commit, the random source of ids, audit, outbox and idempotency records (Transaction).
-- Review: content_blocks, validate_patch_operations, create_patch, accept_patch and reject_patch of
--   backend/app/services.py. A handler is a decision over the rows, with its guards in the order of
--   the code, followed by its writes. Review uses Content for the findings and the new blocks, and
--   Store for the rows and the transaction. Create.Guards is the proof about every way in which
--   create_patch ends, Accept.Proposed the one about a creation followed by an acceptance.
-- Harness: packages/groundloom-agent-harness/src/groundloom_harness. Budgets is budgets.py, ToolCalls
--   is context.py, events.py, cancellation.py, policy.py and the tool-call part of middleware.py,
--   Streaming is streaming.py.
-- Runs: append_event of backend/app/application/events.py (Events) and the delegated tasks of
--   backend/app/services.py (Tasks: retry_delegated_task, claim_delegated_tasks,
--   process_delegated_task; Worker: run_delegated_worker_once, and touch_worker_heartbeat of
--   backend/app/application/operations.py). Tables has their rows and a session that keeps apart the
--   events that are not flushed. Numbering and Leases are the proofs.
--
-- Jobs: the interface of a table of jobs (Queue) and the claim of its free rows with a lease (Claims),
--   as every worker of backend/app/services.py makes it. Runs fills it with the delegated tasks.
-- Skills: create_skill, fork_skill and repair_skill_draft (Drafts), validate_skill and publish_skill
--   (Lifecycle) of backend/app/services.py, their two regular expressions (Patterns) and rows (Rows).
--   History and Vetting are proofs about any sequence of calls, Keys about distinct ids. A service with
--   tables of its own keeps them beside the session (Store, Scopes), in one transaction with it.
-- Agents: claim_agent_runs and run_agent_worker_once of backend/app/services.py (Worker), with the turn of
--   the agent as a parameter of which nothing is assumed; Rounds is what a round counts.
-- Exports: export_content (Requests), claim_export_jobs, process_export_job and run_export_worker_once
--   (Worker) of backend/app/services.py. The object store is an interface (Rows), which the proof (Stored)
--   takes as a parameter, and LocalObjectStore of backend/app/object_store.py meets it (LocalStore), over
--   a file system that is a parameter; the objects are beside the session, since no rollback brings them
--   back.
-- Retention: the deletion of projects in backend/app/services.py. Requests is update_retention_policy and
--   request_project_deletion, Records _delete_project_records, Worker claim_deletion_requests and
--   process_deletion_request, Rounds run_deletion_worker_once. Blocked and Holds are the proof about
--   legal holds, Shared the one about what a deletion leaves. The files are a parameter.
-- Outbox: publish_pending of backend/app/outbox.py, with the receiver as an interface (Delivered).
-- Projects: list_project_page of backend/app/services.py with its cursors (Pages), the order of its
--   query (Texts, Order) and the proof about all pages together (Paging).
-- Encoded: base64 with stripped padding and the split at a separator, for cursors and tokens.
-- Tokens: backend/app/auth.py. RoundTrip and Signatures are the proofs.
--
-- Conventions. A function of the service takes a session and returns what it returns or raises, with
-- the session after it. uuid4 is a function from the number of calls to texts; where ids must be new,
-- that is a hypothesis. Messages of errors and findings are left out, since code and reason identify
-- them. The TypeError of an unhashable citation and pydantic's bounds on a rebuilt proposal are
-- modelled as errors. All loops are structural recursion over the lists of the source. A client that follows page cursors
-- has as fuel the number of pages it may ask for; one more than there are projects is enough. The text of
-- a number in a payload is written with the number itself as fuel, which is at least its digits.
-- Concurrent calls of a budget counter are a sequence, since its lock
-- makes each one step.
--
-- Not modelled: routes, configuration, migrations, the S3 and search adapters, providers and
-- telemetry, which are input and output; the turns of the agent, approvals, sources, validation and
-- preferences.
pub mod Base
pub mod Json
pub mod Content
pub mod Store
pub mod Review
pub mod Harness
pub mod Jobs
pub mod Runs
pub mod Agents
pub mod Exports
pub mod Retention
pub mod Projects
pub mod Skills
pub mod Outbox
pub mod Encoded
pub mod Tokens
