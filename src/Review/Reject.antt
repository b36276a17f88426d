-- ===== src/Review/Reject.antt =====
-- `reject_patch`: a presented patch becomes rejected, and no content changes.
pub mod Finality
use groundloom.Base.{String, Option, some, List, [], ◌∷◌}
use groundloom.Json.{str, field, end}
use groundloom.Store.{
  Db, Session, Patch, PatchStatus, presented, rejected, superseded, RuntimeContext, Result, ok, err,
  error, invalid_state, require, ◌>>=◌, ◌>>◌, commit, audit, outbox,
}
use groundloom.Review.Reads.{get_patch}
use groundloom.Review.Writes.{write_patch}

abbrev pub reject_roles : List String
reject_roles = "reviewer" ∷ "workspace_admin" ∷ "organization_admin" ∷ []

pub data Rejection : Type 0 where
  unchanged : Patch → Rejection
  rejects : Patch → Rejection

reject_status : PatchStatus → Patch → Result Rejection
reject_status rejected p = ok (unchanged p)
reject_status superseded p = ok (unchanged p)
reject_status presented p = ok (rejects p)
reject_status _ p = err (error invalid_state 409)

unfoldable pub decide_rejection : RuntimeContext → String → Db → Result Rejection
unfolding reject_status
decide_rejection ctx patch_id d = do
  require ctx reject_roles
  p ← get_patch ctx patch_id d
  reject_status p.status p

unfoldable pub write_rejection : RuntimeContext → Patch → Session → Session
write_rejection ctx p s = commit (
    outbox (some ctx.workspace_id) "PatchRejected" "patch" p.id (field "patch_id" (str p.id) end) (
      audit ctx "patch.rejected" "patch" (some p.id)
        "Rejected proposal; canonical content unchanged" "success" (write_patch p s)))

unfoldable pub perform_rejection :
    RuntimeContext → Option String → Result Rejection → Session → Result Patch × Session
perform_rejection ctx reason (err e) s = (err e, s)
perform_rejection ctx reason (ok (unchanged p)) s = (ok p, s)
perform_rejection ctx reason (ok (rejects p)) s =
    let p' = record p { status = rejected; decision_reason = reason } in
    (ok p', write_rejection ctx p' s)

unfoldable pub reject_patch :
    RuntimeContext → String → Option String → Session → Result Patch × Session
unfolding perform_rejection
reject_patch ctx patch_id reason s =
    perform_rejection ctx reason (decide_rejection ctx patch_id s.work) s
