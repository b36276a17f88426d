-- ===== src/Retention/Rounds.antt =====
-- `run_deletion_worker_once` of backend/app/services.py.
use groundloom.Base.{ℕ, ◌+◌, String, List, [], ◌∷◌, length}
use groundloom.Json.{Fields, field, end}
use groundloom.Json.Numbers.{json_number}
use groundloom.Store.{RuntimeContext, Result, ok, err, Scope, commit_scope}
use groundloom.Jobs.{WorkerHeartbeat, beat, worker_beat}
use groundloom.Retention.Rows.{
  DeletionStatus, blocked, completed, failed, DeletionRequest, RetentionTables, Files,
  RetentionSession,
}
use groundloom.Retention.Worker.{claim_deletion_requests, process_deletion_request}

-- What one round of the worker counts.
pub record Summary : Type 0 where
  pub claimed : ℕ
  pub completed : ℕ
  pub blocked : ℕ
  pub failed : ℕ

abbrev pub count_status : DeletionStatus → Summary → Summary
count_status completed n = record n { completed = n.completed + 1 }
count_status blocked n = record n { blocked = n.blocked + 1 }
count_status failed n = record n { failed = n.failed + 1 }
count_status _ n = n

abbrev pub summary_details : Summary → Fields
summary_details n = field "claimed" (json_number n.claimed) (
    field "completed" (json_number n.completed)
      (field "blocked" (json_number n.blocked) (field "failed" (json_number n.failed) end)))

unfoldable pub beat_retention : WorkerHeartbeat → Scope RetentionTables → Scope RetentionTables
beat_retention h s =
    commit_scope (record s { work = record s.work { heartbeats = beat h s.work.heartbeats } })

abbrev pub nothing_counted : ℕ → Summary
nothing_counted claimed = record { claimed = claimed; completed = 0; blocked = 0; failed = 0 }

module _ {S : Type 0} (store : Files S) (clock : String → ℕ) where
  -- A request that is processed is counted by its status; what is raised leaves the loop.
  abbrev pub counted :
      Result DeletionRequest × RetentionSession S
      → Summary
      → (Summary → RetentionSession S → Result Summary × RetentionSession S)
      → Result Summary × RetentionSession S
  counted (err e, s) n rest = (err e, s)
  counted (ok r, s) n rest = rest (count_status r.status n) s

  -- The loop over the claimed requests; `clock` is the time at which each is completed.
  unfoldable pub run_requests :
      RuntimeContext
      → List DeletionRequest
      → Summary
      → RetentionSession S
      → Result Summary × RetentionSession S
  unfolding process_deletion_request
  run_requests ctx [] n s = (ok n, s)
  run_requests ctx (r ∷ rs) n s =
      counted (process_deletion_request store ctx (clock r.id) r s) n
        (λ n' s'. run_requests ctx rs n' s')

  abbrev pub retention_beat :
      RuntimeContext → String → Fields → ℕ → RetentionSession S → RetentionSession S
  retention_beat ctx worker_id details now s = record s {
    scope = beat_retention (worker_beat "retention" ctx worker_id details now) s.scope;
  }

  unfoldable pub run_claimed :
      RuntimeContext
      → List DeletionRequest × Scope RetentionTables
      → RetentionSession S
      → Result Summary × RetentionSession S
  unfolding run_requests
  run_claimed ctx (rs, scope) s =
      run_requests ctx rs (nothing_counted (length rs)) (record s { scope = scope })

  unfoldable pub end_round :
      RuntimeContext
      → String
      → ℕ
      → Result Summary × RetentionSession S
      → Result Summary × RetentionSession S
  unfolding beat_retention
  end_round ctx worker_id now (err e, s) = (err e, s)
  end_round ctx worker_id now (ok n, s) =
      (ok n, retention_beat ctx worker_id (summary_details n) now s)

  -- `now`, `now'` and `now''` are the readings of the clock for the beats and the claim.
  unfoldable pub run_deletion_worker_once :
      RuntimeContext
      → String
      → ℕ
      → ℕ
      → ℕ
      → ℕ
      → RetentionSession S
      → Result Summary × RetentionSession S
  unfolding run_claimed claim_deletion_requests end_round beat_retention
  run_deletion_worker_once ctx worker_id limit now now' now'' s =
      let ready = retention_beat ctx worker_id (field "limit" (json_number limit) end) now s in
      end_round ctx worker_id now'' (
        run_claimed ctx
          (claim_deletion_requests ctx.workspace_id worker_id limit 300 now' ready.scope) ready)
