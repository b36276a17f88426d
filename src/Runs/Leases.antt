-- ===== src/Runs/Leases.antt =====
-- What a claim and a retry of delegated tasks promise.
use groundloom.Base.{
  ℕ, ◌+◌, ◌≤◌, String, Bool, true, false, List, [], ◌∷◌, ◌==◌, ◌≡◌, arith, inl, inr, any, leb, All,
  Bool-cases,
}
use groundloom.Store.{RuntimeContext, Result, ok, err, ◌>>=◌, ◌>>◌, require}
use groundloom.Jobs.{claim-exclusive}
use groundloom.Runs.Tables.{DelegatedTask, RunSession}
use groundloom.Runs.Tasks.{
  attempts_of, is_retried, set_task, retried, Retry, unchanged, requeued, decide_task, decide_retry,
  perform_retry, write_retry, retry_delegated_task, task_table, retry_roles, claim_delegated_tasks,
  get_task,
}

abbrev pub has_task_id : String → DelegatedTask → Bool
has_task_id id t = t.id == id

-- No task has been retried more than three times.
abbrev pub IsBounded : DelegatedTask → Type 0
IsBounded t = attempts_of t.result_refs.attempts ≤ 3

set_task-IsBounded :
    (t : DelegatedTask) (ts : List DelegatedTask)
    → IsBounded t
    → All IsBounded ts
    → All IsBounded (set_task t ts)
set_task-IsBounded t [] h k = tt
set_task-IsBounded t (u ∷ us) h k = elim (Bool-cases (u.id == t.id)) [
  | inl e ↦ rw e (h, set_task-IsBounded t us h k.1)
  | inr e ↦ rw e (k.0, set_task-IsBounded t us h k.1)
]

-- A decision to queue a task again leaves it within the bound.
abbrev IsBoundedRetry : Result Retry → Type 0
IsBoundedRetry (ok (requeued t)) = IsBounded (retried t)
IsBoundedRetry _ = Unit

within_limit : (n : ℕ) → leb 3 n ≡ false → n + 1 ≤ 3
within_limit n h = ground arith

decide_task-IsBounded : (t : DelegatedTask) → IsBoundedRetry (decide_task t)
decide_task-IsBounded t = elim (Bool-cases (is_retried t.status)) [
  | inl e ↦ rw e tt
  | inr e ↦ elim (Bool-cases (leb 3 (attempts_of t.result_refs.attempts))) [
    | inl l ↦ rw e (rw l tt)
    | inr l ↦ rw e (rw l (within_limit (attempts_of t.result_refs.attempts) l))
  ]
]

after_task-IsBounded :
    (found : Result DelegatedTask) → IsBoundedRetry (found >>= λ t. decide_task t)
after_task-IsBounded (err e) = tt
after_task-IsBounded (ok t) = decide_task-IsBounded t

after_roles-IsBounded :
    (allowed : Result (Unit {0})) (found : Result DelegatedTask)
    → IsBoundedRetry (allowed >> (found >>= λ t. decide_task t))
after_roles-IsBounded (err e) found = tt
after_roles-IsBounded (ok _) found = after_task-IsBounded found

perform_retry-IsBounded :
    (ctx : RuntimeContext) (r : Result Retry) (s : RunSession)
    → IsBoundedRetry r
    → All IsBounded s.work.tasks
    → All IsBounded (perform_retry ctx r s).1.work.tasks
unfolding perform_retry write_retry
perform_retry-IsBounded ctx (err e) s h k = k
perform_retry-IsBounded ctx (ok (unchanged t)) s h k = k
perform_retry-IsBounded ctx (ok (requeued t)) s h k =
    set_task-IsBounded (retried t) s.work.tasks h k

-- If no task has been retried more than three times, then none has after a call of
-- `retry_delegated_task`, whatever the call does.
pub retry_delegated_task-IsBounded :
    (ctx : RuntimeContext) (task_id : String) (s : RunSession)
    → All IsBounded s.work.tasks
    → All IsBounded (retry_delegated_task ctx task_id s).1.work.tasks
unfolding retry_delegated_task decide_retry
retry_delegated_task-IsBounded ctx task_id s h =
    perform_retry-IsBounded ctx (decide_retry ctx task_id s.work) s
      (after_roles-IsBounded (require ctx retry_roles) (get_task ctx task_id s.work)) h

-- As long as the lease of a first claim lasts, a second claim, whoever makes it, returns none of the
-- tasks that the first one returned.
pub claim_delegated_tasks-exclusive :
    (workspace worker other id : String) (limit limit' lease_seconds lease_seconds' now now' : ℕ)
    (s : RunSession)
    → now' ≤ now + lease_seconds
    → any (has_task_id id) (claim_delegated_tasks workspace worker limit lease_seconds now s).0
      ≡ true
    → any
        (has_task_id id)
        (claim_delegated_tasks workspace other limit' lease_seconds' now'
          (claim_delegated_tasks workspace worker limit lease_seconds now s).1).0
      ≡ false
unfolding claim_delegated_tasks
claim_delegated_tasks-exclusive workspace worker other id limit limit' lease lease' now now' s =
    claim-exclusive (task_table workspace) worker other id limit limit' lease lease' now now'
      s.work.tasks
