-- ===== src/Runs/Numbering.antt =====
-- The public events of a run are numbered without a gap, over what is flushed and what is pending.
use groundloom.Base.{
  append_assoc, append_nil, ℕ, ◌+◌, max, String, Option, none, some, List, [], ◌∷◌, ◌++◌, ◌==◌, ◌≡◌,
  refl, arith, inl, inr, length, nat_eq, if◌then◌else◌, Bool-cases, Option-cases, eq_iff,
  text-cases, sym, ◌∙◌, ap, subst,
}
use groundloom.Json.{Fields}
use groundloom.Store.{RuntimeContext, Result, ok, err}
use groundloom.Runs.Tables.{AgentRun, DelegatedTask, PublicEvent, RunSession, flushed, commit_run}
use groundloom.Runs.Events.{max_seq, of_run, new_event, append_event}
use groundloom.Runs.Tasks.{
  process_delegated_task, process_in, parent_run, write_completion, write_task, finished,
  task_event, is_stopped, is_completed,
}

-- The number of a run's last event, if its events are numbered in order from the one after `last`.
abbrev pub follow : String → ℕ → List PublicEvent → Option ℕ
follow run last [] = some last
follow run last (e ∷ es) =
    let next = follow run (last + 1) es in
    let other = follow run last es in
    if e.run_id == run then (if nat_eq e.seq (last + 1) then next else none) else other

abbrev follow_on : String → Option ℕ → List PublicEvent → Option ℕ
follow_on run none es = none
follow_on run (some n) es = follow run n es

-- The events of every run are numbered 1, 2, 3 and so on, in the order in which they were added.
abbrev pub IsNumbered : RunSession → Type 0
IsNumbered s =
    (run : String)
    → follow run 0 (flushed s).public_events ≡ some (length (of_run run (flushed s).public_events))

follow-append :
    (run : String) (n : ℕ) (xs ys : List PublicEvent)
    → follow run n (xs ++ ys) ≡ follow_on run (follow run n xs) ys
follow-append run n [] ys = refl
follow-append run n (e ∷ xs) ys =
    ground (arith, follow-append run (n + 1) xs ys, follow-append run n xs ys)

-- A numbered list ends with its length, and that is its greatest number.
follow-length :
    (run : String) (n k : ℕ) (xs : List PublicEvent)
    → follow run n xs ≡ some k
    → (k ≡ n + length (of_run run xs)) × (max n (max_seq run xs) ≡ k)
follow-length run n k [] h = ground arith
follow-length run n k (e ∷ xs) h =
    ground (arith, follow-length run (n + 1) k xs, follow-length run n k xs)

length-of_run :
    (run : String) (xs ys : List PublicEvent)
    → length (of_run run (xs ++ ys)) ≡ length (of_run run xs) + length (of_run run ys)
length-of_run run [] ys = omega arith
length-of_run run (e ∷ xs) ys = ground (arith, length-of_run run xs ys)

-- The flushed part of a numbered list is numbered: its greatest number is its length.
max_seq-flushed :
    (run : String) (xs ys : List PublicEvent) {n : ℕ}
    → follow run 0 (xs ++ ys) ≡ some n
    → max_seq run xs ≡ length (of_run run xs)
max_seq-flushed run xs ys {n = n} h = elim (Option-cases (follow run 0 xs)) [
  | inl stopped ↦
      let nothing : none ≡ some n =
        sym (ap (λ o. follow_on run o ys) stopped) ∙ sym (follow-append run 0 xs ys) ∙ h in
      absurd (cc nothing)
  | inr (k, reached) ↦ let ends = follow-length run 0 k xs reached in omega (arith, ends.0, ends.1)
]

follow_last :
    (run : String) (n : ℕ) (e : PublicEvent)
    → (e.run_id ≡ run → e.seq ≡ n + 1)
    → follow run n (e ∷ []) ≡ some (n + length (of_run run (e ∷ [])))
follow_last run n e h = elim (text-cases e.run_id run) [
  | inl same ↦ ground (arith, (eq_iff e.run_id run).1 same, h same)
  | inr (differ, _) ↦ ground (arith, differ)
]

-- An event with the next number of its run keeps the numbering.
numbered_next :
    (run : String) (xs ys : List PublicEvent) (e : PublicEvent)
    → follow run 0 (xs ++ ys) ≡ some (length (of_run run (xs ++ ys)))
    → e.seq ≡ max_seq e.run_id xs + length (of_run e.run_id ys) + 1
    → follow run 0 (xs ++ (ys ++ e ∷ [])) ≡ some (length (of_run run (xs ++ (ys ++ e ∷ []))))
numbered_next run xs ys e h k =
    rw (sym (append_assoc xs ys (e ∷ [])), follow-append run 0 (xs ++ ys) (e ∷ []), h)
      (follow_last run (length (of_run run (xs ++ ys))) e (λ same.
          subst (λ r. e.seq ≡ max_seq r xs + length (of_run r ys) + 1) same k
          ∙ omega (arith, max_seq-flushed run xs ys h, length-of_run run xs ys))
        ∙ ap some (sym (length-of_run run (xs ++ ys) (e ∷ []))))

append_event-IsNumbered :
    (ctx : RuntimeContext) (run : AgentRun) (event_type : String) (payload : Fields)
    (s : RunSession)
    → IsNumbered s
    → IsNumbered (append_event ctx run event_type payload s)
unfolding append_event
append_event-IsNumbered ctx run event_type payload s h r =
    numbered_next r s.work.public_events s.pending (new_event ctx run event_type payload s) (h r)
      refl

commit_run-IsNumbered : (s : RunSession) → IsNumbered s → IsNumbered (commit_run s)
commit_run-IsNumbered s h r = rw (append_nil (s.work.public_events ++ s.pending)) (h r)

write_completion-IsNumbered :
    (ctx : RuntimeContext) (run : AgentRun) (t : DelegatedTask) (s : RunSession)
    → IsNumbered s
    → IsNumbered (write_completion ctx run t s)
unfolding write_completion
write_completion-IsNumbered ctx run t s h =
    let started = append_event ctx run "subagent.started" (task_event t "running") s in
    let written = write_task (finished t) started in
    commit_run-IsNumbered
      (append_event ctx run "subagent.completed" (task_event t "completed") written)
      (append_event-IsNumbered ctx run "subagent.completed" (task_event t "completed") written
        (append_event-IsNumbered ctx run "subagent.started" (task_event t "running") s h))

process_in-IsNumbered :
    (ctx : RuntimeContext) (t : DelegatedTask) (r : Result AgentRun) (s : RunSession)
    → IsNumbered s
    → IsNumbered (process_in ctx t r s).1
unfolding process_in
process_in-IsNumbered ctx t (err e) s h = h
process_in-IsNumbered ctx t (ok run) s h = elim (Bool-cases (is_stopped run)) [
  | inl e ↦ rw e (commit_run-IsNumbered s h)
  | inr e ↦ elim (Bool-cases (is_completed t.status)) [
    | inl c ↦ rw e (rw c h)
    | inr c ↦ rw e (rw c (write_completion-IsNumbered ctx run t s h))
  ]
]

-- If the events of every run are numbered 1, 2, 3 and so on, over what is flushed and what is
-- pending, they still are after a delegated task is processed, on each of its branches: the two events
-- that a completed task adds take the next two numbers, although no query sees the first of them.
pub process_delegated_task-IsNumbered :
    (ctx : RuntimeContext) (t : DelegatedTask) (s : RunSession)
    → IsNumbered s
    → IsNumbered (process_delegated_task ctx t s).1
unfolding process_delegated_task
process_delegated_task-IsNumbered ctx t s h =
    process_in-IsNumbered ctx t (parent_run ctx t s.work) s h
