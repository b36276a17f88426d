-- ===== src/Harness/ToolCalls/Outcomes.antt =====
-- What a tool call does to the budget and to the events, on each branch.
use groundloom.Base.{
  ◌+◌, String, true, false, ◌==◌, ◌≡◌, refl, arith, inl, inr, ltb, if◌then◌else◌, Bool-cases, ◌∙◌,
  ap,
}
use groundloom.Json.{Fields, str, field, end}
use groundloom.Harness.Budgets.{BudgetCounter, granted, exceeded, consume}
use groundloom.Harness.ToolCalls.{
  World, HarnessRuntimeContext, Failure, context_required, context_incomplete, value_error,
  tool_failure, interrupted, after, trusted, run_cancelled, budget_exceeded, Attempt, failed,
  returned, Call, resume, runtime_context, log, emit, emit_both, is_cancelled, ensure_not_cancelled,
  ToolCall, tool_metadata, tool_event, status_event, complete, finish, budget_wrap, progress_wrap,
  tool_call,
}

-- The event of a tool, and for `task` that of the subagent, as a change of the world.
abbrev pub log_both : HarnessRuntimeContext → String → String → String → Fields → World → World
log_both ctx name tool_type subagent_type payload w =
    let w' = log ctx tool_type payload w in
    if name == "task" then log ctx subagent_type payload w' else w'

abbrev pub log_closed : HarnessRuntimeContext → String × String → String → World → World
log_closed ctx meta status w =
    log_both ctx meta.0 "tool.completed" "subagent.completed" (status_event meta status) w

-- A tool that has run: its result, and one closing event with the status of that result. Only what is
-- raised past every `except Exception` has none.
abbrev pub close :
    {A : Type 0} → HarnessRuntimeContext → String × String → Attempt A × World → Attempt A × World
close ctx meta (returned a, w) = (returned a, log_closed ctx meta "completed" w)
close ctx meta (failed (interrupted name), w) = (failed (interrupted name), w)
close ctx meta (failed e, w) = (failed e, log_closed ctx meta "failed" w)

abbrev pub spend : World → World
spend w = record w { tool_budget = record w.tool_budget { used = w.tool_budget.used + 1 } }

abbrev pub run_tool : {A : Type 0} → HarnessRuntimeContext → ToolCall → Call A → Call A
run_tool ctx call handler w =
    let meta = tool_metadata call in
    close ctx meta
      (handler (log_both ctx meta.0 "tool.started" "subagent.started" (tool_event meta) (spend w)))

-- What the middleware promises of a call: a cancelled run spends nothing and says nothing, an
-- exhausted budget is said and nothing runs, and else the tool runs between its two events.
abbrev pub promised : {A : Type 0} → HarnessRuntimeContext → ToolCall → Call A → Call A
promised ctx call handler w =
    if is_cancelled ctx.cancellation_check w
    then (failed run_cancelled, w)
    else if ltb w.tool_budget.used w.tool_budget.limit
    then run_tool ctx call handler w
    else (
      failed budget_exceeded,
      log ctx "agent.progress" (field "stage" (str "budget_exhausted") end) w,
    )

emit_both-trusted :
    (ctx : HarnessRuntimeContext) (name t u : String) (payload : Fields) (w : World)
    → emit_both (trusted ctx) name t u payload w ≡ (returned tt, log_both ctx name t u payload w)
unfolding emit
emit_both-trusted ctx name t u payload w = elim (Bool-cases (name == "task")) [
  | inl e ↦ rw e refl
  | inr e ↦ rw e refl
]

failed-closed :
    {A : Type 0} (ctx : HarnessRuntimeContext) (meta : String × String) (e : Failure) (w : World)
    → after {B = A} (complete (trusted ctx) meta "failed") (λ w'. (failed e, w')) w
      ≡ (failed e, log_closed ctx meta "failed" w)
unfolding complete
failed-closed ctx meta e w =
    rw
      (emit_both-trusted ctx meta.0 "tool.completed" "subagent.completed"
        (status_event meta "failed") w)
      refl

finish-close :
    {A : Type 0} (ctx : HarnessRuntimeContext) (meta : String × String) (r : Attempt A × World)
    → finish (trusted ctx) meta r ≡ close ctx meta r
unfolding complete
finish-close ctx meta (failed (interrupted name), w) = refl
finish-close ctx meta (failed context_required, w) = failed-closed ctx meta context_required w
finish-close ctx meta (failed context_incomplete, w) = failed-closed ctx meta context_incomplete w
finish-close ctx meta (failed run_cancelled, w) = failed-closed ctx meta run_cancelled w
finish-close ctx meta (failed budget_exceeded, w) = failed-closed ctx meta budget_exceeded w
finish-close ctx meta (failed value_error, w) = failed-closed ctx meta value_error w
finish-close ctx meta (failed (tool_failure text), w) = failed-closed ctx meta (tool_failure text) w
finish-close ctx meta (returned a, w) =
    rw
      (emit_both-trusted ctx meta.0 "tool.completed" "subagent.completed"
        (status_event meta "completed") w)
      refl

progress_wrap-run :
    {A : Type 0} (ctx : HarnessRuntimeContext) (call : ToolCall) (handler : Call A) (w : World)
    → progress_wrap (trusted ctx) call handler (spend w) ≡ run_tool ctx call handler w
unfolding progress_wrap
progress_wrap-run ctx call handler w =
    let meta = tool_metadata call in
    ap (resume (λ _ v. finish (trusted ctx) meta (handler v)))
      (emit_both-trusted ctx meta.0 "tool.started" "subagent.started" (tool_event meta) (spend w))
    ∙ finish-close ctx meta (
        handler (log_both ctx meta.0 "tool.started" "subagent.started" (tool_event meta) (spend w)))

consume-left :
    (c : BudgetCounter)
    → ltb c.used c.limit ≡ true
    → consume 1 c ≡ (granted (c.used + 1), record c { used = c.used + 1 })
unfolding consume
consume-left c h = ground arith

consume-full : (c : BudgetCounter) → ltb c.used c.limit ≡ false → consume 1 c ≡ (exceeded, c)
unfolding consume
consume-full c h = ground arith

-- In a trusted context a tool call does what is promised: if the run is cancelled it raises and
-- changes nothing; if the budget is used up it raises, after one event that says so, and no tool
-- runs; otherwise one unit is spent, the tool's start is announced, the handler runs, and its result,
-- returned or raised, is passed on after an event with its status, which only an interruption that is
-- no `Exception` goes without.
pub tool_call-promised :
    {A : Type 0} (ctx : HarnessRuntimeContext) (call : ToolCall) (handler : Call A) (w : World)
    → tool_call (trusted ctx) call handler w ≡ promised ctx call handler w
unfolding tool_call budget_wrap ensure_not_cancelled runtime_context emit
tool_call-promised ctx call handler w = elim (Bool-cases (is_cancelled ctx.cancellation_check w)) [
  | inl e ↦ rw e refl
  | inr e ↦ elim (Bool-cases (ltb w.tool_budget.used w.tool_budget.limit)) [
    | inl l ↦ rw e (rw l (rw (consume-left w.tool_budget l) (progress_wrap-run ctx call handler w)))
    | inr l ↦ rw e (rw l (rw (consume-full w.tool_budget l) refl))
  ]
]
