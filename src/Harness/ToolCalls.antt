-- ===== src/Harness/ToolCalls.antt =====
-- context.py, events.py, cancellation.py, policy.py and middleware.py of
-- packages/groundloom-agent-harness: what happens around one tool call. The asynchronous variants
-- of the middleware have the same text. The handler that runs the tool is a parameter.
pub mod Outcomes
use groundloom.Base.{
  ℕ, ◌+◌, String, Bool, true, false, Option, none, some, List, [], ◌∷◌, ◌++◌, ◌==◌, not, keep,
  text_take, if◌then◌else◌,
}
use groundloom.Json.{Fields, str, field, end}
use groundloom.Content.BlockTypes.{mem}
use groundloom.Harness.Budgets.{
  BudgetCounter, Consumption, granted, exceeded, not_positive, consume,
}

-- What the event sink was called with.
pub record Event : Type 0 where
  pub event_type : String
  pub payload : Fields

-- What the calls of a run share: the budget's counter and the calls of the sink so far.
pub record World : Type 0 where
  pub tool_budget : BudgetCounter
  pub events : List Event

pub record HarnessRuntimeContext : Type 0 where
  pub thread_id : String
  pub has_event_sink : Bool
  pub cancellation_check : Option (World → Bool)

-- The runtime of a request, by what `runtime_context` finds in it.
pub data Runtime : Type 0 where
  no_context incomplete_context : Runtime
  trusted : HarnessRuntimeContext → Runtime

-- What is raised. The last is no `Exception` of Python, as the cancellation of the task is not.
pub data Failure : Type 0 where
  context_required context_incomplete run_cancelled budget_exceeded value_error : Failure
  tool_failure : String → Failure
  interrupted : String → Failure

abbrev pub is_exception : Failure → Bool
is_exception (interrupted name) = false
is_exception _ = true

pub data Attempt (A : Type 0) : Type 0 where
  failed : Failure → Attempt A
  returned : A → Attempt A

-- A call in the world: what it returns or raises, and the world after it.
abbrev pub Call : Type 0 → Type 0
Call A = World → Attempt A × World

abbrev pub resume : {A B : Type 0} (next : A → Call B) → Attempt A × World → Attempt B × World
resume next (failed e, w) = (failed e, w)
resume next (returned a, w) = next a w

abbrev pub after : {A B : Type 0} → Call A → Call B → Call B
after first second w = resume (λ _. second) (first w)

unfoldable pub runtime_context : Runtime → Attempt HarnessRuntimeContext
runtime_context no_context = failed context_required
runtime_context incomplete_context = failed context_incomplete
runtime_context (trusted ctx) = returned ctx

abbrev pub log : HarnessRuntimeContext → String → Fields → World → World
log ctx event_type payload w =
    if ctx.has_event_sink
    then record w {
      events = w.events ++ record { event_type = text_take 120 event_type; payload = payload } ∷ [];
    }
    else w

unfoldable pub emit : Runtime → String → Fields → Call (Unit {0})
unfolding runtime_context
emit runtime event_type payload w =
    resume (λ ctx w'. (returned tt, log ctx event_type payload w')) (runtime_context runtime, w)

abbrev pub is_cancelled : Option (World → Bool) → World → Bool
is_cancelled none w = false
is_cancelled (some check) w = check w

unfoldable pub ensure_not_cancelled : Runtime → Call (Unit {0})
unfolding runtime_context
ensure_not_cancelled runtime w =
    resume
      (λ ctx w'.
        (if is_cancelled ctx.cancellation_check w' then failed run_cancelled else returned tt, w'))
      (runtime_context runtime, w)

-- policy.py: the tools that a model is never shown.
abbrev pub default_excluded_tools : List String
default_excluded_tools = "write_file" ∷ "edit_file" ∷ "delete" ∷ "glob" ∷ "grep" ∷ "execute" ∷ []

unfoldable pub visible : List String → List String → List String
visible excluded tools = keep (λ tool. not (mem tool excluded)) tools

pub record ToolCall : Type 0 where
  pub name : Option String
  pub call_id : Option String

-- `str(value or "unknown")[:limit]`
abbrev pub named : ℕ → Option String → String
named limit none = "unknown"
named limit (some s) = if s == "" then "unknown" else text_take limit s

unfoldable pub tool_metadata : ToolCall → String × String
tool_metadata call = (named 120 call.name, named 160 call.call_id)

-- `BudgetMiddleware.wrap_tool_call`: the counter's answer, then the handler or the error.
abbrev pub answer : Runtime → Consumption → Call (Unit {0})
answer runtime (granted _) w = (returned tt, w)
answer runtime exceeded w =
    after (emit runtime "agent.progress" (field "stage" (str "budget_exhausted") end))
      (λ w'. (failed budget_exceeded, w')) w
answer runtime not_positive w = (failed value_error, w)

abbrev pub consume_one : Runtime → Call (Unit {0})
consume_one runtime w =
    let (consumption, counter) = consume 1 w.tool_budget in
    answer runtime consumption (record w { tool_budget = counter })

unfoldable pub budget_wrap : {A : Type 0} → Runtime → Call A → Call A
unfolding ensure_not_cancelled
budget_wrap runtime handler =
    after (ensure_not_cancelled runtime)
      (after (λ w. resume (λ _. consume_one runtime) (runtime_context runtime, w)) handler)

abbrev pub tool_event : String × String → Fields
tool_event (name, call_id) = field "tool_name" (str name) (field "call_id" (str call_id) end)

abbrev pub status_event : String × String → String → Fields
status_event (name, call_id) status =
    field "tool_name" (str name) (field "call_id" (str call_id) (field "status" (str status) end))

abbrev pub nothing : Call (Unit {0})
nothing w = (returned tt, w)

-- An event of the tool's, and for the tool `task` one of the subagent's.
abbrev pub emit_both : Runtime → String → String → String → Fields → Call (Unit {0})
emit_both runtime name tool_type subagent_type payload =
    after (emit runtime tool_type payload)
      (if name == "task" then emit runtime subagent_type payload else nothing)

-- `ProgressMiddleware._complete`
unfoldable pub complete : Runtime → String × String → String → Call (Unit {0})
complete runtime meta status =
    emit_both runtime meta.0 "tool.completed" "subagent.completed" (status_event meta status)

-- `ProgressMiddleware._run` past the handler: what it raised is raised again, after an event if it is
-- an `Exception`.
abbrev pub finish : {A : Type 0} → Runtime → String × String → Attempt A × World → Attempt A × World
finish runtime meta (failed e, w) =
    if is_exception e
    then after (complete runtime meta "failed") (λ w'. (failed e, w')) w
    else (failed e, w)
finish runtime meta (returned a, w) =
    after (complete runtime meta "completed") (λ w'. (returned a, w')) w

unfoldable pub progress_wrap : {A : Type 0} → Runtime → ToolCall → Call A → Call A
progress_wrap runtime call handler =
    let meta = tool_metadata call in
    after (emit_both runtime meta.0 "tool.started" "subagent.started" (tool_event meta))
      (λ w. finish runtime meta (handler w))

-- `build_harness_middleware` lists the budget before the progress: the budget's wrapper is outside.
unfoldable pub tool_call : {A : Type 0} → Runtime → ToolCall → Call A → Call A
unfolding budget_wrap progress_wrap
tool_call runtime call handler = budget_wrap runtime (progress_wrap runtime call handler)
