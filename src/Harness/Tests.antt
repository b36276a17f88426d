-- ===== src/Harness/Tests.antt =====
-- The harness at concrete inputs, and its theorems there.
use groundloom.Base.{
  map, text_take, ℕ, zero, suc, ◌+◌, ◌-◌, ◌<◌, ◌≤◌, min, Bool, true, false, ◌≡◌, refl, List, [],
  ◌∷◌, none, some, arith, take,
}
use groundloom.Json.{null, end}
use groundloom.Harness.Budgets.{
  BudgetCounter, new_counter, consume, consume_all, granted, exceeded, not_positive, spent, grants,
  repeat, IsWithin,
}
use groundloom.Harness.Budgets.Bounds.{consume_all-IsWithin, grants-consume_all}
use groundloom.Harness.ToolCalls.{
  Event, failed, interrupted, budget_wrap, progress_wrap, ensure_not_cancelled, runtime_context,
  emit, tool_metadata, World, HarnessRuntimeContext, trusted, ToolCall, Call, returned, tool_call,
  visible, default_excluded_tools,
}
use groundloom.Harness.ToolCalls.Outcomes.{promised, tool_call-promised}
use groundloom.Harness.Streaming.{
  Named, Message, Chunk, update_chunk, other_chunk, remember_messages, nothing_collected,
  consume_provider_stream,
}
use groundloom.Harness.Streaming.Messages.{upsert_all, remember_messages-upsert_all}
use groundloom.Harness.Streaming.Events.{
  count, is_start, is_completion, consume_provider_stream-once, consume_provider_stream-cancelled,
}

abbrev two_units : BudgetCounter
two_units = record { limit = 2; used = 0 }

fresh_counter : new_counter 2 ≡ some (record { limit = 2; used = 0 })
unfolding new_counter
fresh_counter = refl

four_calls :
    consume_all (1 ∷ 0 ∷ 2 ∷ 1 ∷ []) (record { limit = 2; used = 0 })
    ≡ (granted 1 ∷ not_positive ∷ exceeded ∷ granted 2 ∷ [], record { limit = 2; used = 2 })
unfolding consume_all consume
four_calls = refl

consume_all-IsWithin_example :
    IsWithin (consume_all (1 ∷ 0 ∷ 2 ∷ 1 ∷ []) two_units).1
    × ((consume_all (1 ∷ 0 ∷ 2 ∷ 1 ∷ []) two_units).1.used
        ≡ two_units.used
          + spent (1 ∷ 0 ∷ 2 ∷ 1 ∷ []) (consume_all (1 ∷ 0 ∷ 2 ∷ 1 ∷ []) two_units).0)
    × ((consume_all (1 ∷ 0 ∷ 2 ∷ 1 ∷ []) two_units).1.limit ≡ two_units.limit)
consume_all-IsWithin_example = consume_all-IsWithin (1 ∷ 0 ∷ 2 ∷ 1 ∷ []) two_units (omega arith)

grants-consume_all_example :
    (grants (consume_all (repeat 5 1) two_units).0 ≡ min 5 (two_units.limit - two_units.used))
    × ((consume_all (repeat 5 1) two_units).1.used ≡ min (two_units.used + 5) two_units.limit)
grants-consume_all_example = grants-consume_all 5 two_units (omega arith)

shown_tools :
    visible default_excluded_tools ("read_file" ∷ "execute" ∷ "task" ∷ [])
    ≡ "read_file" ∷ "task" ∷ []
unfolding visible
shown_tools = refl

abbrev context : HarnessRuntimeContext
context = record { thread_id = "thr1"; has_event_sink = true; cancellation_check = none }

abbrev world : World
world = record { tool_budget = two_units; events = [] }

abbrev search_call : ToolCall
search_call = record { name = some "task"; call_id = some "call1" }

abbrev seven : Call ℕ
seven w = (returned 7, w)

abbrev stopped : Call ℕ
stopped w = (failed (interrupted "CancelledError"), w)

-- A tool that is interrupted has started, and nothing says that it ended.
no_closing_event :
    map
      (λ (e : Event). e.event_type)
      (tool_call (trusted context) search_call stopped world).1.events
    ≡ "tool.started" ∷ "subagent.started" ∷ []
unfolding tool_call budget_wrap progress_wrap ensure_not_cancelled runtime_context emit
    tool_metadata consume text_take
no_closing_event = refl

tool_call-promised_example :
    tool_call (trusted context) search_call seven world ≡ promised context search_call seven world
tool_call-promised_example = tool_call-promised context search_call seven world

abbrev call_named : Named
call_named = record { id = some "call1"; name = some "task"; tool_name = none; tool_call_id = none }

abbrev answer_named : Named
answer_named = record {
  id = none;
  name = some "task";
  tool_name = none;
  tool_call_id = some "call1";
}

abbrev asking : Message
asking = record {
  named = record { id = some "m1"; name = none; tool_name = none; tool_call_id = none };
  message_type = some "ai";
  class_type = "message";
  tool_calls = call_named ∷ [];
  content = null;
}

abbrev answering : Message
answering = record {
  named = answer_named;
  message_type = some "tool";
  class_type = "message";
  tool_calls = [];
  content = null;
}

remember_messages-upsert_all_example :
    (remember_messages (asking ∷ answering ∷ asking ∷ []) nothing_collected).target
    ≡ upsert_all (asking ∷ answering ∷ asking ∷ []) []
remember_messages-upsert_all_example =
    remember_messages-upsert_all (asking ∷ answering ∷ asking ∷ [])

abbrev model_update : Chunk
model_update = update_chunk (
    record {
      node_name = "model";
      update = some (record { values = end; messages = asking ∷ answering ∷ asking ∷ [] });
    }
    ∷ [])

abbrev chunks : List Chunk
chunks = model_update ∷ other_chunk ∷ model_update ∷ []

abbrev never : ℕ → Bool
never n = false

abbrev at_third : ℕ → Bool
at_third (suc (suc n)) = true
at_third _ = false

consume_provider_stream-once_example :
    (count (is_start "call1") (consume_provider_stream never chunks).events ≤ 1)
    × (count (is_completion "call1") (consume_provider_stream never chunks).events ≤ 1)
consume_provider_stream-once_example = consume_provider_stream-once never chunks "call1"

before_third : (j : ℕ) → j < 2 → at_third j ≡ false
before_third zero h = refl
before_third (suc zero) h = refl
before_third (suc (suc j)) h = ground arith

consume_provider_stream-cancelled_example :
    consume_provider_stream at_third chunks
    ≡ record (consume_provider_stream (λ _. false) (take 2 chunks)) { cancelled = true }
consume_provider_stream-cancelled_example =
    consume_provider_stream-cancelled at_third 2 chunks before_third refl (omega arith)
