-- ===== src/Harness/Streaming.antt =====
-- streaming.py of packages/groundloom-agent-harness: `consume_provider_stream` collects the messages
-- of an agent's stream and projects its progress. A chunk and a message are what the function reads
-- of them; a message's content is not read and is kept as it is.
pub mod Messages
pub mod Events
use Prim.Native.String.{◌++◌ as ◌+++◌}
use groundloom.Base.{
  ℕ, zero, suc, ◌+◌, String, Bool, true, false, Option, none, some, List, [], ◌∷◌, ◌++◌, ◌==◌,
  length, text_take, if◌then◌else◌,
}
use groundloom.Json.{Json, Fields, end, field}
use groundloom.Content.BlockTypes.{mem}

-- `value.get(k)` of a call or a message, for the keys that name it.
pub record Named : Type 0 where
  pub id : Option String
  pub name : Option String
  pub tool_name : Option String
  pub tool_call_id : Option String

pub record Message : Type 0 where
  pub named : Named
  pub message_type : Option String
  -- The type that the name of the message's class gives.
  pub class_type : String
  pub tool_calls : List Named
  pub content : Json

pub record Update : Type 0 where
  pub values : Fields
  pub messages : List Message

pub record NodeUpdate : Type 0 where
  pub node_name : String
  pub update : Option Update

pub data Chunk : Type 0 where
  message_chunk : Message → Option String → Option String → Chunk
  update_chunk : List NodeUpdate → Chunk
  other_chunk : Chunk

pub data Progress : Type 0 where
  model_progress node_progress : String → Progress
  tool_started subagent_started tool_completed subagent_completed :
      String → String → String → Progress

-- `value if value else None`
abbrev pub truthy : Option String → Option String
truthy none = none
truthy (some s) = if s == "" then none else some s

abbrev pub or_text : Option String → String → String
or_text none s = s
or_text (some t) s = t

abbrev pub first_of : Option String → Option String → Option String
first_of none b = b
first_of (some s) b = some s

abbrev pub shorten : ℕ → Option String → Option String
shorten n none = none
shorten n (some s) = some (text_take n s)

abbrev pub message_id : Message → Option String
message_id m = truthy m.named.id

abbrev pub type_of_message : Message → String
type_of_message m = or_text (truthy m.message_type) m.class_type

-- `_tool_name`
unfoldable pub tool_name_of : Named → String
tool_name_of v = or_text (shorten 120 (first_of (truthy v.name) (truthy v.tool_name))) "unknown"

-- `_tool_call_id`
unfoldable pub tool_call_id_of : Named → Option String
tool_call_id_of v = shorten 160 (first_of (truthy v.id) (truthy v.tool_call_id))

-- The messages so far and the place of each message that has an id.
pub record Collected : Type 0 where
  pub target : List Message
  pub positions : List (String × ℕ)

abbrev pub position : String → List (String × ℕ) → Option ℕ
position i [] = none
position i ((j, n) ∷ ps) = if j == i then some n else position i ps

-- `target[n] = message`
abbrev pub set_at : ℕ → Message → List Message → List Message
set_at n m [] = []
set_at zero m (x ∷ xs) = m ∷ xs
set_at (suc n) m (x ∷ xs) = x ∷ set_at n m xs

abbrev pub place : String → Message → Option ℕ → Collected → Collected
place i m none c = record {
  target = c.target ++ m ∷ [];
  positions = (i, length c.target) ∷ c.positions;
}
place i m (some n) c = record c { target = set_at n m c.target }

abbrev pub remember_by : Option String → Message → Collected → Collected
remember_by none m c = record c { target = c.target ++ m ∷ [] }
remember_by (some i) m c = place i m (position i c.positions) c

-- `remember_messages`
unfoldable pub remember_messages : List Message → Collected → Collected
remember_messages [] c = c
remember_messages (m ∷ ms) c = remember_messages ms (remember_by (message_id m) m c)

pub record Projection : Type 0 where
  pub state : Fields
  pub collected : Collected
  pub streamed : Collected
  pub emitted_nodes : List String
  pub emitted_tool_starts : List String
  pub emitted_tool_completions : List String
  pub events : List Progress

abbrev pub for_task : String → Progress → List Progress
for_task name e = if name == "task" then e ∷ [] else []

abbrev pub start_tool : String → String → String → Projection → Projection
start_tool node name id p = if mem id p.emitted_tool_starts then p else record p {
  emitted_tool_starts = id ∷ p.emitted_tool_starts;
  events = p.events ++ tool_started name id node ∷ for_task name (subagent_started name id node);
}

unfoldable pub start_calls : String → List Named → Projection → Projection
start_calls node [] p = p
start_calls node (v ∷ vs) p =
    let name = tool_name_of v in
    start_calls node vs
      (start_tool node name (or_text (tool_call_id_of v) (node +++ ":" +++ name)) p)

abbrev pub complete_tool : String → String → String → Projection → Projection
complete_tool node name id p = if mem id p.emitted_tool_completions then p else record p {
  emitted_tool_completions = id ∷ p.emitted_tool_completions;
  events =
      p.events ++ tool_completed name id node ∷ for_task name (subagent_completed name id node);
}

abbrev pub complete_message : String → Message → Projection → Projection
complete_message node m p =
    if type_of_message m == "tool"
    then complete_tool node (tool_name_of m.named)
        (or_text (tool_call_id_of m.named) (node +++ ":tool")) p
    else p

unfoldable pub project_messages : String → List Message → Projection → Projection
unfolding start_calls
project_messages node [] p = p
project_messages node (m ∷ ms) p =
    project_messages node ms (complete_message node m (start_calls node m.tool_calls p))

abbrev pub show_node : Progress → String → Projection → Projection
show_node e node p =
    if mem node p.emitted_nodes
    then p
    else record p { emitted_nodes = node ∷ p.emitted_nodes; events = p.events ++ e ∷ [] }

-- `state.update(...)`: a key that is there keeps its place.
abbrev pub put : String → Json → Fields → Fields
put k v end = field k v end
put k v (field j w d) = if j == k then field j v d else field j w (put k v d)

abbrev pub put_all : Fields → Fields → Fields
put_all end d = d
put_all (field k v rest) d = put_all rest (put k v d)

abbrev pub apply_update : String → Option Update → Projection → Projection
apply_update node none p = p
apply_update node (some u) p = project_messages node u.messages (record p {
  state = put_all u.values p.state;
  collected = remember_messages u.messages p.collected;
})

unfoldable pub project_updates : List NodeUpdate → Projection → Projection
unfolding project_messages remember_messages
project_updates [] p = p
project_updates (u ∷ us) p =
    let node = text_take 120 u.node_name in
    project_updates us (apply_update node u.update (show_node (node_progress node) node p))

-- One round of the loop, for an item that is not cancelled.
unfoldable pub project_chunk : Chunk → Projection → Projection
unfolding project_updates
project_chunk (message_chunk m graph_node node) p =
    let shown = text_take 120 (or_text (first_of (truthy graph_node) (truthy node)) "model") in
    show_node (model_progress shown) shown
      (record p { streamed = remember_messages (m ∷ []) p.streamed })
project_chunk (update_chunk us) p = project_updates us p
project_chunk other_chunk p = p

-- The loop: `cancel_check` is asked before each item, and its n-th answer is `cancels n`. The result
-- says whether the loop was left by it.
unfoldable pub project_stream : (ℕ → Bool) → ℕ → List Chunk → Projection → Projection × Bool
unfolding project_chunk
project_stream cancels n [] p = (p, false)
project_stream cancels n (c ∷ cs) p =
    let rest = project_stream cancels (suc n) cs (project_chunk c p) in
    if cancels n then (p, true) else rest

abbrev pub nothing_collected : Collected
nothing_collected = record { target = []; positions = [] }

abbrev pub start : Projection
start = record {
  state = end;
  collected = nothing_collected;
  streamed = nothing_collected;
  emitted_nodes = [];
  emitted_tool_starts = [];
  emitted_tool_completions = [];
  events = [];
}

-- `messages or streamed_messages`
abbrev pub or_streamed : List Message → List Message → List Message
or_streamed [] streamed = streamed
or_streamed (m ∷ ms) streamed = m ∷ ms

pub record Stream : Type 0 where
  pub state : Fields
  pub messages : List Message
  pub cancelled : Bool
  pub events : List Progress

abbrev pub result_of : Projection × Bool → Stream
result_of (p, cancelled) = record {
  state = p.state;
  messages = or_streamed p.collected.target p.streamed.target;
  cancelled = cancelled;
  events = p.events;
}

unfoldable pub consume_provider_stream : (ℕ → Bool) → List Chunk → Stream
unfolding project_stream
consume_provider_stream cancels chunks = result_of (project_stream cancels 0 chunks start)
