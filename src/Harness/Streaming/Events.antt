-- ===== src/Harness/Streaming/Events.antt =====
-- The events that a stream is projected into, and what a cancellation leaves of it.
use groundloom.Base.{
  ℕ, zero, suc, ◌+◌, ◌≤◌, ◌<◌, String, Bool, true, false, Option, none, some, List, [], ◌∷◌, ◌++◌,
  ◌==◌, ◌≡◌, refl, arith, inl, inr, take, length, if◌then◌else◌, Bool-cases, text-cases, text_take,
  eq_iff, sym, ap, subst,
}
use groundloom.Content.BlockTypes.{mem}
use groundloom.Harness.Streaming.{
  Named, Message, NodeUpdate, Update, Chunk, message_chunk, update_chunk, other_chunk, Progress,
  model_progress, node_progress, tool_started, subagent_started, tool_completed, subagent_completed,
  Projection, for_task, start_tool, start_calls, complete_tool, complete_message, project_messages,
  show_node, type_of_message, apply_update, project_updates, project_chunk, project_stream, start,
  result_of, consume_provider_stream, tool_name_of, truthy, first_of, or_text, remember_messages,
}

abbrev pub count : (Progress → Bool) → List Progress → ℕ
count p [] = 0
count p (e ∷ es) = let rest = count p es in if p e then suc rest else rest

-- The event announces the start, or the end, of the call with the id.
abbrev pub is_start : String → Progress → Bool
is_start id (tool_started name i node) = i == id
is_start id _ = false

abbrev pub is_completion : String → Progress → Bool
is_completion id (tool_completed name i node) = i == id
is_completion id _ = false

abbrev bit : Bool → ℕ
bit true = 1
bit false = 0

-- The sets of ids are exactly those of the events, each of which occurs once.
abbrev IsOnce : Projection → Type 0
IsOnce p =
    (id : String)
    → (count (is_start id) p.events ≡ bit (mem id p.emitted_tool_starts))
      × (count (is_completion id) p.events ≡ bit (mem id p.emitted_tool_completions))

count-append :
    (t : Progress → Bool) (es fs : List Progress) → count t (es ++ fs) ≡ count t es + count t fs
count-append t [] fs = omega arith
count-append t (e ∷ es) fs = ground (arith, count-append t es fs)

count-for_task :
    (t : Progress → Bool) (name : String) (e : Progress)
    → t e ≡ false
    → count t (for_task name e) ≡ 0
count-for_task t name e h = ground arith

-- An event with a new id is counted for that id alone.
count_new :
    (t : String → Progress → Bool) (ids : List String) (es fs : List Progress) (e : Progress)
    (id i : String)
    → mem id ids ≡ false
    → t i e ≡ (id == i)
    → count (t i) fs ≡ 0
    → count (t i) es ≡ bit (mem i ids)
    → count (t i) (es ++ e ∷ fs) ≡ bit (mem i (id ∷ ids))
count_new t ids es fs e id i new here none_after h = elim (text-cases id i) [
  | inl same ↦ ground (
    arith,
    count-append (t i) es (e ∷ fs),
    h,
    none_after,
    here,
    (eq_iff id i).1 same,
    subst (λ k. mem k ids ≡ false) same new,
  )
  | inr (differ, _) ↦ ground (arith, count-append (t i) es (e ∷ fs), h, none_after, here, differ)
]

-- Events of another kind do not count.
count_other :
    (t : Progress → Bool) (es fs : List Progress) {n : ℕ}
    → count t fs ≡ 0
    → count t es ≡ n
    → count t (es ++ fs) ≡ n
count_other t es fs h k = omega (arith, count-append t es fs, h, k)

start_tool-IsOnce :
    (node name id : String) (p : Projection) → IsOnce p → IsOnce (start_tool node name id p)
start_tool-IsOnce node name id p h i = elim (Bool-cases (mem id p.emitted_tool_starts)) [
  | inl e ↦ rw e (h i)
  | inr e ↦ rw e (
    count_new is_start p.emitted_tool_starts p.events
        (for_task name (subagent_started name id node)) (tool_started name id node) id i e refl
        (count-for_task (is_start i) name (subagent_started name id node) refl) (h i).0,
    count_other (is_completion i) p.events _
        (count-for_task (is_completion i) name (subagent_started name id node) refl) (h i).1,
  )
]

complete_tool-IsOnce :
    (node name id : String) (p : Projection) → IsOnce p → IsOnce (complete_tool node name id p)
complete_tool-IsOnce node name id p h i = elim (Bool-cases (mem id p.emitted_tool_completions)) [
  | inl e ↦ rw e (h i)
  | inr e ↦ rw e (
    count_other (is_start i) p.events _
        (count-for_task (is_start i) name (subagent_completed name id node) refl) (h i).0,
    count_new is_completion p.emitted_tool_completions p.events
        (for_task name (subagent_completed name id node)) (tool_completed name id node) id i e refl
        (count-for_task (is_completion i) name (subagent_completed name id node) refl) (h i).1,
  )
]

-- An event of a node, which is no tool's.
show_node-IsOnce :
    (e : Progress) (node : String) (p : Projection)
    → ((id : String) → (is_start id e ≡ false) × (is_completion id e ≡ false))
    → IsOnce p
    → IsOnce (show_node e node p)
show_node-IsOnce e node p k h i = elim (Bool-cases (mem node p.emitted_nodes)) [
  | inl n ↦ rw n (h i)
  | inr n ↦ rw n (
    count_other (is_start i) p.events (e ∷ []) (rw (k i).0 refl) (h i).0,
    count_other (is_completion i) p.events (e ∷ []) (rw (k i).1 refl) (h i).1,
  )
]

start_calls-IsOnce :
    (node : String) (vs : List Named) (p : Projection) → IsOnce p → IsOnce (start_calls node vs p)
unfolding start_calls
start_calls-IsOnce node [] p h = h
start_calls-IsOnce node (v ∷ vs) p h =
    start_calls-IsOnce node vs _ (start_tool-IsOnce node (tool_name_of v) _ p h)

complete_message-IsOnce :
    (node : String) (m : Message) (p : Projection) → IsOnce p → IsOnce (complete_message node m p)
complete_message-IsOnce node m p h = elim (Bool-cases (type_of_message m == "tool")) [
  | inl e ↦ rw e (complete_tool-IsOnce node (tool_name_of m.named) _ p h)
  | inr e ↦ rw e h
]

project_messages-IsOnce :
    (node : String) (ms : List Message) (p : Projection)
    → IsOnce p
    → IsOnce (project_messages node ms p)
unfolding project_messages
project_messages-IsOnce node [] p h = h
project_messages-IsOnce node (m ∷ ms) p h =
    project_messages-IsOnce node ms _
      (complete_message-IsOnce node m _ (start_calls-IsOnce node m.tool_calls p h))

apply_update-IsOnce :
    (node : String) (u : Option Update) (p : Projection) → IsOnce p → IsOnce (apply_update node u p)
apply_update-IsOnce node none p h = h
apply_update-IsOnce node (some u) p h = project_messages-IsOnce node u.messages _ h

project_updates-IsOnce :
    (us : List NodeUpdate) (p : Projection) → IsOnce p → IsOnce (project_updates us p)
unfolding project_updates
project_updates-IsOnce [] p h = h
project_updates-IsOnce (u ∷ us) p h = project_updates-IsOnce us _ (
    apply_update-IsOnce _ u.update _ (
      show_node-IsOnce (node_progress (text_take 120 u.node_name)) (text_take 120 u.node_name) p
        (λ id. (refl, refl)) h))

project_chunk-IsOnce : (c : Chunk) (p : Projection) → IsOnce p → IsOnce (project_chunk c p)
unfolding project_chunk
project_chunk-IsOnce (message_chunk m g n) p h =
    let shown = text_take 120 (or_text (first_of (truthy g) (truthy n)) "model") in
    show_node-IsOnce (model_progress shown) shown
      (record p { streamed = remember_messages (m ∷ []) p.streamed }) (λ id. (refl, refl)) h
project_chunk-IsOnce (update_chunk us) p h = project_updates-IsOnce us p h
project_chunk-IsOnce other_chunk p h = h

project_stream-IsOnce :
    (cancels : ℕ → Bool) (n : ℕ) (cs : List Chunk) (p : Projection)
    → IsOnce p
    → IsOnce (project_stream cancels n cs p).0
unfolding project_stream
project_stream-IsOnce cancels n [] p h = h
project_stream-IsOnce cancels n (c ∷ cs) p h = elim (Bool-cases (cancels n)) [
  | inl e ↦ rw e h
  | inr e ↦ rw e (project_stream-IsOnce cancels (suc n) cs _ (project_chunk-IsOnce c p h))
]

bit-le : (b : Bool) → bit b ≤ 1
bit-le b = ground arith

-- However often a stream repeats a tool call or its answer, the start of the call with an id is
-- announced at most once, and so is its completion.
pub consume_provider_stream-once :
    (cancels : ℕ → Bool) (chunks : List Chunk) (id : String)
    → (count (is_start id) (consume_provider_stream cancels chunks).events ≤ 1)
      × (count (is_completion id) (consume_provider_stream cancels chunks).events ≤ 1)
unfolding consume_provider_stream
consume_provider_stream-once cancels chunks id =
    let h = project_stream-IsOnce cancels 0 chunks start (λ i. (refl, refl)) id in
    (subst (λ k. k ≤ 1) (sym h.0) (bit-le _), subst (λ k. k ≤ 1) (sym h.1) (bit-le _))

answer_at :
    (cancels : ℕ → Bool) (m n : ℕ) {answer : Bool} → m ≡ n → cancels m ≡ answer → cancels n ≡ answer
answer_at cancels m n {answer = answer} e h = subst (λ k. cancels k ≡ answer) e h

project_stream-cancelled :
    (cancels : ℕ → Bool) (k n : ℕ) (cs : List Chunk) (p : Projection)
    → ((j : ℕ) → j < k → cancels (j + n) ≡ false)
    → cancels (k + n) ≡ true
    → k < length cs
    → project_stream cancels n cs p ≡ ((project_stream (λ _. false) n (take k cs) p).0, true)
unfolding project_stream
project_stream-cancelled cancels k n [] p h c l = ground arith
project_stream-cancelled cancels zero n (x ∷ cs) p h c l =
    rw (answer_at cancels (0 + n) n (omega arith) c) refl
project_stream-cancelled cancels (suc k) n (x ∷ cs) p h c l =
    rw (answer_at cancels (0 + n) n (omega arith) (h 0 (omega arith))) (
      project_stream-cancelled cancels k (suc n) cs (project_chunk x p)
        (λ j l'.
          answer_at cancels (suc j + n) (j + suc n) (omega arith) (h (suc j) (omega (arith, l'))))
        (answer_at cancels (suc k + n) (k + suc n) (omega arith) c) (omega (arith, l)))

-- If the run is first seen as cancelled before the k-th item, the stream's messages, state and events
-- are those of the k items before it, and the result says that it was cancelled.
pub consume_provider_stream-cancelled :
    (cancels : ℕ → Bool) (k : ℕ) (chunks : List Chunk)
    → ((j : ℕ) → j < k → cancels j ≡ false)
    → cancels k ≡ true
    → k < length chunks
    → consume_provider_stream cancels chunks
      ≡ record (consume_provider_stream (λ _. false) (take k chunks)) { cancelled = true }
unfolding consume_provider_stream
consume_provider_stream-cancelled cancels k chunks h c l = ap result_of (
    project_stream-cancelled cancels k 0 chunks start
      (λ j l'. answer_at cancels j (j + 0) (omega arith) (h j l'))
      (answer_at cancels k (k + 0) (omega arith) c) l)
