-- ===== src/Runs/Events.antt =====
-- `append_event` of backend/app/application/events.py.
use groundloom.Base.{
  ℕ, ◌+◌, max, String, some, List, [], ◌∷◌, ◌++◌, ◌==◌, keep, length, if◌then◌else◌,
}
use groundloom.Json.{Fields, str, field}
use groundloom.Json.Numbers.{json_number}
use groundloom.Store.{Session, RuntimeContext, new_id, outbox}
use groundloom.Runs.Tables.{AgentRun, PublicEvent, RunSession, in_session}

-- `db.query(func.max(PublicEvent.seq)).filter_by(run_id=run.id).scalar() or 0`
abbrev pub max_seq : String → List PublicEvent → ℕ
max_seq run [] = 0
max_seq run (e ∷ es) = let rest = max_seq run es in if e.run_id == run then max e.seq rest else rest

abbrev pub of_run : String → List PublicEvent → List PublicEvent
of_run run es = keep (λ e. e.run_id == run) es

abbrev pub next_seq : String → RunSession → ℕ
next_seq run s = max_seq run s.work.public_events + length (of_run run s.pending) + 1

abbrev pub new_event : RuntimeContext → AgentRun → String → Fields → RunSession → PublicEvent
new_event ctx run event_type payload s = record {
  id = new_id "evt" (s.session.uuid4 s.session.drawn);
  workspace_id = ctx.workspace_id;
  project_id = run.project_id;
  run_id = run.id;
  thread_id = run.thread_id;
  seq = next_seq run.id s;
  schema_version = 1;
  event_type = event_type;
  payload = payload;
}

abbrev pub draw_one : Session → Session
draw_one s = record s { drawn = s.drawn + 1 }

unfoldable pub append_event : RuntimeContext → AgentRun → String → Fields → RunSession → RunSession
unfolding json_number
append_event ctx run event_type payload s =
    let e = new_event ctx run event_type payload s in
    in_session
      (λ t.
        outbox (some ctx.workspace_id) event_type "agent_run" run.id
          (field "event_id" (str e.id) (field "seq" (json_number e.seq) payload)) (draw_one t))
      (record s { pending = s.pending ++ e ∷ [] })
