-- ===== src/Jobs/Heartbeats.antt =====
-- `WorkerHeartbeat` of backend/app/models.py, and the row that `touch_worker_heartbeat` of
-- backend/app/application/operations.py writes.
use groundloom.Base.{ℕ, String, Option, some, List, [], ◌∷◌, ◌==◌, if◌then◌else◌}
use groundloom.Json.{Fields, field, end}
use groundloom.Store.{RuntimeContext}

pub record WorkerHeartbeat : Type 0 where
  pub worker_id : String
  pub worker_type : String
  pub workspace_id : Option String
  pub status : String
  pub details : Fields
  pub last_seen : ℕ

abbrev pub or_details : Fields → Fields → Fields
or_details end old = old
or_details (field k v d) old = field k v d

abbrev pub beat : WorkerHeartbeat → List WorkerHeartbeat → List WorkerHeartbeat
beat h [] = h ∷ []
beat h (w ∷ ws) =
    if w.worker_id == h.worker_id
    then record h { details = or_details h.details w.details } ∷ ws
    else w ∷ beat h ws

-- The beat of a healthy worker of the context's workspace.
abbrev pub worker_beat : String → RuntimeContext → String → Fields → ℕ → WorkerHeartbeat
worker_beat worker_type ctx worker_id details now = record {
  worker_id = worker_id;
  worker_type = worker_type;
  workspace_id = some ctx.workspace_id;
  status = "healthy";
  details = details;
  last_seen = now;
}
