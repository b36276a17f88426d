-- ===== src/Outbox.antt =====
-- backend/app/outbox.py: delivery of outbox messages. The HTTP client is a parameter.
pub mod Delivered
mod Tests
use groundloom.Base.{
  ℕ, ◌+◌, String, Bool, true, false, Option, none, some, List, [], ◌∷◌, ◌==◌, ◌&&◌, ◌≡◌, not, keep,
  take, leb, ltb, if◌then◌else◌,
}
use groundloom.Json.{Fields}
use groundloom.Store.{
  Session, OutboxMessage, Result, ok, err, Raised, domain, type_error, validation_error, os_error,
  no_result_found, error, dependency_unavailable, outbox_rejected, commit,
}

pub record Message : Type 0 where
  pub id : String
  pub workspace_id : Option String
  pub event_type : String
  pub aggregate_type : String
  pub aggregate_id : String
  pub payload : Fields

abbrev pub message_of : OutboxMessage → Message
message_of r = record {
  id = r.id;
  workspace_id = r.workspace_id;
  event_type = r.event_type;
  aggregate_type = r.aggregate_type;
  aggregate_id = r.aggregate_id;
  payload = r.payload;
}

-- `WebhookDelivery.__call__`, by the status of the answer: none where httpx raises.
abbrev pub check_status : Option ℕ → Result (Unit {0})
check_status none = err (error dependency_unavailable 503)
check_status (some status) =
    if leb 500 status
    then err (error dependency_unavailable 503)
    else if not (leb 200 status && ltb status 300)
    then err (error outbox_rejected 502)
    else ok tt

pub record WebhookDelivery : Type 0 where
  pub url : String
  pub token : Option String

unfoldable pub deliver_webhook :
    {W : Type 0}
    → (WebhookDelivery → Message → W → Option ℕ × W)
    → WebhookDelivery
    → Message
    → W
    → Result (Unit {0}) × W
deliver_webhook post hook m w = let (status, w') = post hook m w in (check_status status, w')

abbrev pub is_pending_at : Option ℕ → Bool
is_pending_at none = true
is_pending_at (some t) = false

abbrev pub is_pending : OutboxMessage → Bool
is_pending r = is_pending_at r.published_at

abbrev pub set_message : OutboxMessage → List OutboxMessage → List OutboxMessage
set_message r [] = []
set_message r (x ∷ xs) = (if x.id == r.id then r else x) ∷ set_message r xs

abbrev pub write_message : OutboxMessage → Session → Session
write_message r s = record s { work = record s.work { outbox = set_message r s.work.outbox } }

abbrev pub attempted : OutboxMessage → OutboxMessage
attempted r = record r { attempts = r.attempts + 1 }

module _ {W : Type 0} (deliver : Message → W → Result (Unit {0}) × W) (clock : String → ℕ) where
  abbrev pub marked : OutboxMessage → OutboxMessage
  marked r = record (attempted r) { published_at = some (clock r.id) }

  -- What a call has done so far: how many rows it published, or what it raised.
  abbrev pub Round : Type 0
  Round = Result ℕ × (Session × W)

  -- A row after its delivery; what is not an error of the domain leaves the loop.
  abbrev pub settle : OutboxMessage → Result (Unit {0}) × W → ℕ → Session → Round
  settle r (ok done, w) n s = (ok (n + 1), (commit (write_message (marked r) s), w))
  settle r (err (domain e), w) n s = (ok n, (commit (write_message (attempted r) s), w))
  settle r (err type_error, w) n s = (err type_error, (write_message (attempted r) s, w))
  settle r (err validation_error, w) n s =
      (err validation_error, (write_message (attempted r) s, w))
  settle r (err no_result_found, w) n s = (err no_result_found, (write_message (attempted r) s, w))
  settle r (err os_error, w) n s = (err os_error, (write_message (attempted r) s, w))

  abbrev pub go_on : Round → (ℕ → Session → W → Round) → Round
  go_on (err e, (s, w)) rest = (err e, (s, w))
  go_on (ok n, (s, w)) rest = rest n s w

  unfoldable pub publish_rows : List OutboxMessage → ℕ → Session → W → Round
  publish_rows [] n s w = (ok n, (s, w))
  publish_rows (r ∷ rs) n s w =
      go_on (settle r (deliver (message_of r) w) n s) (λ n' s' w'. publish_rows rs n' s' w')

  unfoldable pub publish_pending : ℕ → Session → W → Round
  unfolding publish_rows
  publish_pending limit s w = publish_rows (take limit (keep is_pending s.work.outbox)) 0 s w
