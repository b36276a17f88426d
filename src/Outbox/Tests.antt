-- ===== src/Outbox/Tests.antt =====
-- Two messages and a receiver that refuses one of them.
use groundloom.Base.{
  ℕ, String, Bool, true, none, some, List, [], ◌∷◌, ◌==◌, ◌≡◌, refl, any, inl, inr, Bool-cases,
  eq_refl, if◌then◌else◌,
}
use groundloom.Json.{end}
use groundloom.Content.Samples.{tally}
use groundloom.Store.{Session, OutboxMessage, Result, ok, err, error, outbox_rejected}
use groundloom.Store.Samples.{no_rows}
use groundloom.Outbox.{Message, publish_pending}
use groundloom.Outbox.Delivered.{Receiver, After, publish_pending-AreDelivered}

abbrev is_id : String → String → Bool
is_id id k = k == id

abbrev accept : Message → List String → Result (Unit {0}) × List String
accept m w =
    if m.event_type == "refused" then (err (error outbox_rejected 502), w) else (ok tt, m.id ∷ w)

accepted_there :
    (m : Message) (w : List String)
    → (accept m w).0 ≡ ok tt
    → any (is_id m.id) (accept m w).1 ≡ true
accepted_there m w h = elim (Bool-cases (m.event_type == "refused")) [
  | inl e ↦ let no = rw e at h in absurd (cc no)
  | inr e ↦ rw e (rw (eq_refl m.id) refl)
]

accepted_kept :
    (m : Message) (id : String) (w : List String)
    → any (is_id id) w ≡ true
    → any (is_id id) (accept m w).1 ≡ true
accepted_kept m id w h = elim (Bool-cases (m.event_type == "refused")) [
  | inl e ↦ rw e h
  | inr e ↦ elim (Bool-cases (m.id == id)) [ inl f ↦ rw e (rw f refl) | inr f ↦ rw e (rw f h) ]
]

abbrev inbox : Receiver (List String)
inbox = record {
  deliver = accept;
  has_received = λ id w. any (is_id id) w;
  has_received-deliver = accepted_there;
  has_received-kept = accepted_kept;
}

abbrev message : String → String → OutboxMessage
message id event_type = record {
  id = id;
  workspace_id = some "w1";
  event_type = event_type;
  aggregate_type = "patch";
  aggregate_id = "pat1";
  payload = end;
  published_at = none;
  attempts = 0;
}

abbrev session : Session
session =
    let rows = record no_rows {
      outbox = message "m1" "refused" ∷ message "m2" "PatchAccepted" ∷ [];
    } in
    record { committed = rows; work = rows; uuid4 = tally; drawn = 0 }

abbrev at_ten : String → ℕ
at_ten id = 10

publish_pending-AreDelivered_example :
    After inbox at_ten (publish_pending accept at_ten 100 session [])
publish_pending-AreDelivered_example =
    publish_pending-AreDelivered inbox at_ten 100 session []
      ((refl, (refl, tt)), (refl, (refl, tt)))
