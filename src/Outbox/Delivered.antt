-- ===== src/Outbox/Delivered.antt =====
-- Rows that are marked published, and a receiver of their messages.
use groundloom.Base.{
  ℕ, zero, suc, String, Bool, true, Option, none, some, List, [], ◌∷◌, ◌==◌, ◌≡◌, refl, inl, inr,
  take, keep, All, All-weaken, All-keep, Bool-cases, ap, subst, sym, ◌∙◌,
}
use groundloom.Store.{
  Session, OutboxMessage, Result, ok, err, domain, type_error, validation_error, no_result_found,
  os_error,
}
use groundloom.Outbox.{
  Message, message_of, is_pending, set_message, attempted, marked, Round, settle, go_on,
  publish_rows, publish_pending,
}

-- What the sender may ask of a receiver: a delivery that returns was received, and no delivery makes it
-- forget a message.
pub record Receiver (W : Type 0) : Type 0 where
  pub deliver : Message → W → Result (Unit {0}) × W
  pub has_received : String → W → Bool
  pub has_received-deliver :
      (m : Message) (w : W) → (deliver m w).0 ≡ ok tt → has_received m.id (deliver m w).1 ≡ true
  pub has_received-kept :
      (m : Message) (id : String) (w : W)
      → has_received id w ≡ true
      → has_received id (deliver m w).1 ≡ true

module _ {W : Type 0} (receiver : Receiver W) (clock : String → ℕ) where
  abbrev pub is_delivered_as : Option ℕ → String → W → Bool
  is_delivered_as none id w = true
  is_delivered_as (some t) id w = receiver.has_received id w

  -- A row that is marked published was received.
  abbrev pub IsDelivered : W → OutboxMessage → Type 0
  IsDelivered w r = is_delivered_as r.published_at r.id w ≡ true

  abbrev pub AreDelivered : Session → W → Type 0
  AreDelivered s w = All (IsDelivered w) s.committed.outbox × All (IsDelivered w) s.work.outbox

  IsDelivered-kept :
      (published_at : Option ℕ) (id : String) (m : Message) (w : W)
      → is_delivered_as published_at id w ≡ true
      → is_delivered_as published_at id (receiver.deliver m w).1 ≡ true
  IsDelivered-kept none id m w h = refl
  IsDelivered-kept (some t) id m w h = receiver.has_received-kept m id w h

  after_delivery :
      (m : Message) (w w' : W) (rs : List OutboxMessage)
      → (receiver.deliver m w).1 ≡ w'
      → All (IsDelivered w) rs
      → All (IsDelivered w') rs
  after_delivery m w w' rs e h =
      All-weaken (IsDelivered w) {Q = IsDelivered w'} rs
        (λ r k. subst (λ v. IsDelivered v r) e (IsDelivered-kept r.published_at r.id m w k)) h

  All-set_message :
      (w : W) (r : OutboxMessage) (xs : List OutboxMessage)
      → IsDelivered w r
      → All (IsDelivered w) xs
      → All (IsDelivered w) (set_message r xs)
  All-set_message w r [] h k = tt
  All-set_message w r (x ∷ xs) h k = elim (Bool-cases (x.id == r.id)) [
    | inl e ↦ rw e (h, All-set_message w r xs h k.1)
    | inr e ↦ rw e (k.0, All-set_message w r xs h k.1)
  ]

  -- The row after an attempt, and the committed rows, under a receiver that has received more.
  after_attempt :
      (r : OutboxMessage) (w w' : W) (s : Session)
      → (receiver.deliver (message_of r) w).1 ≡ w'
      → IsDelivered w r
      → All (IsDelivered w) s.work.outbox
      → All (IsDelivered w') (set_message (attempted r) s.work.outbox)
  after_attempt r w w' s e own h =
      All-set_message w' (attempted r) s.work.outbox
        (subst (λ v. IsDelivered v r) e (IsDelivered-kept r.published_at r.id (message_of r) w own))
        (after_delivery (message_of r) w w' s.work.outbox e h)

  still :
      (r : OutboxMessage) (w w' : W) (s : Session)
      → (receiver.deliver (message_of r) w).1 ≡ w'
      → All (IsDelivered w) s.committed.outbox
      → All (IsDelivered w') s.committed.outbox
  still r w w' s e h = after_delivery (message_of r) w w' s.committed.outbox e h

  abbrev pub After : Round receiver.deliver clock → Type 0
  After (r, (s, w)) = AreDelivered s w

  settle-AreDelivered :
      (r : OutboxMessage) (d : Result (Unit {0}) × W) (n : ℕ) (s : Session) (w : W)
      → receiver.deliver (message_of r) w ≡ d
      → IsDelivered w r
      → AreDelivered s w
      → After (settle receiver.deliver clock r d n s)
  settle-AreDelivered r (ok done, w') n s w e own h =
      let received = receiver.has_received-deliver (message_of r) w (ap (λ p. p.0) e) in
      let here : IsDelivered w' (marked receiver.deliver clock r) =
        subst (λ v. receiver.has_received r.id v ≡ true) (ap (λ p. p.1) e) received in
      let rows =
        All-set_message w' (marked receiver.deliver clock r) s.work.outbox here
          (after_delivery (message_of r) w w' s.work.outbox (ap (λ p. p.1) e) h.1) in
      (rows, rows)
  settle-AreDelivered r (err (domain x), w') n s w e own h =
      let rows = after_attempt r w w' s (ap (λ p. p.1) e) own h.1 in (rows, rows)
  settle-AreDelivered r (err type_error, w') n s w e own h =
      (still r w w' s (ap (λ p. p.1) e) h.0, after_attempt r w w' s (ap (λ p. p.1) e) own h.1)
  settle-AreDelivered r (err validation_error, w') n s w e own h =
      (still r w w' s (ap (λ p. p.1) e) h.0, after_attempt r w w' s (ap (λ p. p.1) e) own h.1)
  settle-AreDelivered r (err no_result_found, w') n s w e own h =
      (still r w w' s (ap (λ p. p.1) e) h.0, after_attempt r w w' s (ap (λ p. p.1) e) own h.1)
  settle-AreDelivered r (err os_error, w') n s w e own h =
      (still r w w' s (ap (λ p. p.1) e) h.0, after_attempt r w w' s (ap (λ p. p.1) e) own h.1)

  -- The receiver after a row was settled.
  settle-world :
      (r : OutboxMessage) (d : Result (Unit {0}) × W) (n : ℕ) (s : Session)
      → (settle receiver.deliver clock r d n s).1.1 ≡ d.1
  settle-world r (ok done, w') n s = refl
  settle-world r (err (domain x), w') n s = refl
  settle-world r (err type_error, w') n s = refl
  settle-world r (err validation_error, w') n s = refl
  settle-world r (err no_result_found, w') n s = refl
  settle-world r (err os_error, w') n s = refl

  go_on-After :
      (round : Round receiver.deliver clock) (rest : ℕ → Session → W → Round receiver.deliver clock)
      → After round
      → ((n : ℕ) (s : Session) (w : W) → round ≡ (ok n, (s, w)) → After (rest n s w))
      → After (go_on receiver.deliver clock round rest)
  go_on-After (err e, (s, w)) rest h f = h
  go_on-After (ok n, (s, w)) rest h f = f n s w refl

  publish_rows-AreDelivered :
      (rs : List OutboxMessage) (n : ℕ) (s : Session) (w : W)
      → All (IsDelivered w) rs
      → AreDelivered s w
      → After (publish_rows receiver.deliver clock rs n s w)
  unfolding publish_rows
  publish_rows-AreDelivered [] n s w k h = h
  publish_rows-AreDelivered (r ∷ rs) n s w k h =
      let d = receiver.deliver (message_of r) w in
      let round = settle receiver.deliver clock r d n s in
      let here = settle-AreDelivered r d n s w refl k.0 h in
      go_on-After round (λ n' s' w'. publish_rows receiver.deliver clock rs n' s' w') here
        (λ n' s' w' e.
          publish_rows-AreDelivered rs n' s' w'
            (after_delivery (message_of r) w w' rs (sym (settle-world r d n s) ∙ ap (λ p. p.1.1) e)
              k.1)
            (subst After e here))

  All-take :
      (w : W) (n : ℕ) (rs : List OutboxMessage)
      → All (IsDelivered w) rs
      → All (IsDelivered w) (take n rs)
  All-take w zero rs h = tt
  All-take w (suc n) [] h = tt
  All-take w (suc n) (r ∷ rs) h = (h.0, All-take w n rs h.1)

  -- Nothing counts as published that was not received: after a call of `publish_pending`, whatever of
  -- its deliveries failed, each row that is marked published was received, if that was so before and
  -- the receiver keeps what it promises.
  pub publish_pending-AreDelivered :
      (limit : ℕ) (s : Session) (w : W)
      → AreDelivered s w
      → After (publish_pending receiver.deliver clock limit s w)
  unfolding publish_pending
  publish_pending-AreDelivered limit s w h =
      publish_rows-AreDelivered (take limit (keep is_pending s.work.outbox)) 0 s w
        (All-take w limit (keep is_pending s.work.outbox)
          (All-keep (IsDelivered w) is_pending s.work.outbox h.1))
        h
