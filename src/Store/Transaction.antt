-- ===== src/Store/Transaction.antt =====
-- A database session: the rows as the transaction sees them, the rows that are committed, and the
-- random source of `new_id`. A request that raises closes its session, which rolls it back.
-- The factory sets `autoflush=False`; each function modelled here flushes a row that it has added
-- before it reads that table again, so one value holds what is flushed and what is not.
use Prim.Native.String.{◌++◌ as ◌+++◌}
use groundloom.Base.{
  ℕ, ◌+◌, String, Option, none, some, [], find, ◌&&◌, ◌∷◌, ◌++◌, ◌==◌, text_take, if◌then◌else◌,
}
use groundloom.Json.{Fields}
use groundloom.Store.Rows.{Db, IdempotencyRecord}
use groundloom.Store.Errors.{RuntimeContext, Result, ok, err, error, idempotency_conflict}

pub record Session : Type 0 where
  pub committed : Db
  pub work : Db
  -- `uuid4().hex` of the n-th call, and how many calls there were.
  pub uuid4 : ℕ → String
  pub drawn : ℕ

-- ids.py: `f"{prefix}_{uuid4().hex}"`
unfoldable pub new_id : String → String → String
new_id prefix hex = prefix +++ "_" +++ hex

abbrev pub commit : Session → Session
commit s = record s { committed = s.work }

abbrev pub rollback : Session → Session
rollback s = record s { work = s.committed }

-- backend/app/application/audit.py: `audit`
unfoldable pub audit :
    RuntimeContext → String → String → Option String → String → String → Session → Session
audit ctx action target_type target_id summary result s = record s {
  work = record s.work {
    audits =
        s.work.audits
        ++ record {
          id = new_id "aud" (s.uuid4 s.drawn);
          workspace_id = ctx.workspace_id;
          actor_id = ctx.user_id;
          action = action;
          target_type = target_type;
          target_id = target_id;
          result = result;
          correlation_id = ctx.correlation_id;
          summary = text_take 2000 summary;
        }
          ∷ [];
  };
  drawn = s.drawn + 1;
}

-- backend/app/application/events.py: `outbox`
unfoldable pub outbox : Option String → String → String → String → Fields → Session → Session
outbox workspace_id event_type aggregate_type aggregate_id payload s = record s {
  work = record s.work {
    outbox =
        s.work.outbox
        ++ record {
          id = new_id "out" (s.uuid4 s.drawn);
          workspace_id = workspace_id;
          event_type = event_type;
          aggregate_type = aggregate_type;
          aggregate_id = aggregate_id;
          payload = payload;
          published_at = none;
          attempts = 0;
        }
          ∷ [];
  };
  drawn = s.drawn + 1;
}

abbrev pub find_idempotency : String → String → Db → Option IdempotencyRecord
find_idempotency workspace key d =
    find (λ r. r.workspace_id == workspace && r.key == key) d.idempotency

-- The row that `remember_idempotency` adds.
abbrev pub add_idempotency : RuntimeContext → String → String → Fields → Session → Session
add_idempotency ctx key operation response s = record s {
  work = record s.work {
    idempotency =
        s.work.idempotency
        ++ record {
          id = new_id "idem" (s.uuid4 s.drawn);
          workspace_id = ctx.workspace_id;
          key = key;
          operation = operation;
          response = response;
        }
          ∷ [];
  };
  drawn = s.drawn + 1;
}

-- backend/app/application/idempotency.py: `remember_idempotency`, by what is recorded for the key.
abbrev pub remember_with :
    Option IdempotencyRecord
    → RuntimeContext
    → String
    → String
    → Fields
    → Session
    → Result Fields × Session
remember_with none ctx key operation response s =
    (ok response, add_idempotency ctx key operation response s)
remember_with (some r) ctx key operation response s =
    if r.operation == operation
    then (ok r.response, s)
    else (err (error idempotency_conflict 409), s)

-- A missing key and an empty one record nothing.
unfoldable pub remember_idempotency :
    RuntimeContext → Option String → String → Fields → Session → Result Fields × Session
remember_idempotency ctx none operation response s = (ok response, s)
remember_idempotency ctx (some key) operation response s =
    if key == ""
    then (ok response, s)
    else remember_with (find_idempotency ctx.workspace_id key s.work) ctx key operation response s
