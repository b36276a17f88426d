-- ===== src/Store/Scopes.antt =====
-- A session together with the tables that one service owns: both are committed and rolled back as one
-- transaction.
use groundloom.Base.{◌+◌}
use groundloom.Store.Transaction.{Session, commit, rollback}

pub record Scope (T : Type 0) : Type 0 where
  pub session : Session
  pub committed : T
  pub work : T

abbrev pub commit_scope : {T : Type 0} → Scope T → Scope T
commit_scope s = record { session = commit s.session; committed = s.work; work = s.work }

abbrev pub rollback_scope : {T : Type 0} → Scope T → Scope T
rollback_scope s = record {
  session = rollback s.session;
  committed = s.committed;
  work = s.committed;
}

abbrev pub within : {T : Type 0} → (Session → Session) → Scope T → Scope T
within f s = record s { session = f s.session }

abbrev pub draw_id : Session → Session
draw_id s = record s { drawn = s.drawn + 1 }
