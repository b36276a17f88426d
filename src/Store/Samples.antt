-- ===== src/Store/Samples.antt =====
-- A database without rows, as an input of tests.
use groundloom.Base.{[]}
use groundloom.Store.Rows.{Db}

abbrev pub no_rows : Db
no_rows = record {
  projects = [];
  configs = [];
  versions = [];
  blocks = [];
  patches = [];
  idempotency = [];
  audits = [];
  outbox = [];
}
