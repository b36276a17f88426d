-- ===== src/Exports/Tests.antt =====
-- A version is exported by the inline worker into the local store.
use groundloom.Base.{
  map, String, Bool, true, false, ◌&&◌, if◌then◌else◌, none, List, [], ◌∷◌, ◌==◌, ◌≡◌, refl, any,
  inl, inr, Bool-cases, eq_refl,
}
use groundloom.Store.{
  require, new_id, audit, outbox, Result, ok, err, is_ok, os_error, error, invalid_input,
}
use groundloom.Content.Operations.{Block}
use groundloom.Jobs.{claim}
use groundloom.Review.Reads.{get_project, content_blocks, version_blocks}
use groundloom.Review.Samples.{reviewer, session}
use groundloom.Exports.Rows.{
  is_claimable, ExportJob, completed, Format, md, ExportCreate, ExportTables, ObjectStore,
  ExportSession,
}
use groundloom.Exports.LocalStore.{
  put_bytes, put_at, Disk, local_object_store, path_of, validate_key, path_parts,
}
use groundloom.Exports.Requests.{
  decide_export, perform_export, run_inline, ExportSettings, Clock, export_content,
}
use groundloom.Exports.Worker.{
  claim_export_jobs, run_claimed, run_jobs, process_export_job, decide_process, beat_export,
  run_export_worker_once,
}
use groundloom.Exports.Stored.{AreStored, here, next, exports, works, Reach-AreStored}

-- A disk that holds every file that was written, the newest first, and on which nothing fails.
abbrev same_path : List String → List String → Bool
same_path [] [] = true
same_path (v ∷ vs) (w ∷ ws) = v == w && same_path vs ws
same_path _ _ = false

same_path_refl : (path : List String) → same_path path path ≡ true
same_path_refl [] = refl
same_path_refl (w ∷ ws) = rw (eq_refl w, same_path_refl ws) refl

abbrev Files : Type 0
Files = List (List String × String)

abbrev is_there : List String → Files → Bool
is_there path files = any (λ (p, bytes). same_path p path) files

abbrev read_file : List String → Files → Result String
read_file path [] = err os_error
read_file path ((p, bytes) ∷ files) = if same_path p path then ok bytes else read_file path files

there_if_read :
    (path : List String) (files : Files)
    → is_ok (read_file path files) ≡ true
    → is_there path files ≡ true
there_if_read path [] h = cc h
there_if_read path ((p, bytes) ∷ files) h = elim (Bool-cases (same_path p path)) [
  | inl e ↦ rw e refl
  | inr e ↦ rw e (there_if_read path files (rw e at h))
]

read_after :
    (path other : List String) (bytes : String) (files : Files)
    → is_ok (read_file other files) ≡ true
    → is_ok (read_file other ((path, bytes) ∷ files)) ≡ true
read_after path other bytes files h = elim (Bool-cases (same_path path other)) [
  | inl e ↦ rw e refl
  | inr e ↦ rw e h
]

read_written :
    (path : List String) (bytes : String) (files : Files)
    → read_file path ((path, bytes) ∷ files) ≡ ok bytes
read_written path bytes files = rw (same_path_refl path) refl

abbrev disk : Disk Files String
disk = record {
  make_parents = λ path files. (ok tt, files);
  write_bytes = λ path bytes files. (ok tt, (path, bytes) ∷ files);
  exists = is_there;
  read_bytes = read_file;
  exists-read_bytes = there_if_read;
  read_bytes-write_bytes = λ path bytes files h. read_written path bytes files;
  read_bytes-make_parents = λ path other files h. h;
  read_bytes-kept = read_after;
}

abbrev store : ObjectStore Files String
store = local_object_store disk

key_is_resolved :
    path_of "workspaces/w1/./exports//exp_0.md"
    ≡ ok ("workspaces" ∷ "w1" ∷ "exports" ∷ "exp_0.md" ∷ [])
unfolding path_of validate_key path_parts
key_is_resolved = refl

key_escapes : path_of "workspaces/../../etc" ≡ err (error invalid_input 422)
unfolding path_of validate_key path_parts
key_escapes = refl

abbrev blank : String → List Block → Format → Result String
blank title blocks format = ok title

abbrev no_jobs : ExportTables
no_jobs = record { jobs = []; heartbeats = [] }

abbrev at_start : ExportSession Files
at_start = record {
  scope = record { session = session; committed = no_jobs; work = no_jobs };
  objects = [];
}

abbrev settings : ExportSettings
settings = record { export_inline_local = none; env = "test" }

abbrev body : ExportCreate
body = record { project_id = "p1"; content_version_id = "v1"; format = md; idempotency_key = none }

abbrev clock : Clock
clock = record { asked = 100; started = 101; claimed = 102; ended = 103 }

abbrev exported_once : ExportSession Files
exported_once = (export_content store blank reviewer settings body clock at_start).1

abbrev worked : ExportSession Files
worked = (run_export_worker_once store blank reviewer "x1" 10 200 201 202 exported_once).1

Reach-AreStored_example : AreStored store blank worked
Reach-AreStored_example =
    Reach-AreStored store blank at_start worked
      (next (next here (exports reviewer settings body clock at_start))
        (works reviewer "x1" 10 200 201 202 exported_once))
      (tt, tt)

-- The inline worker has completed the job.
job_is_completed :
    map (λ (j : ExportJob). j.status) exported_once.scope.committed.jobs ≡ completed ∷ []
unfolding export_content decide_export perform_export run_inline run_export_worker_once require
    get_project content_blocks version_blocks claim_export_jobs run_claimed run_jobs
    process_export_job decide_process beat_export local_object_store put_bytes put_at path_of
    validate_key path_parts new_id audit outbox claim is_claimable
job_is_completed = refl
