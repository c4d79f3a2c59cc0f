-- ===== src/Jobs/Persist.antt =====
-- The jobs file: flush, load and Stop. JSON gives back the exported fields that were written, so the
-- file is the list of copies that `snapshotLocked` makes.
use Prim.Native.String.{String}
use text.Mathlib.Text.{◌==◌ as str_eq}
use doc_scraper.Prelude.{
  ℕ, Bool, false, ◌&&◌, List, [], ◌∷◌, Option, none, some, ltb, ◌==◌, if◌then◌else◌,
}
use doc_scraper.Prelude.Assoc.{insert}
use doc_scraper.Jobs.Types.{
  Job, JobManager, Counters, failed, dead, is_active_status, restart_failed_msg,
}
use doc_scraper.Jobs.Table.{snapshot, prune_terminal}

-- Which steps of a write to disk succeed.
pub record Io : Type 0 where
  pub marshal_ok : Bool
  pub mkdir_ok : Bool
  pub write_ok : Bool
  pub rename_ok : Bool

-- `flush`
unfoldable pub flush : Io → Counters → JobManager → JobManager
flush io read m =
    if str_eq m.persist_path ""
    then m
    else if io.marshal_ok && io.mkdir_ok && io.write_ok && io.rename_ok
    then record m { disk = some (snapshot read m); dirty = false }
    else m

-- One tick of `flushLoop`.
unfoldable pub flush_tick : Io → Counters → JobManager → JobManager
flush_tick io read m = if m.dirty then flush io read m else m

-- What `load` finds: no readable file, a text that is no jobs file, or its entries, of which a JSON
-- null is one.
pub data FileRead : Type 0 where
  unreadable unparsable : FileRead
  entries : List (Option Job) → FileRead

-- An in-flight job reloads as failed.
unfoldable pub reclassify : ℕ → Job → Job
reclassify now j =
    if is_active_status j.status
    then record j {
      status = failed;
      error_message = restart_failed_msg;
      completed_at = if j.completed_at == 0 then now else j.completed_at;
    }
    else j

unfoldable pub load_entry : ℕ → Option Job → JobManager → JobManager
unfolding reclassify
load_entry now none m = m
load_entry now (some j) m = if str_eq j.id "" then m else record m {
  jobs = insert j.id (record (reclassify now j) { ctx = dead; progress = none }) m.jobs;
  seq = if ltb m.seq j.seq then j.seq else m.seq;
}

-- The loop of `load`. The greatest number so far stands in `seq`, which is 0 before a load.
unfoldable pub load_entries : ℕ → List (Option Job) → JobManager → JobManager
load_entries now [] m = m
load_entries now (e ∷ es) m = load_entries now es (load_entry now e m)

unfoldable pub load : ℕ → FileRead → JobManager → JobManager
load now unreadable m = m
load now unparsable m = m
load now (entries es) m = prune_terminal (load_entries now es (record m { seq = 0 }))

unfoldable pub empty_manager : String → JobManager
empty_manager path = record {
  jobs = [];
  bysite = [];
  workers = [];
  retired = [];
  seq = 0;
  dirty = false;
  persist_path = path;
  disk = none;
  next_channel = 0;
  closed = [];
}

-- `NewJobManager`
unfoldable pub new_job_manager : ℕ → FileRead → String → JobManager
unfolding empty_manager
new_job_manager now file path =
    if str_eq path "" then empty_manager path else load now file (empty_manager path)

-- `Stop`: a last flush, also when it was called before.
unfoldable pub stop : Io → Counters → JobManager → JobManager
stop io read m = flush io read m
