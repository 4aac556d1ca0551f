-- ===== src/TaskQueue/Tests/Stores.antt =====
-- Runs of the transitions that write several tables, and the theorems at concrete inputs
-- (taskqueue.go, catalog.go, store.go).
use ferret_new.TaskQueue.Recovery.Cleared.{begin_startup-IsIdle, IsIdle}
use ferret_new.FilePath.{clean}
use mathlib.Core.List.{Memᴰ}
use ferret_new.TaskQueue.Slots.Fenced.{stale_completion-IsErr}
use ferret_new.TaskQueue.Bump.Newest.{enqueue_and_bump-Outruns, Outruns}
use ferret_new.TaskQueue.Claim.{any_source}
use ferret_new.Catalog.Paths.{upsert_file-Written, Written}
use ferret_new.TaskQueue.Recovery.{begin_startup, Versions}
use ferret_new.Catalog.{upsert_file, bump_generation, file_by_key, file_by_id}
use ferret_new.TaskQueue.Complete.Current.{complete_committed_batch-IsErr, IsErr}
use ferret_new.TaskQueue.Bump.{catalog_path, enqueue_bumped, enqueue_and_bump}
use ferret_new.TaskQueue.{err, FileStatus, path_key, ok, FileKind, FileRow, Db}
use ferret_new.TaskQueue.Slots.Whole.{SoundAfter, IsSound}
use ferret_new.TaskQueue.Slots.Step.{Holds}
use ferret_new.TaskQueue.Enqueue.{enqueue, new_row}
use ferret_new.TaskQueue.Complete.{
  complete_committed_batch, complete_task, CompleteParams, CommittedTask,
}
use ferret_new.Base.{◌≡◌, refl, arith, true, false, none, some, [], ◌∷◌}
use ferret_new.Base.Int.{pos}
use ferret_new.Base.Bytes.{text_eq, Text}
use ferret_new.Task.{Task, upsert, in_flight, EnqueueParams, EnqueueResult, History}
use ferret_new.TaskQueue.Slots.Store.{
  store_run-SoundAfter, store_run, bumps, queues, restarts, upserts,
}
use ferret_new.TaskQueue.Slots.Run.{claims}

-- The text "/a".
abbrev path : Text
path = b'/' ∷ b'a' ∷ []

abbrev change : EnqueueParams
change = record {
  file_id = none;
  path = path;
  op = upsert;
  old_path = none;
  generation = pos 1;
  priority = pos 5;
  next_attempt_at_ms = 0;
}

abbrev row : FileRow
row = record {
  id = 1;
  path = path;
  size = pos 7;
  mtime_ns = pos 0;
  inode = none;
  sample_hash = [];
  kind = FileKind.text;
  generation = 1;
  status = FileStatus.indexed;
  extractor_version = none;
  embed_model_version = none;
  indexed_at_ms = none;
}

abbrev flying_task : Task
flying_task = record (new_row change 1 0) { file_id = some 1; state = in_flight }

abbrev db : Db
db = record { tasks = flying_task ∷ []; files = row ∷ []; dead_letters = []; audit = [] }

db-IsSound : IsSound db
db-IsSound = record { tasks_unique = (tt, tt); files_unique = (tt, tt) }

abbrev versions : Versions
versions = record { extractor_version = none; embed_model_version = none }

abbrev encode : History → Text
encode h = []

abbrev completion : CompleteParams
completion = record {
  task_id = 1;
  file_id = 1;
  generation = 1;
  status = none;
  indexed_at_ms = some 5;
  extractor_version = none;
  embed_model_version = none;
}

abbrev after_bump : Db × EnqueueResult
after_bump = elim (enqueue_and_bump change 1 db) as (λ _. Db × EnqueueResult) [
  | ok r ↦ r
  | err e ↦ (db, record { task = flying_task; inserted = false })
]

abbrev committed : CommittedTask
committed = record {
  task_id = 1;
  file_id = 1;
  generation = 1;
  stale = false;
  status = none;
  indexed_at_ms = some 5;
}

upsert_file-Written_example : Holds (Written row (row ∷ [])) (upsert_file row (row ∷ []))
upsert_file-Written_example = upsert_file-Written row (row ∷ []) (tt, tt)

store_run-SoundAfter_example :
    SoundAfter db
      (store_run encode (bumps change 1 ∷ upserts row ∷ restarts none versions 2 ∷ []) db)
store_run-SoundAfter_example =
    store_run-SoundAfter encode (bumps change 1 ∷ upserts row ∷ restarts none versions 2 ∷ []) db
      db-IsSound

begin_startup-IsIdle_example :
    Holds
      (λ r. (r.1 ≡ true) × IsIdle r.0.tasks × SoundAfter db r.0)
      (begin_startup none versions 9 db)
begin_startup-IsIdle_example = begin_startup-IsIdle none versions 9 db refl db-IsSound

enqueue_and_bump-Outruns_example :
    Holds
      (λ r.
        Outruns change 1 db (file_by_key (path_key (catalog_path change)) db.files) r.0 r.1.task)
      (enqueue_and_bump change 1 db)
enqueue_and_bump-Outruns_example = enqueue_and_bump-Outruns change 1 db (tt, tt)

bumped_row : enqueue_and_bump change 1 db ≡ ok after_bump
unfolding enqueue_and_bump enqueue_bumped bump_generation catalog_path enqueue path_key clean
    text_eq
bumped_row = refl

known_row : file_by_key (path_key (catalog_path change)) db.files ≡ some row
unfolding file_by_key path_key catalog_path clean text_eq
known_row = refl

stale_completion-IsErr_example :
    let later = store_run encode (queues (claims any_source (pos 8) 2) ∷ []) after_bump.0 in
    IsErr (complete_task completion 9 later)
    × IsErr (complete_committed_batch (committed ∷ []) 9 later)
stale_completion-IsErr_example =
    stale_completion-IsErr encode change row completion committed (committed ∷ [])
      (queues (claims any_source (pos 8) 2) ∷ []) 1 9 db after_bump.0 after_bump.1 db-IsSound
      known_row bumped_row refl (omega arith) (Memᴰ.head refl) refl refl (omega arith)

complete_committed_batch-IsErr_example : IsErr (
    complete_committed_batch
      (committed ∷ [])
      9
      (record db { files = record row { generation = 2 } ∷ [] }))
unfolding file_by_id
complete_committed_batch-IsErr_example =
    complete_committed_batch-IsErr committed (committed ∷ []) 9
      (record db { files = record row { generation = 2 } ∷ [] }) (Memᴰ.head refl) refl
      (record { tasks_unique = (tt, tt); files_unique = (tt, tt) })
      (record row { generation = 2 }, refl, omega arith)
