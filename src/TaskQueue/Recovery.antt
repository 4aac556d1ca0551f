-- ===== src/TaskQueue/Recovery.antt =====
-- Recovery of the tasks that were in flight when the process crashed (store.go: beginStartup,
-- recoverInFlightTx), and redriving dead letters (deadletter.go: redriveDeadLettersTx).
pub mod Cleared
use ferret_new.Base.{
  ℕ, ◌+◌, Bool, true, false, not, ◌&&◌, Option, none, some, List, [], ◌∷◌, ltb, leb, ◌==◌,
  if◌then◌else◌, any,
}
use ferret_new.Base.Int.{ℤ, pos, is_neg}
use ferret_new.Base.Bytes.{Text, text_eq, codes}
use ferret_new.Task.{
  Task, TaskState, TaskOp, pending, in_flight, dead, state_eq, History, HistoryEntry, attempted,
  crashed, EnqueueParams, EnqueueResult,
}
use ferret_new.TaskQueue.{
  FileRow, Db, DeadRow, FileStatus, Result, ok, err, and_then, ◌>>=◌, ◌>>◌, guard, path_key,
  find_other, delete_where, has_id, update_in_flight, not_found, stale_generation,
  invalid_transition,
}
use ferret_new.TaskQueue.History.{append_failure_history}
use ferret_new.TaskQueue.Enqueue.{enqueue}
use ferret_new.TaskQueue.Complete.{anchor_dead, bury, dead_row, DeadLetterInfo, enqueue_audit}
use ferret_new.Catalog.{file_by_id, set_current}

-- ORDER BY task_id
unfoldable pub insert_by_id : Task → List Task → List Task
insert_by_id t [] = t ∷ []
insert_by_id t (u ∷ us) =
    let rest = insert_by_id t us in if ltb u.id t.id then u ∷ rest else t ∷ (u ∷ us)

unfoldable pub flying : List Task → List Task
flying [] = []
flying (t ∷ ts) =
    let rest = flying ts in if state_eq t.state in_flight then insert_by_id t rest else rest

-- The state after one more crash.
abbrev pub target_of : Task → TaskState
target_of t = if leb 2 (t.crash_count + 1) then dead else pending

abbrev pub is_dead : TaskState → Bool
is_dead dead = true
is_dead _ = false

abbrev pub crash_message : TaskState → Text
crash_message dead = codes "task crashed the process repeatedly"
crash_message _ = codes "process exited while task was in flight"

abbrev attempted_at : ℕ → ℕ → ℕ
attempted_at updated now = if updated == 0 then now else updated

pub record Versions : Type 0 where
  pub extractor_version : Option Text
  pub embed_model_version : Option Text

unfoldable pub recovered_row : TaskState → History → History → ℕ → Task → Task
recovered_row target log chain now t = record t {
  crash_count = t.crash_count + 1;
  state = target;
  next_attempt_at_ms = 0;
  last_error = some (crash_message target);
  attempts_log = log;
  error_chain = chain;
  updated_at_ms = now;
}

abbrev pub poison_info : Versions → History → History → DeadLetterInfo
poison_info versions log chain = record {
  stage = codes "unknown";
  error_class = codes "poison";
  error_chain = chain;
  attempts_log = log;
  extractor_version = versions.extractor_version;
  embed_model_version = versions.embed_model_version;
}

-- The dead letter of a task that crashed the process repeatedly.
unfoldable pub bury_poison : Versions → ℕ → Task → History → History → Db → Result Db
bury_poison versions now t log chain db =
    let (db', file) = anchor_dead t.file_id t db in
    bury (codes "crash_recovery") t (dead_row t (poison_info versions log chain) file chain log now)
      db'

-- A task whose target slot is free.
unfoldable pub requeue : Versions → ℕ → Task → Db → Result Db
requeue versions now t db = do
  log ← append_failure_history t.attempts_log (
      attempted t.attempts (attempted_at t.updated_at_ms now) (codes "poison")
        (crash_message (target_of t)))
  chain ← append_failure_history t.error_chain (crashed (crash_message (target_of t)))
  ts ← update_in_flight t.id (recovered_row (target_of t) log chain now) db.tasks
  if is_dead (target_of t)
      then bury_poison versions now t log chain (record db { tasks = ts })
      else ok (record db { tasks = ts })

-- The switch on the occupant of the target slot.
unfoldable pub recover_from : Option Task → Versions → ℕ → Task → Db → Result Db
recover_from none versions now t db = requeue versions now t db
recover_from (some occupant) versions now t db =
    if ltb t.generation occupant.generation
    then ok (record db { tasks = delete_where (has_id t.id) db.tasks })
    else requeue versions now t (record db { tasks = delete_where (has_id occupant.id) db.tasks })

unfoldable pub recover_all : Versions → ℕ → List Task → Db → Result Db
recover_all versions now [] db = ok db
recover_all versions now (t ∷ ts) db = do
  db' ← recover_from (find_other t.id (path_key t.path) (target_of t) db.tasks) versions now t db
  recover_all versions now ts db'

-- recoverInFlightTx
unfoldable pub recover_in_flight : Versions → ℕ → Db → Result Db
recover_in_flight versions now db = recover_all versions now (flying db.tasks) db

-- beginStartup, from the clean-shutdown marker; the marker that it writes is in the table meta.
unfoldable pub begin_startup : Option Text → Versions → ℕ → Db → Result (Db × Bool)
begin_startup clean versions now db =
    if elim clean [ none ↦ false | some v ↦ text_eq v (codes "true") ]
    then ok (db, false)
    else recover_in_flight versions now db >>= λ db'. ok (db', true)

abbrev redrive_params : DeadRow → ℕ → ℤ → EnqueueParams
redrive_params d generation priority = record {
  file_id = some d.file_id;
  path = d.path;
  op = TaskOp.upsert;
  old_path = none;
  generation = pos generation;
  priority = priority;
  next_attempt_at_ms = 0;
}

abbrev pub is_letter : DeadRow → DeadRow → Bool
is_letter d e =
    e.file_id == d.file_id && (e.generation == d.generation && e.updated_at_ms == d.updated_at_ms)

abbrev delete_letters : (DeadRow → Bool) → List DeadRow → List DeadRow
delete_letters p [] = []
delete_letters p (d ∷ ds) = let rest = delete_letters p ds in if p d then rest else d ∷ rest

-- The statements that redrive one dead letter whose file has this generation.
unfoldable pub redrive_current : Text → ℤ → ℕ → DeadRow → ℕ → Db → Result Db
redrive_current source priority now d generation db = do
  (db', r) ← enqueue (redrive_params d generation priority) now db
  guard (any (is_letter d) db'.dead_letters) invalid_transition
  fs ←
      (elim (set_current d.file_id generation (λ f. record f { status = FileStatus.pending })
        db'.files) [ ok fs ↦ ok fs | err e ↦ err invalid_transition ])
  as' ←
      enqueue_audit
        (record {
          action = codes "dead_letter.redrive";
          source = source;
          task_id = r.task.id;
          generation = r.task.generation;
          target = r.task.path;
          dead = d;
        })
        db'.audit
  ok (record db' {
    files = fs;
    dead_letters = delete_letters (is_letter d) db'.dead_letters;
    audit = as';
  })

-- A letter whose file has a newer generation is skipped.
unfoldable pub redrive_found : Option FileRow → Text → ℤ → ℕ → DeadRow → Db → Result Db
redrive_found none source priority now d db = err not_found
redrive_found (some f) source priority now d db =
    if ltb d.generation f.generation
    then ok db
    else redrive_current source priority now d f.generation db

-- redriveDeadLettersTx
unfoldable pub redrive_all : Text → ℤ → ℕ → List DeadRow → Db → Result Db
redrive_all source priority now [] db = ok db
redrive_all source priority now (d ∷ ds) db =
    redrive_found (file_by_id d.file_id db.files) source priority now d db >>= λ db'.
    redrive_all source priority now ds db'
