-- ===== src/TaskQueue/Finish.antt =====
-- The transitions out of in_flight (taskqueue.go: markDoneTx, markRetry, MarkWaitingDepBatch;
-- supersede.go: RetireTaskIfSuperseded).
pub mod Attempts
use ferret_new.Base.{
  ℕ, ◌+◌, ◌-◌, Bool, true, false, not, ◌&&◌, ◌||◌, Option, none, some, List, [], ◌∷◌, ltb, leb,
  ◌==◌, if◌then◌else◌, any,
}
use ferret_new.Base.Bytes.{Text, text_eq}
use ferret_new.Task.{
  Task, TaskState, in_flight, retry_wait, waiting_dep, done, state_eq, History, HistoryEntry,
  attempted, retried,
}
use ferret_new.TaskQueue.{
  Db, FileRow, DeadRow, Result, ok, err, and_then, commit, empty_batch, invalid_id, duplicate_id,
  path_key, in_slot, delete_where, update_where, task_for_transition, update_in_flight,
  clear_older_state_slot,
}
use ferret_new.TaskQueue.History.{append_failure_history}

-- DELETE FROM tasks WHERE path_key=? AND state='done' AND task_id<>?
unfoldable pub clear_done : Task → List Task → List Task
unfolding in_slot path_key
clear_done t ts = delete_where (λ u. in_slot (path_key t.path) done u && not (u.id == t.id)) ts

-- DELETE FROM dead_letters WHERE file_id=? AND generation<?
abbrev clear_dead : Option ℕ → ℕ → List DeadRow → List DeadRow
clear_dead none generation ds = ds
clear_dead (some file) generation [] = []
clear_dead (some file) generation (d ∷ ds) =
    let rest = clear_dead (some file) generation ds in
    if d.file_id == file && ltb d.generation generation then rest else d ∷ rest

abbrev pub done_row : ℕ → Task → Task
done_row now t = record t { state = done; updated_at_ms = now }

unfoldable pub mark_done_tx : ℕ → Bool → ℕ → Db → Result Db
unfolding task_for_transition clear_done update_in_flight
mark_done_tx id clear_resolved now db = and_then (task_for_transition id in_flight db.tasks) (λ t.
    and_then (update_in_flight id (done_row now) (clear_done t db.tasks)) (λ ts. ok (record db {
      tasks = ts;
      dead_letters =
          if clear_resolved
          then clear_dead t.file_id t.generation db.dead_letters
          else db.dead_letters;
    })))

-- The histories after a failure; a refunded attempt leaves no trace.
unfoldable pub retry_histories : Bool → Task → Text → Text → ℕ → Result (History × History)
unfolding append_failure_history
retry_histories true t class last_error now = ok (t.attempts_log, t.error_chain)
retry_histories false t class last_error now =
    and_then
      (append_failure_history t.attempts_log
        (attempted (t.attempts + (1 - t.claim_attempt_charge)) now class last_error))
      (λ log.
        and_then (append_failure_history t.error_chain (retried last_error))
          (λ chain. ok (log, chain)))

-- The new row. The charge of a row is 0 or 1.
unfoldable pub retry_row : Bool → ℕ → Text → History × History → ℕ → Task → Task
retry_row refund next last_error (log, chain) now t = record t {
  state = retry_wait;
  attempts =
      if refund
      then t.attempts - t.claim_attempt_charge
      else t.attempts + (1 - t.claim_attempt_charge);
  claim_attempt_charge = if refund then t.claim_attempt_charge else 1;
  next_attempt_at_ms = next;
  last_error = some last_error;
  attempts_log = log;
  error_chain = chain;
  updated_at_ms = now;
}

-- markRetry; `class` is the text "transient" of its log entries.
unfoldable pub mark_retry : Text → ℕ → ℕ → Text → Bool → ℕ → Db → Result Db
unfolding task_for_transition clear_older_state_slot retry_histories update_in_flight retry_row
mark_retry class id next last_error refund now db =
    and_then (task_for_transition id in_flight db.tasks) (λ t.
      and_then (clear_older_state_slot t retry_wait db.tasks) (λ ts.
        and_then (retry_histories refund t class last_error now) (λ h.
          and_then (update_in_flight id (retry_row refund next last_error h now) ts)
            (λ ts'. ok (record db { tasks = ts' })))))

-- The checks of a batch of ids.
unfoldable pub validate_batch : List ℕ → List ℕ → Result (Unit {0})
validate_batch seen [] = ok tt
validate_batch seen (id ∷ ids) =
    let rest = validate_batch (id ∷ seen) ids in
    if id == 0 then err invalid_id else if any (λ j. j == id) seen then err duplicate_id else rest

unfoldable pub tasks_for_transition : List ℕ → List Task → Result (List Task)
unfolding task_for_transition
tasks_for_transition [] ts = ok []
tasks_for_transition (id ∷ ids) ts =
    and_then (task_for_transition id in_flight ts)
      (λ t. and_then (tasks_for_transition ids ts) (λ found. ok (t ∷ found)))

unfoldable pub clear_slots : List Task → List Task → Result (List Task)
unfolding clear_older_state_slot
clear_slots [] ts = ok ts
clear_slots (t ∷ batch) ts =
    and_then (clear_older_state_slot t waiting_dep ts) (λ ts'. clear_slots batch ts')

unfoldable pub park_row : Text → ℕ → Task → Task
park_row last_error now t = record t {
  state = waiting_dep;
  attempts = t.attempts - t.claim_attempt_charge;
  claim_attempt_charge = 0;
  last_error = some last_error;
  updated_at_ms = now;
}

unfoldable pub park_all : Text → ℕ → List ℕ → List Task → Result (List Task)
unfolding update_in_flight park_row
park_all last_error now [] ts = ok ts
park_all last_error now (id ∷ ids) ts =
    and_then (update_in_flight id (park_row last_error now) ts)
      (λ ts'. park_all last_error now ids ts')

-- MarkWaitingDepBatch
unfoldable pub mark_waiting_dep : List ℕ → Text → ℕ → Db → Result Db
unfolding validate_batch tasks_for_transition clear_slots park_all
mark_waiting_dep [] last_error now db = err empty_batch
mark_waiting_dep (id ∷ ids) last_error now db = and_then (validate_batch [] (id ∷ ids)) (λ _.
    and_then (tasks_for_transition (id ∷ ids) db.tasks) (λ batch.
      and_then (clear_slots batch db.tasks) (λ ts.
        and_then (park_all last_error now (id ∷ ids) ts) (λ ts'. ok (record db { tasks = ts' })))))

-- SELECT generation FROM files WHERE file_id=?, and 0 when there is no such row.
abbrev file_generation : Option ℕ → List FileRow → ℕ
file_generation none fs = 0
file_generation (some file) [] = 0
file_generation (some file) (f ∷ fs) =
    if f.id == file then f.generation else file_generation (some file) fs

-- SELECT COALESCE(MAX(generation),0) FROM tasks WHERE path_key=? AND task_id<>?
unfoldable pub newest_other : Task → List Task → ℕ
unfolding path_key
newest_other t [] = 0
newest_other t (u ∷ us) =
    let rest = newest_other t us in
    if text_eq (path_key u.path) (path_key t.path) && not (u.id == t.id)
    then if ltb rest u.generation then u.generation else rest
    else rest

abbrev pub max : ℕ → ℕ → ℕ
max m n = if ltb m n then n else m

-- The newest generation that anything else has for the task's path or file.
unfoldable pub successor : Task → Db → ℕ
unfolding newest_other
successor t db = max (file_generation t.file_id db.files) (newest_other t db.tasks)

abbrev pub superseded_row : Text → ℕ → Task → Task
superseded_row message now t = record t {
  state = done;
  last_error = some message;
  updated_at_ms = now;
}

-- RetireTaskIfSuperseded; `message` is its constant text.
unfoldable pub retire_if_superseded : Text → ℕ → ℕ → Db → Result (Db × Bool)
unfolding task_for_transition successor clear_done update_in_flight
retire_if_superseded message id now db = and_then (task_for_transition id in_flight db.tasks) (λ t.
    if leb (successor t db) t.generation
    then ok (db, false)
    else and_then (update_in_flight id (superseded_row message now) (clear_done t db.tasks))
        (λ ts. ok (record db { tasks = ts }, true)))
