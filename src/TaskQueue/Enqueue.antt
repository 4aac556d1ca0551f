-- ===== src/TaskQueue/Enqueue.antt =====
-- Enqueueing, and coalescing with the pending task of a path (taskqueue.go: validateEnqueue,
-- EnqueueTx).
pub mod Coalesce
use ferret_new.Base.{
  ℕ, zero, suc, ◌+◌, Bool, true, false, Option, none, some, List, [], ◌∷◌, ◌++◌, ltb, leb, ◌==◌,
  if◌then◌else◌,
}
use ferret_new.Base.Int.{ℤ, is_neg, is_nonpos, to_nat}
use ferret_new.Base.Bytes.{Text}
use ferret_new.Task.{
  Task, TaskOp, upsert, remove, relocate, other, pending, entries, EnqueueParams, EnqueueResult,
}
use ferret_new.TaskQueue.{
  Db, Result, ok, err, and_then, empty_path, invalid_generation, negative_priority,
  old_path_forbidden, old_path_required, invalid_op, path_key, find_slot, update_where, has_id,
}

abbrev is_empty : Text → Bool
is_empty [] = true
is_empty (_ ∷ _) = false

-- The switch of validateEnqueue.
unfoldable pub check_op : TaskOp → Option Text → Result (Unit {0})
check_op upsert none = ok tt
check_op upsert (some old) = err old_path_forbidden
check_op remove none = ok tt
check_op remove (some old) = err old_path_forbidden
check_op relocate none = err old_path_required
check_op relocate (some old) = if is_empty old then err old_path_required else ok tt
check_op (other name) old = err invalid_op

unfoldable pub validate_enqueue : EnqueueParams → Result (Unit {0})
unfolding check_op
validate_enqueue params =
    if is_empty params.path
    then err empty_path
    else if is_nonpos params.generation
    then err invalid_generation
    else if is_neg params.priority
    then err negative_priority
    else check_op params.op params.old_path

-- The next rowid of SQLite.
unfoldable pub next_id : List Task → ℕ
next_id [] = 1
next_id (t ∷ ts) = let rest = next_id ts in if leb rest t.id then t.id + 1 else rest

-- The row that the statement inserts.
abbrev pub new_row : EnqueueParams → ℕ → ℕ → Task
new_row params id now = record {
  id = id;
  file_id = params.file_id;
  path = params.path;
  op = params.op;
  old_path = params.old_path;
  generation = to_nat params.generation;
  state = pending;
  priority = to_nat params.priority;
  attempts = 0;
  crash_count = 0;
  next_attempt_at_ms = params.next_attempt_at_ms;
  last_error = none;
  created_at_ms = now;
  updated_at_ms = now;
  claim_attempt_charge = 1;
  attempts_log = entries [];
  error_chain = entries [];
}

abbrev coalesce : Option ℕ → Option ℕ → Option ℕ
coalesce none b = b
coalesce (some a) b = some a

abbrev min : ℕ → ℕ → ℕ
min m n = if ltb n m then n else m

-- ON CONFLICT(path_key,state) DO UPDATE SET
unfoldable pub merge_row : Task → Task → Task
merge_row new t =
    let newer = ltb t.generation new.generation in
    let fresh = leb t.generation new.generation in
    record t {
      file_id = if fresh then coalesce new.file_id t.file_id else t.file_id;
      path = if fresh then new.path else t.path;
      op = if fresh then new.op else t.op;
      old_path = if fresh then new.old_path else t.old_path;
      claim_attempt_charge = if newer then 1 else t.claim_attempt_charge;
      attempts = if newer then 0 else t.attempts;
      crash_count = if newer then 0 else t.crash_count;
      attempts_log = if newer then entries [] else t.attempts_log;
      error_chain = if newer then entries [] else t.error_chain;
      last_error = if newer then none else t.last_error;
      generation = if newer then new.generation else t.generation;
      priority = min t.priority new.priority;
      next_attempt_at_ms = min t.next_attempt_at_ms new.next_attempt_at_ms;
      updated_at_ms = new.updated_at_ms;
    }

-- The statement, from the pending row of the path.
unfoldable pub upsert_task : Task → Option Task → List Task → List Task × EnqueueResult
unfolding merge_row
upsert_task new none ts = (ts ++ (new ∷ []), record { task = new; inserted = true })
upsert_task new (some t) ts = (
  update_where (has_id t.id) (merge_row new) ts,
  record { task = merge_row new t; inserted = false },
)

-- EnqueueTx
unfoldable pub enqueue : EnqueueParams → ℕ → Db → Result (Db × EnqueueResult)
unfolding validate_enqueue next_id upsert_task find_slot path_key
enqueue params now db = and_then (validate_enqueue params) (λ _.
    let (ts, result) =
      upsert_task (new_row params (next_id db.tasks) now)
        (find_slot (path_key params.path) pending db.tasks) db.tasks in
    ok (record db { tasks = ts }, result))
