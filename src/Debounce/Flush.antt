-- ===== src/Debounce/Flush.antt =====
-- Flushing pending changes to the durable queue (debounce.go: flushDue, flushAll, persist,
-- isDirectory, childPrefix). The file system, the store and the callbacks are a parameter that acts
-- on a world W.
pub mod Due
use ferret_new.Base.{
  length, ℕ, zero, suc, Bool, true, false, ◌&&◌, ◌||◌, not, Option, none, some, List, [], ◌∷◌, ◌++◌,
  if◌then◌else◌,
}
use ferret_new.Base.Int.{pos}
use ferret_new.Base.Bytes.{Text}
use ferret_new.FilePath.{clean, separator, ends_with_separator}
use ferret_new.Task.{Task, TaskOp, EnqueueParams, EnqueueResult, upsert, relocate}
use ferret_new.Task
use ferret_new.Debounce.{Op, created, modified, removed, move, unknown, RawChange}
use ferret_new.Debounce.Pending.{is_move, PendingChange, PendingState, peek, remove}

pub data Lstat (E : Type 0) : Type 0 where
  file directory not_exist : Lstat E
  lstat_error : E → Lstat E

pub data Answer (A E : Type 0) : Type 0 where
  ok : A → Answer A E
  err : E → Answer A E

pub record FlushOps (W E : Type 0) : Type 0 where
  pub lstat : Text → W → Lstat E
  pub list_files_by_prefix : Text → ℕ → W → Answer ℕ E
  pub enqueue_and_bump_generation : EnqueueParams → W → W × Answer EnqueueResult E
  pub directory_notify : RawChange → Task → W → W × Option E
  pub has_directory_notify : Bool
  pub notify : W → W
  pub invalid_change : E

abbrev pub event_priority : ℕ
event_priority = 5

unfoldable pub child_prefix : Text → Text
child_prefix path = let c = clean path in if ends_with_separator c then c else c ++ (separator ∷ [])

abbrev is_upsert : Op → Bool
is_upsert created = true
is_upsert modified = true
is_upsert _ = false

abbrev is_positive : ℕ → Bool
is_positive zero = false
is_positive (suc n) = true

abbrev map_answer : {A B E : Type 0} → (A → B) → Answer A E → Answer B E
map_answer f (ok a) = ok (f a)
map_answer f (err e) = err e

abbrev task_params : RawChange → TaskOp → Option Text → EnqueueParams
task_params raw op old = record {
  file_id = none;
  path = raw.path;
  op = op;
  old_path = old;
  generation = pos 0;
  priority = pos event_priority;
  next_attempt_at_ms = 0;
}

-- The parameters of the task; there are none for an unknown operation.
unfoldable pub params_for : Op → RawChange → Option EnqueueParams
params_for created raw = some (task_params raw upsert none)
params_for modified raw = some (task_params raw upsert none)
params_for removed raw = some (task_params raw Task.remove none)
params_for move raw = some (task_params raw relocate (some raw.old_path))
params_for unknown raw = none

module _ {W E : Type 0} (ops : FlushOps W E) where
  -- What isDirectory concludes from Lstat.
  unfoldable pub directory_from : Lstat E → RawChange → W → Answer Bool E
  directory_from file c w = ok false
  directory_from directory c w = ok true
  directory_from (lstat_error e) c w = err e
  directory_from not_exist c w =
      if is_upsert c.op
      then ok false
      else map_answer is_positive (
          ops.list_files_by_prefix (child_prefix (if is_move c.op then c.old_path else c.path)) 1 w)

  unfoldable pub is_directory : RawChange → W → Answer Bool E
  unfolding directory_from
  is_directory c w = directory_from (ops.lstat c.path w) c w

  -- The callbacks after an enqueue.
  unfoldable pub announce : Bool → RawChange → W × Answer EnqueueResult E → W × Option E
  announce dir raw (w, err e) = (w, some e)
  announce dir raw (w, ok result) =
      let (w', failed) = ops.directory_notify raw result.task w in
      if dir && ops.has_directory_notify
      then elim failed [ none ↦ (ops.notify w', none) | some e ↦ (w', some e) ]
      else (ops.notify w, none)

  unfoldable pub enqueue : Bool → RawChange → Option EnqueueParams → W → W × Option E
  unfolding announce
  enqueue dir raw none w = (w, some ops.invalid_change)
  enqueue dir raw (some params) w = announce dir raw (ops.enqueue_and_bump_generation params w)

  unfoldable pub persist_as : Answer Bool E → RawChange → W → W × Option E
  unfolding enqueue params_for
  persist_as (err e) raw w = (w, some e)
  persist_as (ok dir) raw w =
      if dir && is_upsert raw.op then (w, none) else enqueue dir raw (params_for raw.op raw) w

  unfoldable pub persist : RawChange → W → W × Option E
  unfolding is_directory persist_as
  persist raw w = persist_as (is_directory raw w) raw w

  pub data FlushEnd : Type 0 where
    flushed : FlushEnd
    failed : E → FlushEnd
    out_of_fuel : FlushEnd

  -- A round once the change was persisted, or not; `again` is the rest of the loop.
  unfoldable pub flush_after :
      (PendingState → W → PendingState × W × FlushEnd)
      → PendingChange
      → PendingState
      → W × Option E
      → PendingState × W × FlushEnd
  flush_after again p s (w, none) = again (remove p s) w
  flush_after again p s (w, some e) = (s, w, failed e)

  -- A round, from what peek gave.
  unfoldable pub flush_round :
      (PendingState → W → PendingState × W × FlushEnd)
      → PendingState × Option PendingChange
      → W
      → PendingState × W × FlushEnd
  unfolding flush_after
  flush_round again (s, none) w = (s, w, flushed)
  flush_round again (s, some p) w = flush_after again p s (persist p.change w)

  -- The loop of flushDue (all is false) and of flushAll (all is true). Each round takes one pending
  -- change out of the map, so as many rounds as the map has entries, and one more, are enough.
  unfoldable pub flush_loop : ℕ → Bool → ℕ → PendingState → W → PendingState × W × FlushEnd
  unfolding flush_round
  flush_loop zero all now s w = (s, w, out_of_fuel)
  flush_loop (suc fuel) all now s w =
      flush_round (λ s' w'. flush_loop fuel all now s' w') (peek all now s) w

  unfoldable pub flush_due : ℕ → PendingState → W → PendingState × W × FlushEnd
  unfolding flush_loop
  flush_due now s w = flush_loop (suc (length s.by_path)) false now s w

  unfoldable pub flush_all : PendingState → W → PendingState × W × FlushEnd
  unfolding flush_loop
  flush_all s w = flush_loop (suc (length s.by_path)) true 0 s w
