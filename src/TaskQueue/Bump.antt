-- ===== src/TaskQueue/Bump.antt =====
-- Enqueueing for a filesystem change, and for a difference that a scan observed: the generation of the
-- task outruns what is known of the path (taskqueue.go: EnqueueAndBumpGeneration;
-- reconcile_enqueue.go: EnqueueReconcileIfCurrent).
pub mod Newest
use ferret_new.Base.{
  ◌-◌, ◌^◌, ℕ, zero, suc, ◌+◌, Bool, true, false, not, ◌&&◌, ◌||◌, Option, none, some, List, [],
  ◌∷◌, ltb, leb, ◌==◌, if◌then◌else◌,
}
use ferret_new.Base.Int.{ℤ, pos, negsuc, is_neg, is_nonpos, to_nat}
use ferret_new.Base.Bytes.{Text, text_eq}
use ferret_new.Task.{
  Task, TaskOp, upsert, remove, relocate, TaskState, pending, in_flight, retry_wait, waiting_dep,
  state_eq, EnqueueParams, EnqueueResult,
}
use ferret_new.TaskQueue.{
  generation_exhausted, Db, FileRow, Result, ok, err, and_then, ◌>>=◌, ◌>>◌, guard, path_key,
  find_slot, not_found, empty_path, negative_priority, invalid_op, old_path_required,
  old_path_forbidden, unobserved_relocate, half_observation, invalid_id, invalid_generation,
}
use ferret_new.TaskQueue.Enqueue.{enqueue}
use ferret_new.Catalog.{file_by_key, bump_generation, bump_generation_by_id}

abbrev pub is_relocate : TaskOp → Bool
is_relocate relocate = true
is_relocate _ = false

abbrev pub is_upsert : TaskOp → Bool
is_upsert upsert = true
is_upsert _ = false

abbrev pub is_remove : TaskOp → Bool
is_remove remove = true
is_remove _ = false

abbrev or_else : Option Text → Text → Text
or_else none path = path
or_else (some old) path = old

-- The path of the catalog row that is bumped.
unfoldable pub catalog_path : EnqueueParams → Text
catalog_path params =
    if is_relocate params.op then or_else params.old_path params.path else params.path

-- SELECT COALESCE(MAX(generation),0) FROM tasks WHERE ...
unfoldable pub max_generation : (Task → Bool) → List Task → ℕ
max_generation p [] = 0
max_generation p (t ∷ ts) =
    let rest = max_generation p ts in
    if p t then if ltb rest t.generation then t.generation else rest else rest

abbrev pub has_key : Text → Task → Bool
has_key key t = text_eq (path_key t.path) key

-- The tasks of the path and, for a relocation, of the old path.
unfoldable pub same_path : EnqueueParams → Task → Bool
same_path params t =
    has_key (path_key params.path) t
    || (is_relocate params.op
        && elim params.old_path [ none ↦ false | some old ↦ has_key (path_key old) t ])

abbrev pub max_int64 : ℕ
max_int64 = 2 ^ 63 - 1

-- maximum + 1 as an int64, which wraps around.
abbrev pub next_int64 : ℕ → ℤ
next_int64 maximum = if ltb maximum max_int64 then pos (maximum + 1) else negsuc max_int64

abbrev pub at_least_one : ℤ → ℤ
at_least_one z = if is_nonpos z then pos 1 else z

-- The generation outruns the maximum, and is then made at least 1.
unfoldable pub outrun : ℤ → ℕ → ℤ
outrun (negsuc n) maximum = at_least_one (next_int64 maximum)
outrun (pos n) maximum = at_least_one (if leb n maximum then next_int64 maximum else pos n)

-- No catalog row and no pending task with an anchor.
unfoldable pub enqueue_unanchored : EnqueueParams → ℕ → Db → Result (Db × EnqueueResult)
enqueue_unanchored params now db =
    enqueue
      (record params {
        generation = outrun params.generation (max_generation (same_path params) db.tasks);
      })
      now db

-- A pending task is anchored to a file whose path is another: its file is bumped, and a pending
-- relocation stays one.
unfoldable pub enqueue_anchored_to :
    Result (List FileRow × FileRow) → Task → EnqueueParams → ℕ → Db → Result (Db × EnqueueResult)
enqueue_anchored_to (ok (fs, f)) p params now db =
    let keeps = is_relocate p.op && is_upsert params.op in
    enqueue
      (record params {
        file_id = some f.id;
        generation = pos f.generation;
        op = if keeps then relocate else params.op;
        old_path = if keeps then p.old_path else params.old_path;
      })
      now (record db { files = fs })
enqueue_anchored_to (err e) p params now db = err e

unfoldable pub enqueue_anchored : ℕ → Task → EnqueueParams → ℕ → Db → Result (Db × EnqueueResult)
enqueue_anchored file p params now db =
    enqueue_anchored_to (bump_generation_by_id file db.files) p params now db

unfoldable pub enqueue_pre_catalog :
    Option Task → EnqueueParams → ℕ → Db → Result (Db × EnqueueResult)
enqueue_pre_catalog none params now db = enqueue_unanchored params now db
enqueue_pre_catalog (some p) params now db = elim p.file_id [
  | none ↦ enqueue_unanchored params now db
  | some file ↦ enqueue_anchored file p params now db
]

-- The switch on the bump of the catalog row.
unfoldable pub enqueue_bumped :
    Result (List FileRow × FileRow) → EnqueueParams → ℕ → Db → Result (Db × EnqueueResult)
enqueue_bumped (ok (fs, f)) params now db =
    enqueue (record params { file_id = some f.id; generation = pos f.generation }) now
      (record db { files = fs })
enqueue_bumped (err not_found) params now db =
    enqueue_pre_catalog (find_slot (path_key params.path) pending db.tasks) params now db
enqueue_bumped (err e) params now db = err e

-- EnqueueAndBumpGeneration
unfoldable pub enqueue_and_bump : EnqueueParams → ℕ → Db → Result (Db × EnqueueResult)
enqueue_and_bump params now db =
    enqueue_bumped (bump_generation (catalog_path params) db.files) params now db

pub record ReconcileParams : Type 0 where
  pub path : Text
  pub old_path : Option Text
  pub op : TaskOp
  pub observed_file_id : Option ℕ
  pub observed_generation : Option ℕ
  pub priority : ℤ

pub data ReconcileOutcome : Type 0 where
  enqueued covered : Task → ReconcileOutcome
  stale : ReconcileOutcome

abbrev is_none {ℓ} : {A : Type ℓ} → Option A → Bool
is_none none = true
is_none (some a) = false

abbrev is_blank : Option Text → Bool
is_blank none = true
is_blank (some []) = true
is_blank (some (_ ∷ _)) = false

abbrev is_empty : Text → Bool
is_empty [] = true
is_empty (_ ∷ _) = false

-- The switch on the operation in validateReconcileEnqueue.
unfoldable pub check_reconcile_op : TaskOp → ReconcileParams → Result (Unit {0})
check_reconcile_op relocate p = do
  guard (not (is_blank p.old_path)) old_path_required
  guard (not (is_none p.observed_file_id)) unobserved_relocate
check_reconcile_op upsert p = guard (is_none p.old_path) old_path_forbidden
check_reconcile_op remove p = guard (is_none p.old_path) old_path_forbidden
check_reconcile_op (TaskOp.other name) p = err invalid_op

-- The checks of the observation.
unfoldable pub check_observation : Option ℕ → Option ℕ → Result (Unit {0})
check_observation none none = ok tt
check_observation none (some g) = err half_observation
check_observation (some i) none = err half_observation
check_observation (some i) (some g) = do
  guard (leb 1 i) invalid_id
  guard (leb 1 g) invalid_generation

-- validateReconcileEnqueue
unfoldable pub validate_reconcile : ReconcileParams → Result (Unit {0})
validate_reconcile p = do
  guard (not (is_empty p.path)) empty_path
  guard (not (is_neg p.priority)) negative_priority
  check_reconcile_op p.op p
  check_observation p.observed_file_id p.observed_generation

-- What the catalog has is what the scan observed.
unfoldable pub is_observed : Option ℕ → Option ℕ → Option FileRow → Bool
is_observed none generation none = true
is_observed none generation (some f) = false
is_observed (some i) generation none = false
is_observed (some i) none (some f) = false
is_observed (some i) (some g) (some f) = f.id == i && f.generation == g

abbrev is_active : TaskState → Bool
is_active pending = true
is_active in_flight = true
is_active retry_wait = true
is_active waiting_dep = true
is_active _ = false

abbrev is_known_op : TaskOp → Bool
is_known_op (TaskOp.other name) = false
is_known_op _ = true

-- The WHERE clause of activeReconcileTask.
unfoldable pub covers : Text → TaskOp → ℕ → Task → Bool
covers key desired minimum t =
    ((has_key key t && is_active t.state)
      || (is_remove desired
          && (is_relocate t.op
              && (elim t.old_path [ none ↦ false | some old ↦ text_eq (path_key old) key ]
                  && is_active t.state))))
    && (is_known_op t.op && leb minimum t.generation)

-- Whether a row comes first in ORDER BY generation DESC,task_id DESC.
abbrev is_newer : Task → Task → Bool
is_newer t u = if t.generation == u.generation then ltb u.id t.id else ltb u.generation t.generation

abbrev newer_of : Task → Option Task → Option Task
newer_of t none = some t
newer_of t (some u) = if is_newer t u then some t else some u

-- activeReconcileTask
unfoldable pub active_task : Text → TaskOp → ℕ → List Task → Option Task
active_task key desired minimum [] = none
active_task key desired minimum (t ∷ ts) =
    let rest = active_task key desired minimum ts in
    if covers key desired minimum t then newer_of t rest else rest

-- The WHERE clause of nextTaskGenerationForPath.
unfoldable pub mentions : Text → Task → Bool
mentions key t =
    has_key key t || elim t.old_path [ none ↦ false | some old ↦ text_eq (path_key old) key ]

-- nextTaskGenerationForPath
unfoldable pub next_generation : Text → List Task → Result ℕ
next_generation path ts =
    let maximum = max_generation (mentions (path_key path)) ts in
    if maximum == max_int64 then err generation_exhausted else ok (maximum + 1)

abbrev reconcile_params : ReconcileParams → Option ℕ → ℕ → EnqueueParams
reconcile_params p file generation = record {
  file_id = file;
  path = p.path;
  op = p.op;
  old_path = p.old_path;
  generation = pos generation;
  priority = p.priority;
  next_attempt_at_ms = 0;
}

-- The end of EnqueueReconcileIfCurrent: no work covers the difference.
unfoldable pub reconcile_new :
    Option ℕ → ReconcileParams → Text → ℕ → Db → Result (Db × ReconcileOutcome)
reconcile_new none p source now db = do
  generation ← next_generation p.path db.tasks
  (db', r) ← enqueue (reconcile_params p none generation) now db
  ok (db', enqueued r.task)
reconcile_new (some i) p source now db = do
  (fs, f) ← bump_generation source db.files
  (db', r) ← enqueue (reconcile_params p (some f.id) f.generation) now (record db { files = fs })
  ok (db', enqueued r.task)

abbrev or_zero : Option ℕ → ℕ
or_zero none = 0
or_zero (some n) = n

unfoldable pub reconcile_uncovered :
    Option Task → ReconcileParams → Text → ℕ → Db → Result (Db × ReconcileOutcome)
reconcile_uncovered (some t) p source now db = ok (db, covered t)
reconcile_uncovered none p source now db = reconcile_new p.observed_file_id p source now db

abbrev is_some {ℓ} : {A : Type ℓ} → Option A → Bool
is_some none = false
is_some (some a) = true

-- The path whose catalog row the scan observed.
unfoldable pub source_path : ReconcileParams → Text
source_path p = if is_relocate p.op then or_else p.old_path p.path else p.path

-- The target of a relocation exists already.
unfoldable pub is_taken : ReconcileParams → Db → Bool
is_taken p db = is_relocate p.op && is_some (file_by_key (path_key p.path) db.files)

-- The observation is still that of the catalog.
unfoldable pub is_unchanged : ReconcileParams → Db → Bool
is_unchanged p db =
    is_observed p.observed_file_id p.observed_generation
      (file_by_key (path_key (source_path p)) db.files)

-- The work that covers the difference.
unfoldable pub covering : ReconcileParams → Db → Option Task
covering p db = active_task (path_key p.path) p.op (or_zero p.observed_generation) db.tasks

-- EnqueueReconcileIfCurrent
unfoldable pub enqueue_reconcile : ReconcileParams → ℕ → Db → Result (Db × ReconcileOutcome)
enqueue_reconcile p now db =
    validate_reconcile p
    >> (if is_taken p db
        then ok (db, stale)
        else if is_unchanged p db
        then reconcile_uncovered (covering p db) p (source_path p) now db
        else ok (db, stale))
