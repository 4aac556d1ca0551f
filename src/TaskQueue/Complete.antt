-- ===== src/TaskQueue/Complete.antt =====
-- The transitions that also write the catalog, the dead letters and the audit outbox (taskqueue.go:
-- CompleteTask, CompleteCommittedBatch, MarkDeadWithSource, ensureFailureFileTx; catalog.go:
-- PrepareFileForTask; deadletter.go: upsertDeadLetterTx; audit_outbox.go: enqueueDeadLetterAuditTx).
pub mod Current
use ferret_new.Base.{
  ℕ, zero, suc, ◌+◌, ◌-◌, Bool, true, false, not, ◌&&◌, ◌||◌, Option, none, some, List, [], ◌∷◌,
  ◌++◌, ltb, leb, ◌==◌, if◌then◌else◌,
}
use ferret_new.Base.Int.{ℤ, pos}
use ferret_new.Base.Bytes.{Text, text_eq, codes}
use ferret_new.Base.Pairwise.{update_if}
use ferret_new.Task.{Task, in_flight, dead, History}
use ferret_new.TaskQueue.{
  Db, FileRow, FileKind, FileStatus, DeadRow, AuditRow, Result, ok, err, and_then, ◌>>=◌, ◌>>◌,
  guard, path_key, task_for_transition, update_in_flight, update_where, has_id,
  clear_older_state_slot, task_mismatch, path_ownership, bad_status, empty_class,
  incomplete_dead_letter, incomplete_audit,
}
use ferret_new.TaskQueue.Finish.{mark_done_tx}
use ferret_new.TaskQueue.History.{merge_failure_history}
use ferret_new.Catalog.{
  file_by_key, set_current, is_current, has_file_id, next_file_id, prepare_anchored, upsert_file,
}

abbrev is_empty : Text → Bool
is_empty [] = true
is_empty (_ ∷ _) = false

-- *task.FileID == id
abbrev pub is_file : Option ℕ → ℕ → Bool
is_file none id = false
is_file (some i) id = i == id

pub record CompleteParams : Type 0 where
  pub task_id : ℕ
  pub file_id : ℕ
  pub generation : ℕ
  pub status : Option FileStatus  -- none is the empty string
  pub indexed_at_ms : Option ℕ
  pub extractor_version : Option Text
  pub embed_model_version : Option Text

abbrev or_indexed : Option FileStatus → FileStatus
or_indexed none = FileStatus.indexed
or_indexed (some s) = s

abbrev pub completed_row : CompleteParams → FileRow → FileRow
completed_row p f = record f {
  status = or_indexed p.status;
  indexed_at_ms = p.indexed_at_ms;
  extractor_version = p.extractor_version;
  embed_model_version = p.embed_model_version;
}

-- CompleteTask
unfoldable pub complete_task : CompleteParams → ℕ → Db → Result Db
complete_task p now db = do
  t ← task_for_transition p.task_id in_flight db.tasks
  guard (is_file t.file_id p.file_id && t.generation == p.generation) task_mismatch
  fs ← set_current p.file_id p.generation (completed_row p) db.files
  mark_done_tx p.task_id true now (record db { files = fs })

pub record CommittedTask : Type 0 where
  pub task_id : ℕ
  pub file_id : ℕ
  pub generation : ℕ
  pub stale : Bool
  pub status : Option FileStatus
  pub indexed_at_ms : Option ℕ

abbrev is_committed : FileStatus → Bool
is_committed FileStatus.indexed = true
is_committed FileStatus.deleted = true
is_committed _ = false

-- The update of the catalog, which a stale item skips.
unfoldable pub record_committed : Bool → CommittedTask → List FileRow → Result (List FileRow)
record_committed true c fs = ok fs
record_committed false c fs =
    set_current c.file_id c.generation
      (λ f. record f { status = or_indexed c.status; indexed_at_ms = c.indexed_at_ms }) fs

unfoldable pub complete_committed : CommittedTask → ℕ → Db → Result Db
complete_committed c now db = do
  guard (is_committed (or_indexed c.status)) bad_status
  t ← task_for_transition c.task_id in_flight db.tasks
  guard (is_file t.file_id c.file_id && t.generation == c.generation) task_mismatch
  fs ← record_committed c.stale c db.files
  mark_done_tx c.task_id (not c.stale) now (record db { files = fs })

-- CompleteCommittedBatch
unfoldable pub complete_committed_batch : List CommittedTask → ℕ → Db → Result Db
complete_committed_batch [] now db = ok db
complete_committed_batch (c ∷ cs) now db =
    complete_committed c now db >>= λ db'. complete_committed_batch cs now db'

-- The catalog row of PrepareFileForTask: that of the anchor, or of the path.
unfoldable pub prepare_row : Option ℕ → FileRow → List FileRow → Result (List FileRow × FileRow)
prepare_row none file fs = upsert_file file fs
prepare_row (some id) file fs =
    prepare_anchored id file fs >>= λ r. guard (r.1.id == id) path_ownership >> ok r

abbrev pub anchored_row : ℕ → ℕ → Task → Task
anchored_row file now t = record t { file_id = some file; updated_at_ms = now }

-- An empty status is that of a file that waits for its commit.
abbrev or_pending : FileStatus → FileStatus
or_pending (FileStatus.invalid_status []) = FileStatus.pending
or_pending status = status

-- The transaction of PrepareFileForTask.
unfoldable pub prepare_checked : ℕ → FileRow → ℕ → Db → Result (Db × FileRow)
prepare_checked id file now db = do
  t ← task_for_transition id in_flight db.tasks
  guard (text_eq (path_key t.path) (path_key file.path) && t.generation == file.generation)
      task_mismatch
  (fs, f) ← prepare_row t.file_id file db.files
  ts ← update_in_flight id (anchored_row f.id now) db.tasks
  ok (record db { tasks = ts; files = fs }, f)

-- PrepareFileForTask
unfoldable pub prepare_file_for_task : ℕ → FileRow → ℕ → Db → Result (Db × FileRow)
prepare_file_for_task id file now db =
    prepare_checked id (record file { status = or_pending file.status }) now db

-- The columns of a placeholder for a task that failed before its file was known.
abbrev pub failure_row : Task → ℕ → FileRow
failure_row t id = record {
  id = id;
  path = t.path;
  size = pos 0;
  mtime_ns = pos 0;
  inode = none;
  sample_hash = [];
  kind = FileKind.other;
  generation = t.generation;
  status = FileStatus.failed;
  extractor_version = none;
  embed_model_version = none;
  indexed_at_ms = none;
}

unfoldable pub failure_file_from : Task → Option FileRow → List FileRow → List FileRow × ℕ
failure_file_from t none fs = let id = next_file_id fs in (fs ++ (failure_row t id ∷ []), id)
failure_file_from t (some f) fs = (
  if leb f.generation t.generation
      then update_if (has_file_id f.id)
          (λ r. record r { generation = t.generation; status = FileStatus.failed }) fs
      else fs,
  f.id,
)

-- ensureFailureFileTx
unfoldable pub ensure_failure_file : Task → List FileRow → List FileRow × ℕ
ensure_failure_file t fs = failure_file_from t (file_by_key (path_key t.path) fs) fs

-- validateDeadLetter, for histories that are JSON arrays.
unfoldable pub validate_dead_letter : DeadRow → Result (Unit {0})
validate_dead_letter d = do
  guard (leb 1 d.file_id) incomplete_dead_letter
  guard
      (not (is_empty d.path)
        && (leb 1 d.generation && (not (is_empty d.stage) && not (is_empty d.error_class))))
      incomplete_dead_letter

-- ON CONFLICT(file_id) DO UPDATE SET ... WHERE excluded.generation >= dead_letters.generation
unfoldable pub insert_dead_letter : DeadRow → List DeadRow → List DeadRow
insert_dead_letter d [] = d ∷ []
insert_dead_letter d (e ∷ ds) =
    let rest = insert_dead_letter d ds in
    if e.file_id == d.file_id
    then (if leb e.generation d.generation then record d { created_at_ms = e.created_at_ms } else e)
      ∷ ds
    else e ∷ rest

-- upsertDeadLetterTx; the times of its callers are not 0.
unfoldable pub upsert_dead_letter : DeadRow → List DeadRow → Result (List DeadRow)
upsert_dead_letter d ds = do
  chain ← merge_failure_history d.error_chain (History.entries [])
  log ← merge_failure_history d.attempts_log (History.entries [])
  let d' = record d { error_chain = chain; attempts_log = log }
  validate_dead_letter d'
  ok (insert_dead_letter d' ds)

-- enqueueDeadLetterAuditTx, for one of its two actions.
unfoldable pub enqueue_audit : AuditRow → List AuditRow → Result (List AuditRow)
enqueue_audit a as' = do
  guard (not (is_empty a.source)) incomplete_audit
  guard
      (leb 1 a.task_id && (leb 1 a.dead.file_id && (leb 1 a.generation && not (is_empty a.target))))
      incomplete_audit
  chain ← merge_failure_history a.dead.error_chain (History.entries [])
  log ← merge_failure_history a.dead.attempts_log (History.entries [])
  ok (as' ++ (record a { dead = record a.dead { error_chain = chain; attempts_log = log } } ∷ []))

pub record DeadLetterInfo : Type 0 where
  pub stage : Text
  pub error_class : Text
  pub error_chain : History
  pub attempts_log : History
  pub extractor_version : Option Text
  pub embed_model_version : Option Text

abbrev or_unknown : Text → Text
or_unknown [] = codes "unknown"
or_unknown (c ∷ s) = c ∷ s

-- The file of a dead task, which is anchored to it if it had none.
unfoldable pub anchor_dead : Option ℕ → Task → Db → Db × ℕ
anchor_dead (some file) t db = (db, file)
anchor_dead none t db =
    let (fs, file) = ensure_failure_file t db.files in
    (
      record db {
        tasks = update_where (has_id t.id) (λ u. record u { file_id = some file }) db.tasks;
        files = fs;
      },
      file,
    )

-- The dead letter, the failed file and the audit event of a dead task.
unfoldable pub bury : Text → Task → DeadRow → Db → Result Db
bury source t d db = do
  ds ← upsert_dead_letter d db.dead_letters
  as' ←
      enqueue_audit
        (record {
          action = codes "dead_letter.create";
          source = source;
          task_id = t.id;
          generation = t.generation;
          target = t.path;
          dead = d;
        })
        db.audit
  ok (record db {
    files =
        update_if (is_current d.file_id t.generation) (λ f. record f { status = FileStatus.failed })
          db.files;
    dead_letters = ds;
    audit = as';
  })

-- The dead letter of a task.
abbrev pub dead_row : Task → DeadLetterInfo → ℕ → History → History → ℕ → DeadRow
dead_row t info file chain log now = record {
  file_id = file;
  path = t.path;
  generation = t.generation;
  stage = or_unknown info.stage;
  error_class = info.error_class;
  error_chain = chain;
  attempts_log = log;
  extractor_version = info.extractor_version;
  embed_model_version = info.embed_model_version;
  created_at_ms = now;
  updated_at_ms = now;
}

-- The row of a dead task; `encode` is the JSON text of a history.
unfoldable pub dead_task : (History → Text) → History → History → ℕ → Task → Task
dead_task encode chain log now t = record t {
  state = dead;
  attempts = t.attempts + (1 - t.claim_attempt_charge);
  claim_attempt_charge = 1;
  last_error = some (encode chain);
  attempts_log = log;
  error_chain = chain;
  updated_at_ms = now;
}

-- MarkDeadWithSource
unfoldable pub mark_dead : (History → Text) → ℕ → DeadLetterInfo → Text → ℕ → Db → Result Db
mark_dead encode id info source now db = do
  guard (not (is_empty info.error_class)) empty_class
  t ← task_for_transition id in_flight db.tasks
  ts ← clear_older_state_slot t dead db.tasks
  chain ← merge_failure_history t.error_chain info.error_chain
  log ← merge_failure_history t.attempts_log info.attempts_log
  ts' ← update_in_flight id (dead_task encode chain log now) ts
  let anchored = anchor_dead t.file_id t (record db { tasks = ts' })
  bury source t (dead_row t info anchored.1 chain log now) anchored.0
