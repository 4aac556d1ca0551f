-- ===== src/TaskQueue/Slots/Complete.antt =====
-- Completing, preparing and burying tasks keep the unique indexes and the generation fence
-- (taskqueue.go: CompleteTask, CompleteCommittedBatch, MarkDeadWithSource; catalog.go:
-- PrepareFileForTask).
use ferret_new.TaskQueue.History.{merge_failure_history}
use ferret_new.Base.{
  ℕ, ◌≡◌, refl, ap, subst, Bool, true, false, not, Option, none, some, List, [], ◌∷◌, if_elim, leb,
  arith,
}
use ferret_new.Base.Bytes.{Text}
use ferret_new.Base.Pairwise.{Pairwise-snoc}
use ferret_new.Task.{Task, in_flight, dead, History}
use ferret_new.TaskQueue.{
  Db, FileRow, FileStatus, DeadRow, guard, path_key, update_in_flight, clear_older_state_slot,
  task_for_transition, has_id,
}
use ferret_new.TaskQueue.Finish.{mark_done_tx}
use ferret_new.TaskQueue.Slots.{IsUnique}
use ferret_new.TaskQueue.Slots.Step.{
  Holds, and_then-Holds, skip-Holds, Found, Free, task_for_transition-Found,
  update_in_flight-IsUnique,
}
use ferret_new.TaskQueue.Slots.Finish.{clear_older_state_slot-Cleared, Cleared}
use ferret_new.TaskQueue.Slots.Whole.{
  IsSound, SoundAfter, SoundAfter-refl, Keeps-SoundAfter, then-SoundAfter, mark_done_tx-SoundAfter,
  same_slots-IsUnique, update_in_flight-same_slots,
}
use ferret_new.TaskQueue.Complete.{
  CompleteParams, completed_row, complete_task, CommittedTask, record_committed, complete_committed,
  complete_committed_batch, prepare_row, anchored_row, prepare_file_for_task, prepare_checked,
  failure_row, failure_file_from, ensure_failure_file, anchor_dead, bury, DeadLetterInfo, dead_task,
  dead_row, mark_dead, upsert_dead_letter, enqueue_audit,
}
use ferret_new.Catalog.{
  file_by_key, set_current, is_current, has_file_id, next_file_id, prepare_anchored,
}
use ferret_new.Catalog.Rows.{
  FilesUnique, IsApart, file_by_key_sound, file_by_key-none, next_file_id-fresh, same_file,
}
use ferret_new.Catalog.Fence.{
  in_place_mem-Keeps, Keeps, Advances-refl, set_current-Keeps, prepare_anchored-Keeps,
  upsert_file-Keeps, in_place-Keeps, append-Advances,
}

-- After an update of the catalog, mark_done_tx.
done_after :
    (fs : List FileRow) (id : ℕ) (clear : Bool) (now : ℕ) (db : Db)
    → IsSound db
    → Keeps db.files fs
    → Holds (SoundAfter db) (mark_done_tx id clear now (record db { files = fs }))
done_after fs id clear now db s k =
    let mid : Db = record db { files = fs } in
    let p = Keeps-SoundAfter db mid s.tasks_unique k in
    then-SoundAfter db mid (λ d. d) (mark_done_tx id clear now mid) p
      (mark_done_tx-SoundAfter id clear now mid p.sound)

pub complete_task-SoundAfter :
    (p : CompleteParams) (now : ℕ) (db : Db)
    → IsSound db
    → Holds (SoundAfter db) (complete_task p now db)
unfolding complete_task
complete_task-SoundAfter p now db s =
    skip-Holds (SoundAfter db) (task_for_transition p.task_id in_flight db.tasks) _ (λ t.
      skip-Holds (SoundAfter db) (guard _ _) _ (λ _.
        and_then-Holds (Keeps db.files) (SoundAfter db)
          (set_current p.file_id p.generation (completed_row p) db.files) _
          (set_current-Keeps p.file_id p.generation (completed_row p) db.files
            (λ f. (refl, refl, refl)) s.files_unique)
          (λ fs k. done_after fs p.task_id true now db s k)))

record_committed-Keeps :
    (stale : Bool) (c : CommittedTask) (fs : List FileRow)
    → FilesUnique fs
    → Holds (Keeps fs) (record_committed stale c fs)
unfolding record_committed
record_committed-Keeps true c fs h = (h, Advances-refl fs)
record_committed-Keeps false c fs h =
    set_current-Keeps c.file_id c.generation _ fs (λ f. (refl, refl, refl)) h

pub complete_committed-SoundAfter :
    (c : CommittedTask) (now : ℕ) (db : Db)
    → IsSound db
    → Holds (SoundAfter db) (complete_committed c now db)
unfolding complete_committed
complete_committed-SoundAfter c now db s = skip-Holds (SoundAfter db) (guard _ _) _ (λ _.
    skip-Holds (SoundAfter db) (task_for_transition c.task_id in_flight db.tasks) _ (λ t.
      skip-Holds (SoundAfter db) (guard _ _) _ (λ _.
        and_then-Holds (Keeps db.files) (SoundAfter db) (record_committed c.stale c db.files) _
          (record_committed-Keeps c.stale c db.files s.files_unique)
          (λ fs k. done_after fs c.task_id (not c.stale) now db s k))))

pub complete_committed_batch-SoundAfter :
    (cs : List CommittedTask) (now : ℕ) (db : Db)
    → IsSound db
    → Holds (SoundAfter db) (complete_committed_batch cs now db)
unfolding complete_committed_batch
complete_committed_batch-SoundAfter [] now db s = SoundAfter-refl db s
complete_committed_batch-SoundAfter (c ∷ cs) now db s =
    and_then-Holds (SoundAfter db) (SoundAfter db) (complete_committed c now db) _
      (complete_committed-SoundAfter c now db s)
      (λ mid p.
        then-SoundAfter db mid (λ d. d) (complete_committed_batch cs now mid) p
          (complete_committed_batch-SoundAfter cs now mid p.sound))

prepare_row-Keeps :
    (o : Option ℕ) (file : FileRow) (fs : List FileRow)
    → FilesUnique fs
    → Holds (λ r. Keeps fs r.0) (prepare_row o file fs)
unfolding prepare_row
prepare_row-Keeps none file fs h = upsert_file-Keeps file fs h
prepare_row-Keeps (some id) file fs h =
    and_then-Holds (λ r. Keeps fs r.0) (λ r. Keeps fs r.0) (prepare_anchored id file fs) _
      (prepare_anchored-Keeps id file fs h)
      (λ r k. skip-Holds (λ r. Keeps fs r.0) (guard _ _) _ (λ _. k))

prepare_checked-SoundAfter :
    (id : ℕ) (file : FileRow) (now : ℕ) (db : Db)
    → IsSound db
    → Holds (λ r. SoundAfter db r.0) (prepare_checked id file now db)
unfolding prepare_checked
prepare_checked-SoundAfter id file now db s =
    skip-Holds (λ r. SoundAfter db r.0) (task_for_transition id in_flight db.tasks) _
      (λ t.
        skip-Holds (λ r. SoundAfter db r.0) (guard _ _) _
          (λ _.
            and_then-Holds (λ r. Keeps db.files r.0) (λ r. SoundAfter db r.0)
              (prepare_row t.file_id file db.files) _
              (prepare_row-Keeps t.file_id file db.files s.files_unique)
              (λ (fs, f) k.
                and_then-Holds IsUnique (λ r. SoundAfter db r.0)
                  (update_in_flight id (anchored_row f.id now) db.tasks) _
                  (update_in_flight-same_slots id (anchored_row f.id now) db.tasks
                    (λ u. (refl, refl, refl)) s.tasks_unique)
                  (λ ts u. Keeps-SoundAfter db (record db { tasks = ts; files = fs }) u k))))

pub prepare_file_for_task-SoundAfter :
    (id : ℕ) (file : FileRow) (now : ℕ) (db : Db)
    → IsSound db
    → Holds (λ r. SoundAfter db r.0) (prepare_file_for_task id file now db)
unfolding prepare_file_for_task
prepare_file_for_task-SoundAfter id file now db s = prepare_checked-SoundAfter id _ now db s

ensure_failure_file-Keeps :
    (t : Task) (fs : List FileRow) → FilesUnique fs → Keeps fs (ensure_failure_file t fs).0
unfolding ensure_failure_file failure_file_from
ensure_failure_file-Keeps t fs h = at (file_by_key (path_key t.path) fs) refl
  where
    at :
        (o : Option FileRow)
        → file_by_key (path_key t.path) fs ≡ o
        → Keeps fs (failure_file_from t o fs).0
    at none e = (
      Pairwise-snoc IsApart fs (failure_row t (next_file_id fs))
          (λ x m. (
            λ same. let fresh = next_file_id-fresh fs x m in absurd (omega arith),
            file_by_key-none (path_key t.path) fs x e m,
          ))
          h,
      append-Advances fs (failure_row t (next_file_id fs) ∷ []),
    )
    at (some f) e =
        let (m, k) = file_by_key_sound (path_key t.path) fs f e in
        if_elim (Keeps fs) (leb f.generation t.generation)
          (λ newer.
            in_place_mem-Keeps (has_file_id f.id)
              (λ r. record r { generation = t.generation; status = FileStatus.failed }) f.id fs
              (λ x l c.
                let i : x.id ≡ f.id = ground arith in
                let it = ap (λ r. r.generation) (same_file fs x f h l m i) in
                (i, refl, refl, ground arith))
              h)
          (λ _. (h, Advances-refl fs))

pub anchor_dead-SoundAfter :
    (o : Option ℕ) (t : Task) (db : Db) → IsSound db → SoundAfter db (anchor_dead o t db).0
unfolding anchor_dead
anchor_dead-SoundAfter (some file) t db s = SoundAfter-refl db s
anchor_dead-SoundAfter none t db s =
    Keeps-SoundAfter db _
      (same_slots-IsUnique (has_id t.id) _ db.tasks (λ u. (refl, refl, refl)) s.tasks_unique)
      (ensure_failure_file-Keeps t db.files s.files_unique)

pub bury-SoundAfter :
    (source : Text) (t : Task) (d : DeadRow) (db : Db)
    → IsSound db
    → Holds (SoundAfter db) (bury source t d db)
unfolding bury
bury-SoundAfter source t d db s =
    skip-Holds (SoundAfter db) (upsert_dead_letter d db.dead_letters) _ (λ ds.
      skip-Holds (SoundAfter db) (enqueue_audit _ db.audit) _ (λ as'.
        Keeps-SoundAfter db _ s.tasks_unique (
          in_place-Keeps (is_current d.file_id t.generation)
            (λ f. record f { status = FileStatus.failed }) d.file_id db.files
            (λ f c. (ground arith, refl, refl, omega arith)) s.files_unique)))

-- Anchoring and burying a task.
pub buried-SoundAfter :
    (source : Text) (o : Option ℕ) (t : Task) (d : ℕ → DeadRow) (db : Db)
    → IsSound db
    → Holds (SoundAfter db) (bury source t (d (anchor_dead o t db).1) (anchor_dead o t db).0)
buried-SoundAfter source o t d db s =
    let p = anchor_dead-SoundAfter o t db s in
    then-SoundAfter db (anchor_dead o t db).0 (λ d. d) _ p (bury-SoundAfter source t _ _ p.sound)

pub mark_dead-SoundAfter :
    (encode : History → Text) (id : ℕ) (info : DeadLetterInfo) (source : Text) (now : ℕ) (db : Db)
    → IsSound db
    → Holds (SoundAfter db) (mark_dead encode id info source now db)
unfolding mark_dead dead_task
mark_dead-SoundAfter encode id info source now db s = skip-Holds (SoundAfter db) (guard _ _) _ (λ _.
    and_then-Holds (Found db.tasks id) (SoundAfter db) (task_for_transition id in_flight db.tasks) _
      (task_for_transition-Found id db.tasks)
      (λ t found.
        and_then-Holds (Cleared dead t.id db.tasks) (SoundAfter db)
          (clear_older_state_slot t dead db.tasks) _
          (clear_older_state_slot-Cleared db.tasks t dead db.tasks (λ e. cc) s.tasks_unique found.0
            (λ v m _. m) s.tasks_unique)
          (λ ts cleared. skip-Holds (SoundAfter db) (merge_failure_history _ _) _ (λ chain.
            skip-Holds (SoundAfter db) (merge_failure_history _ _) _ (λ log.
              and_then-Holds IsUnique (SoundAfter db)
                (update_in_flight id (dead_task encode chain log now) ts) _
                (update_in_flight-IsUnique dead id (dead_task encode chain log now) ts
                  (λ u. (refl, refl, refl)) (subst (λ i. Free dead i ts) found.1 cleared.1)
                  cleared.0)
                (λ ts' u.
                  let mid : Db = record db { tasks = ts' } in
                  let p = Keeps-SoundAfter db mid u (s.files_unique, Advances-refl db.files) in
                  then-SoundAfter db mid (λ d. d) _ p
                    (buried-SoundAfter source t.file_id t
                      (λ file. dead_row t info file chain log now) mid p.sound)))))))
