-- ===== src/TaskQueue/Slots/Store.antt =====
-- Sequences of the store's transactions keep the unique indexes and the generation fence (taskqueue.go,
-- supersede.go, catalog.go, deadletter.go, reconcile_enqueue.go, store.go). The transactions of
-- directory.go, media_backfill.go, model_upgrade.go and vectors.go are not among them.
use ferret_new.Base.Int.{ℤ}
use ferret_new.Base.Bytes.{Text}
use ferret_new.TaskQueue.Slots.Recovery.{begin_startup-SoundAfter}
use ferret_new.TaskQueue.Recovery.{begin_startup, Versions, redrive_all}
use ferret_new.TaskQueue.Slots.Complete.{
  mark_dead-SoundAfter, complete_committed_batch-SoundAfter, complete_task-SoundAfter,
  prepare_file_for_task-SoundAfter,
}
use ferret_new.TaskQueue.Slots.Bump.{
  redrive_all-SoundAfter, enqueue_reconcile-SoundAfter, enqueue_and_bump-SoundAfter,
}
use ferret_new.TaskQueue.Complete.{
  mark_dead, complete_committed_batch, DeadLetterInfo, complete_task, CommittedTask,
  prepare_file_for_task, CompleteParams,
}
use ferret_new.TaskQueue.Bump.{enqueue_reconcile, ReconcileParams, enqueue_and_bump}
use ferret_new.Base.Int.{is_nonpos}
use ferret_new.Catalog.{upsert_file, bump_generation, relocate_file, mark_file_deleted}
use ferret_new.Catalog.Fence.{
  Keeps, upsert_file-Keeps, bump_generation-Keeps, relocate_file-Keeps, mark_file_deleted-Keeps,
}
use ferret_new.TaskQueue.Slots.Whole.{
  Keeps-SoundAfter, SoundAfter-trans, SoundAfter-refl, same_files-SoundAfter, mark_done_tx-files,
  SoundAfter, enqueue-files, IsSound,
}
use ferret_new.TaskQueue.Slots.Step.{skip-Holds, Holds}
use ferret_new.TaskQueue.Release.{release_to_pending}
use ferret_new.TaskQueue.Claim.{Source, claim}
use ferret_new.TaskQueue.Finish.{
  clear_done, superseded_row, retry_row, retry_histories, successor, park_all, clear_slots,
  tasks_for_transition, validate_batch, mark_retry, mark_waiting_dep, retire_if_superseded,
}
use ferret_new.TaskQueue.{
  DeadRow, update_in_flight, clear_older_state_slot, task_for_transition, err, ok, FileRow, Result,
  Db,
}
use ferret_new.Task.{Task, retry_wait, in_flight, TaskState, EnqueueParams, History}
use ferret_new.Base.{leb, ℕ, ◌≡◌, refl, Bool, Option, List, [], ◌∷◌, if_elim}
use ferret_new.TaskQueue.Slots.Run.{
  step-IsUnique, kept, kept_first, step, Call, enqueues, claims, finishes, retries, parks, releases,
  retires,
}

-- A call, with the time of the clock last; `queues` is one of the calls that leave the catalog alone.
pub data StoreCall : Type 0 where
  queues : Call → StoreCall
  bumps : EnqueueParams → ℕ → StoreCall
  reconciles : ReconcileParams → ℕ → StoreCall
  prepares : ℕ → FileRow → ℕ → StoreCall
  completes : CompleteParams → ℕ → StoreCall
  commits : List CommittedTask → ℕ → StoreCall
  dies : ℕ → DeadLetterInfo → Text → ℕ → StoreCall
  redrives : Text → ℤ → List DeadRow → ℕ → StoreCall
  restarts : Option Text → Versions → ℕ → StoreCall
  upserts : FileRow → StoreCall
  bumps_file : Text → StoreCall
  relocates_file : ℕ → ℕ → Text → StoreCall
  deletes_file : ℕ → ℕ → StoreCall

-- A statement on the catalog alone.
abbrev on_files : Db → Result (List FileRow × FileRow) → Db
on_files db (ok (fs, f)) = record db { files = fs }
on_files db (err e) = db

abbrev on_table : Db → Result (List FileRow) → Db
on_table db (ok fs) = record db { files = fs }
on_table db (err e) = db

on_files-SoundAfter :
    (db : Db) (r : Result (List FileRow × FileRow))
    → IsSound db
    → Holds (λ p. Keeps db.files p.0) r
    → SoundAfter db (on_files db r)
on_files-SoundAfter db (ok (fs, f)) s k =
    Keeps-SoundAfter db (record db { files = fs }) s.tasks_unique k
on_files-SoundAfter db (err e) s k = SoundAfter-refl db s

on_table-SoundAfter :
    (db : Db) (r : Result (List FileRow))
    → IsSound db
    → Holds (Keeps db.files) r
    → SoundAfter db (on_table db r)
on_table-SoundAfter db (ok fs) s k = Keeps-SoundAfter db (record db { files = fs }) s.tasks_unique k
on_table-SoundAfter db (err e) s k = SoundAfter-refl db s

kept-SoundAfter :
    (db : Db) (r : Result Db) → IsSound db → Holds (SoundAfter db) r → SoundAfter db (kept db r)
kept-SoundAfter db (ok db') s k = k
kept-SoundAfter db (err e) s k = SoundAfter-refl db s

kept_first-SoundAfter :
    {A : Type 0}
    → (db : Db) (r : Result (Db × A)) → IsSound db
    → Holds (λ d. SoundAfter db d.0) r
    → SoundAfter db (kept_first db r)
kept_first-SoundAfter db (ok (db', a)) s k = k
kept_first-SoundAfter db (err e) s k = SoundAfter-refl db s

claim-files :
    (source : Source) (n : ℤ) (now : ℕ) (db : Db) → (claim source n now db).0.files ≡ db.files
unfolding claim
claim-files source n now db =
    if_elim {A = Db × List Task} (λ r. r.0.files ≡ db.files) (is_nonpos n) (λ _. refl) (λ _. refl)

release_to_pending-files :
    (state : TaskState) (due : ℕ) (limit : ℤ) (now : ℕ) (db : Db)
    → (release_to_pending state due limit now db).0.files ≡ db.files
unfolding release_to_pending
release_to_pending-files state due limit now db = refl

kept-files :
    (db : Db) (r : Result Db) → Holds (λ d. d.files ≡ db.files) r → (kept db r).files ≡ db.files
kept-files db (ok db') k = k
kept-files db (err e) k = refl

kept_first-files :
    {A : Type 0}
    → (db : Db) (r : Result (Db × A)) → Holds (λ d. d.0.files ≡ db.files) r
    → (kept_first db r).files ≡ db.files
kept_first-files db (ok (db', a)) k = k
kept_first-files db (err e) k = refl

mark_retry-files :
    (class : Text) (id next : ℕ) (last_error : Text) (refund : Bool) (now : ℕ) (db : Db)
    → Holds (λ d. d.files ≡ db.files) (mark_retry class id next last_error refund now db)
unfolding mark_retry
mark_retry-files class id next last_error refund now db =
    skip-Holds _ (task_for_transition id in_flight db.tasks) _ (λ t.
      skip-Holds _ (clear_older_state_slot t retry_wait db.tasks) _ (λ ts.
        skip-Holds _ (retry_histories refund t class last_error now) _ (λ h.
          skip-Holds _ (update_in_flight id (retry_row refund next last_error h now) ts) _
            (λ ts'. refl))))

mark_waiting_dep-files :
    (ids : List ℕ) (last_error : Text) (now : ℕ) (db : Db)
    → Holds (λ d. d.files ≡ db.files) (mark_waiting_dep ids last_error now db)
unfolding mark_waiting_dep
mark_waiting_dep-files [] last_error now db = tt
mark_waiting_dep-files (id ∷ ids) last_error now db =
    skip-Holds _ (validate_batch [] (id ∷ ids)) _ (λ _.
      skip-Holds _ (tasks_for_transition (id ∷ ids) db.tasks) _ (λ batch.
        skip-Holds _ (clear_slots batch db.tasks) _
          (λ ts. skip-Holds _ (park_all last_error now (id ∷ ids) ts) _ (λ ts'. refl))))

retire_if_superseded-files :
    (message : Text) (id now : ℕ) (db : Db)
    → Holds (λ r. r.0.files ≡ db.files) (retire_if_superseded message id now db)
unfolding retire_if_superseded
retire_if_superseded-files message id now db =
    skip-Holds _ (task_for_transition id in_flight db.tasks) _ (λ t.
      if_elim (Holds {A = Db × Bool} (λ r. r.0.files ≡ db.files))
        (leb (successor t db) t.generation) (λ _. refl)
        (λ _.
          skip-Holds {B = Db × Bool} (λ r. r.0.files ≡ db.files)
            (update_in_flight id (superseded_row message now) (clear_done t db.tasks)) _
            (λ ts. refl)))

step-files : (c : Call) (db : Db) → (step c db).files ≡ db.files
unfolding step
step-files (enqueues params now) db = kept_first-files db _ (enqueue-files params now db)
step-files (claims source n now) db = claim-files source n now db
step-files (finishes id clear_resolved now) db =
    kept-files db _ (mark_done_tx-files id clear_resolved now db)
step-files (retries class id next last_error refund now) db =
    kept-files db _ (mark_retry-files class id next last_error refund now db)
step-files (parks ids last_error now) db =
    kept-files db _ (mark_waiting_dep-files ids last_error now db)
step-files (releases state due limit now) db = release_to_pending-files state due limit now db
step-files (retires message id now) db =
    kept_first-files db _ (retire_if_superseded-files message id now db)

module _ (encode : History → Text) where
  unfoldable pub store_step : StoreCall → Db → Db
  store_step (queues c) db = step c db
  store_step (bumps params now) db = kept_first db (enqueue_and_bump params now db)
  store_step (reconciles params now) db = kept_first db (enqueue_reconcile params now db)
  store_step (prepares id file now) db = kept_first db (prepare_file_for_task id file now db)
  store_step (completes params now) db = kept db (complete_task params now db)
  store_step (commits cs now) db = kept db (complete_committed_batch cs now db)
  store_step (dies id info source now) db = kept db (mark_dead encode id info source now db)
  store_step (redrives source priority ds now) db = kept db (redrive_all source priority now ds db)
  store_step (restarts clean versions now) db = kept_first db (begin_startup clean versions now db)
  store_step (upserts file) db = on_files db (upsert_file file db.files)
  store_step (bumps_file path) db = on_files db (bump_generation path db.files)
  store_step (relocates_file id generation path) db =
      on_files db (relocate_file id generation path db.files)
  store_step (deletes_file id generation) db =
      on_table db (mark_file_deleted id generation db.files)

  unfoldable pub store_run : List StoreCall → Db → Db
  store_run [] db = db
  store_run (c ∷ cs) db = store_run cs (store_step c db)

  store_step-SoundAfter : (c : StoreCall) (db : Db) → IsSound db → SoundAfter db (store_step c db)
  unfolding store_step
  store_step-SoundAfter (queues c) db s =
      same_files-SoundAfter db (step c db) s (step-IsUnique c db s.tasks_unique) (step-files c db)
  store_step-SoundAfter (bumps params now) db s =
      kept_first-SoundAfter db _ s (enqueue_and_bump-SoundAfter params now db s)
  store_step-SoundAfter (reconciles params now) db s =
      kept_first-SoundAfter db _ s (enqueue_reconcile-SoundAfter params now db s)
  store_step-SoundAfter (prepares id file now) db s =
      kept_first-SoundAfter db _ s (prepare_file_for_task-SoundAfter id file now db s)
  store_step-SoundAfter (completes params now) db s =
      kept-SoundAfter db _ s (complete_task-SoundAfter params now db s)
  store_step-SoundAfter (commits cs now) db s =
      kept-SoundAfter db _ s (complete_committed_batch-SoundAfter cs now db s)
  store_step-SoundAfter (dies id info source now) db s =
      kept-SoundAfter db _ s (mark_dead-SoundAfter encode id info source now db s)
  store_step-SoundAfter (redrives source priority ds now) db s =
      kept-SoundAfter db _ s (redrive_all-SoundAfter source priority now ds db s)
  store_step-SoundAfter (restarts clean versions now) db s =
      kept_first-SoundAfter db _ s (begin_startup-SoundAfter clean versions now db s)
  store_step-SoundAfter (upserts file) db s =
      on_files-SoundAfter db _ s (upsert_file-Keeps file db.files s.files_unique)
  store_step-SoundAfter (bumps_file path) db s =
      on_files-SoundAfter db _ s (bump_generation-Keeps path db.files s.files_unique)
  store_step-SoundAfter (relocates_file id generation path) db s =
      on_files-SoundAfter db _ s (relocate_file-Keeps id generation path db.files s.files_unique)
  store_step-SoundAfter (deletes_file id generation) db s =
      on_table-SoundAfter db _ s (mark_file_deleted-Keeps id generation db.files s.files_unique)

  -- If the ids and the slots of the tasks, and the ids and the paths of the files, are distinct, then
  -- they are distinct after any sequence of these transactions, and every file is still there, with a
  -- generation that is no older: enqueues (also with a bump, and of a scan), claims, completions,
  -- retries, parkings, releases, retirements, preparations, committed batches, burials, redrives, starts
  -- after a crash, and upserts, bumps, relocations and deletions of files.
  pub store_run-SoundAfter :
      (cs : List StoreCall) (db : Db) → IsSound db → SoundAfter db (store_run cs db)
  unfolding store_run
  store_run-SoundAfter [] db s = SoundAfter-refl db s
  store_run-SoundAfter (c ∷ cs) db s =
      let p = store_step-SoundAfter c db s in
      SoundAfter-trans db (store_step c db) (store_run cs (store_step c db)) p
        (store_run-SoundAfter cs (store_step c db) p.sound)
