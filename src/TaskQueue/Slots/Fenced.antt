-- ===== src/TaskQueue/Slots/Fenced.antt =====
-- A change that is enqueued fences off the older work on its file (taskqueue.go:
-- EnqueueAndBumpGeneration, CompleteTask,
-- CompleteCommittedBatch).
use mathlib.Core.List.{Memᴰ}
use ferret_new.Base.{false, ℕ, ◌≡◌, ◌≤◌, sym, subst, arith, some, List}
use ferret_new.Task.{EnqueueParams, EnqueueResult, History}
use ferret_new.TaskQueue.{Text, Db, FileRow, ok, path_key}
use ferret_new.TaskQueue.Bump.{catalog_path, enqueue_and_bump}
use ferret_new.TaskQueue.Bump.Newest.{OutrunsFile, Outruns, enqueue_and_bump-Outruns}
use ferret_new.TaskQueue.Complete.{
  CompleteParams, complete_task, CommittedTask, complete_committed_batch,
}
use ferret_new.TaskQueue.Complete.Current.{
  Newer, complete_committed_batch-IsErr, IsErr, Newer-Advances, complete_task-IsErr,
}
use ferret_new.TaskQueue.Slots.Bump.{enqueue_and_bump-SoundAfter}
use ferret_new.TaskQueue.Slots.Step.{Holds}
use ferret_new.TaskQueue.Slots.Whole.{IsSound, SoundAfter}
use ferret_new.TaskQueue.Slots.Store.{StoreCall, store_run, store_run-SoundAfter}
use ferret_new.Catalog.{file_by_id, file_by_key}

-- When the ids, slots and paths are distinct, the path of a change has the catalog row `file`, and the
-- change is enqueued, then whatever of the store's modelled transactions follow, CompleteTask for that
-- file and a generation up to the one before the change fails, and so does CompleteCommittedBatch with
-- such an item that is not marked stale. `encode` is the JSON text of a history.
pub stale_completion-IsErr :
    (encode : History → Text) (params : EnqueueParams) (file : FileRow) (p : CompleteParams)
    (c : CommittedTask) (items : List CommittedTask) (cs : List StoreCall) (now later : ℕ)
    (db db' : Db) (r : EnqueueResult)
    → IsSound db
    → file_by_key (path_key (catalog_path params)) db.files ≡ some file
    → enqueue_and_bump params now db ≡ ok (db', r)
    → p.file_id ≡ file.id
    → p.generation ≤ file.generation
    → Memᴰ c items
    → c.stale ≡ false
    → c.file_id ≡ file.id
    → c.generation ≤ file.generation
    → IsErr (complete_task p later (store_run encode cs db'))
      × IsErr (complete_committed_batch items later (store_run encode cs db'))
stale_completion-IsErr encode params file p c items cs now later db db' r s known done_so same old
      there current same_too old_too =
    (
      complete_task-IsErr p later (store_run encode cs db') ran.sound
          (overtaken p.file_id p.generation same old),
      complete_committed_batch-IsErr c items later (store_run encode cs db') there current ran.sound
          (overtaken c.file_id c.generation same_too old_too),
    )
  where
    bumped_ok : SoundAfter db db'
    bumped_ok =
        subst (Holds (λ q. SoundAfter db q.0)) done_so (enqueue_and_bump-SoundAfter params now db s)

    newest : OutrunsFile file db' r.task
    newest =
        subst (λ o. Outruns params now db o db' r.task) known
          (subst
            (Holds (λ q.
              Outruns params now db (file_by_key (path_key (catalog_path params)) db.files) q.0
                q.1.task))
            done_so (enqueue_and_bump-Outruns params now db s.files_unique))

    ran : SoundAfter db' (store_run encode cs db')
    ran = store_run-SoundAfter encode cs db' bumped_ok.sound

    -- The file is newer than the work, then and ever after.
    overtaken :
        (id generation : ℕ)
        → id ≡ file.id
        → generation ≤ file.generation
        → Newer id generation (store_run encode cs db').files
    overtaken id generation same old =
        Newer-Advances id generation db'.files (store_run encode cs db').files ran.advances (
          let (f, found, newer) = newest.1 in
          (
            f,
            subst (λ i. file_by_id i db'.files ≡ some f) (sym same) found,
            omega (arith, newer, old),
          ))
