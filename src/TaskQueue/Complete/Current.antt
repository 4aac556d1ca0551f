-- ===== src/TaskQueue/Complete/Current.antt =====
-- The generation fence: a task of an older generation than its file's cannot be completed
-- (taskqueue.go: CompleteTask, CompleteCommittedBatch).
use ferret_new.TaskQueue.Slots.Complete.{complete_committed-SoundAfter}
use ferret_new.TaskQueue.Slots.Step.{anything, Holds}
use ferret_new.Catalog.Rows.{same_file, file_by_id_sound, FilesUnique}
use ferret_new.TaskQueue.Slots.Whole.{SoundAfter, IsSound}
use mathlib.Core.List.{Memᴰ}
use ferret_new.Catalog.Fence.{Advances}
use ferret_new.TaskQueue.{
  in_flight, guard, task_for_transition, Db, err, and_then, ok, Result, FileRow,
}
use ferret_new.Catalog.{is_current, file_by_id, set_current}
use ferret_new.TaskQueue.Complete.{
  completed_row, CommittedTask, CompleteParams, complete_committed, record_committed,
  complete_committed_batch, complete_task,
}
use ferret_new.Base.{
  any_sound, subst, any, ◌<◌, ℕ, ◌≡◌, sym, ap, ◌∙◌, arith, Bool, true, false, some, List, [], ◌∷◌,
  if_elim,
}

-- The operation fails.
abbrev pub IsErr : {A : Type 0} → Result A → Type 0
IsErr (ok a) = ⊥
IsErr (err e) = Unit {0}

-- A step of which something is known, before one that fails.
pub and_then-IsErr :
    {A B : Type 0}
    → (P : A → Type 0) (r : Result A) (f : A → Result B) → Holds P r
    → ((a : A) → P a → IsErr (f a))
    → IsErr (and_then r f)
and_then-IsErr P (ok a) f h k = k a h
and_then-IsErr P (err e) f h k = tt

stopped-IsErr : {A B : Type 0} → (r : Result A) (f : A → Result B) → IsErr r → IsErr (and_then r f)
stopped-IsErr (ok a) f h = absurd h
stopped-IsErr (err e) f h = tt

-- The file of an id has a generation that is newer than this one.
abbrev pub Newer : ℕ → ℕ → List FileRow → Type 0
Newer id generation fs = (f : FileRow) × (file_by_id id fs ≡ some f) × (generation < f.generation)

-- A file's generation only grows.
pub Newer-Advances :
    (id generation : ℕ) (fs gs : List FileRow)
    → Advances fs gs
    → Newer id generation fs
    → Newer id generation gs
Newer-Advances id generation fs gs advances (f, found, newer) =
    let (g, e, le) = advances id f found in (g, e, omega (arith, newer, le))

set_current-IsErr :
    (id generation : ℕ) (g : FileRow → FileRow) (fs : List FileRow)
    → FilesUnique fs
    → Newer id generation fs
    → IsErr (set_current id generation g fs)
unfolding set_current
set_current-IsErr id generation g fs h (f, found, newer) =
    if_elim IsErr (any (is_current id generation) fs)
      (λ hit.
        let (x, m, c) = any_sound (is_current id generation) fs hit in
        let (l, i) = file_by_id_sound id fs f found in
        let j : x.id ≡ id = ground arith in
        let same = ap (λ r. r.generation) (same_file fs x f h m l (j ∙ sym i)) in
        absurd (ground arith))
      (λ _. tt)

-- When the file of a completion has a newer generation, the completion fails.
pub complete_task-IsErr :
    (p : CompleteParams) (now : ℕ) (db : Db)
    → IsSound db
    → Newer p.file_id p.generation db.files
    → IsErr (complete_task p now db)
unfolding complete_task
complete_task-IsErr p now db s newer =
    and_then-IsErr (λ _. Unit {0}) (task_for_transition p.task_id in_flight db.tasks) _ (anything _)
      (λ t _.
        and_then-IsErr (λ _. Unit {0}) (guard _ _) _ (anything _)
          (λ _ _. stopped-IsErr (set_current p.file_id p.generation (completed_row p) db.files) _ (
            set_current-IsErr p.file_id p.generation (completed_row p) db.files s.files_unique
              newer)))

record_committed-IsErr :
    (stale : Bool) (c : CommittedTask) (fs : List FileRow)
    → stale ≡ false
    → FilesUnique fs
    → Newer c.file_id c.generation fs
    → IsErr (record_committed stale c fs)
unfolding record_committed
record_committed-IsErr true c fs current h newer = cc
record_committed-IsErr false c fs current h newer =
    set_current-IsErr c.file_id c.generation _ fs h newer

complete_committed-IsErr :
    (c : CommittedTask) (now : ℕ) (db : Db)
    → c.stale ≡ false
    → IsSound db
    → Newer c.file_id c.generation db.files
    → IsErr (complete_committed c now db)
unfolding complete_committed
complete_committed-IsErr c now db current s newer =
    and_then-IsErr (λ _. Unit {0}) (guard _ _) _ (anything _)
      (λ _ _.
        and_then-IsErr (λ _. Unit {0}) (task_for_transition c.task_id in_flight db.tasks) _
          (anything _)
          (λ t _.
            and_then-IsErr (λ _. Unit {0}) (guard _ _) _ (anything _)
              (λ _ _.
                stopped-IsErr (record_committed c.stale c db.files) _
                  (record_committed-IsErr c.stale c db.files current s.files_unique newer))))

-- When the ids, slots and paths are distinct, and the batch has an item that is not marked as stale
-- and whose file has a newer generation, then the batch fails, wherever the item stands in it.
pub complete_committed_batch-IsErr :
    (c : CommittedTask) (cs : List CommittedTask) (now : ℕ) (db : Db)
    → Memᴰ c cs
    → c.stale ≡ false
    → IsSound db
    → Newer c.file_id c.generation db.files
    → IsErr (complete_committed_batch cs now db)
unfolding complete_committed_batch
complete_committed_batch-IsErr c [] now db m current s newer = elim m [ ]
complete_committed_batch-IsErr c (d ∷ ds) now db (Memᴰ.head e) current s newer =
    stopped-IsErr (complete_committed d now db) _ (
      subst (λ x. IsErr (complete_committed x now db)) e
        (complete_committed-IsErr c now db current s newer))
complete_committed_batch-IsErr c (d ∷ ds) now db (Memᴰ.tail m) current s newer =
    and_then-IsErr (SoundAfter db) (complete_committed d now db) _
      (complete_committed-SoundAfter d now db s)
      (λ mid p.
        complete_committed_batch-IsErr c ds now mid m current p.sound
          (Newer-Advances c.file_id c.generation db.files mid.files p.advances newer))
