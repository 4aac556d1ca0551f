-- ===== src/TaskQueue/Slots/Enqueue.antt =====
-- Enqueueing keeps the unique index (taskqueue.go: EnqueueTx).
use mathlib.Core.List.{Memᴰ}
use ferret_new.Base.{
  ℕ, ◌<◌, ◌≡◌, refl, sym, ◌∙◌, arith, Option, none, some, List, [], ◌∷◌, ◌++◌, All-append, if_elim,
  leb,
}
use ferret_new.Task.{Task, pending, EnqueueParams}
use ferret_new.TaskQueue.{Db, path_key, find_slot}
use ferret_new.TaskQueue.Slots.{IsUnique, Apart}
use ferret_new.TaskQueue.Slots.Step.{Holds, and_then-Holds, anything}
use ferret_new.TaskQueue.Slots.Release.{find_slot-none, find_slot-some, replaced-IsUnique}
use ferret_new.TaskQueue.Enqueue.{
  validate_enqueue, next_id, new_row, merge_row, upsert_task, enqueue,
}

next_id-fresh : (ts : List Task) (t : Task) → Memᴰ t ts → t.id < next_id ts
unfolding next_id
next_id-fresh [] t m = elim m [ ]
next_id-fresh (x ∷ ts) t (Memᴰ.head e) = ground arith
next_id-fresh (x ∷ ts) t (Memᴰ.tail m) = ground (arith, next_id-fresh ts t m)

append-IsUnique :
    (ts : List Task) (new : Task)
    → ((t : Task) → Memᴰ t ts → Apart t new)
    → IsUnique ts
    → IsUnique (ts ++ (new ∷ []))
append-IsUnique [] new k h = (tt, tt)
append-IsUnique (x ∷ ts) new k h = (
  All-append (Apart x) ts (new ∷ []) h.0 (k x (Memᴰ.head refl), tt),
  append-IsUnique ts new (λ t m. k t (Memᴰ.tail m)) h.1,
)

merged-key :
    (new t : Task)
    → path_key new.path ≡ path_key t.path
    → path_key (merge_row new t).path ≡ path_key t.path
unfolding merge_row
merged-key new t e =
    if_elim (λ p. path_key p ≡ path_key t.path) (leb t.generation new.generation) (λ _. e)
      (λ _. refl)

merge_row-kept :
    (new t : Task)
    → t.state ≡ pending
    → path_key t.path ≡ path_key new.path
    → ((merge_row new t).id ≡ t.id)
      × (path_key (merge_row new t).path ≡ path_key new.path)
      × ((merge_row new t).state ≡ pending)
unfolding merge_row
merge_row-kept new t st k = (refl, merged-key new t (sym k) ∙ k, st)

upsert_task-IsUnique :
    (new : Task) (ts : List Task)
    → new.state ≡ pending
    → new.id ≡ next_id ts
    → IsUnique ts
    → IsUnique (upsert_task new (find_slot (path_key new.path) pending ts) ts).0
unfolding upsert_task
upsert_task-IsUnique new ts s i h = at (find_slot (path_key new.path) pending ts) refl
  where
    at :
        (o : Option Task)
        → find_slot (path_key new.path) pending ts ≡ o
        → IsUnique (upsert_task new o ts).0
    at none e =
        append-IsUnique ts new
          (λ t m. (
            λ same. let fresh = next_id-fresh ts t m in absurd (omega arith),
            λ key both. find_slot-none (path_key new.path) pending ts t e m key (both ∙ s),
          ))
          h
    at (some t) e =
        let (m, k, st) = find_slot-some (path_key new.path) pending ts t e in
        replaced-IsUnique (path_key new.path) pending (merge_row new) ts t m k st
          (merge_row-kept new t st k) h

pub enqueue-IsUnique :
    (params : EnqueueParams) (now : ℕ) (db : Db)
    → IsUnique db.tasks
    → Holds (λ r. IsUnique r.0.tasks) (enqueue params now db)
unfolding enqueue
enqueue-IsUnique params now db h =
    and_then-Holds (λ _. Unit {0}) (λ r. IsUnique r.0.tasks) (validate_enqueue params) _
      (anything (validate_enqueue params))
      (λ _ _. upsert_task-IsUnique (new_row params (next_id db.tasks) now) db.tasks refl refl h)
