-- ===== src/TaskQueue/Slots/Whole.antt =====
-- What the operations that write several tables keep: the unique indexes of tasks and files, and the
-- generation fence (taskqueue.go, catalog.go).
use ferret_new.Base.{
  inr, inl, ◌⊎◌, any, ℕ, ◌≡◌, refl, sym, ap, subst, ◌∙◌, Bool, true, false, ◌&&◌, List, if_elim,
  Bool-cases, ◌==◌,
}
use ferret_new.Task.{state_eq, Task, in_flight, EnqueueParams}
use ferret_new.TaskQueue.{
  Db, Result, path_key, update_where, update_in_flight, is_refused, task_for_transition,
}
use ferret_new.TaskQueue.Enqueue.{validate_enqueue, enqueue}
use ferret_new.TaskQueue.Finish.{mark_done_tx, clear_done, done_row}
use ferret_new.TaskQueue.Slots.{IsUnique, update_where-IsUnique, updated}
use ferret_new.TaskQueue.Slots.Step.{Holds, skip-Holds, both-Holds, weaken-Holds}
use ferret_new.TaskQueue.Slots.Finish.{mark_done_tx-IsUnique}
use ferret_new.TaskQueue.Slots.Enqueue.{enqueue-IsUnique}
use ferret_new.Catalog.Rows.{FilesUnique}
use ferret_new.Catalog.Fence.{Keeps, Advances, Advances-refl, Advances-trans}

-- The ids, slots and paths of the two tables are distinct.
pub record IsSound (db : Db) : Type 0 where
  pub tasks_unique : IsUnique db.tasks
  pub files_unique : FilesUnique db.files

-- The database is sound and its catalog advanced.
pub record SoundAfter (db db' : Db) : Type 0 where
  pub sound : IsSound db'
  pub advances : Advances db.files db'.files

pub SoundAfter-trans : (a b c : Db) → SoundAfter a b → SoundAfter b c → SoundAfter a c
SoundAfter-trans a b c p q = record {
  sound = q.sound;
  advances = Advances-trans a.files b.files c.files p.advances q.advances;
}

pub SoundAfter-refl : (db : Db) → IsSound db → SoundAfter db db
SoundAfter-refl db s = record { sound = s; advances = Advances-refl db.files }

-- An operation that leaves the catalog alone.
pub same_files-SoundAfter :
    (db db' : Db) → IsSound db → IsUnique db'.tasks → db'.files ≡ db.files → SoundAfter db db'
same_files-SoundAfter db db' s u e = record {
  sound = record { tasks_unique = u; files_unique = subst FilesUnique (sym e) s.files_unique };
  advances = subst (Advances db.files) (sym e) (Advances-refl db.files);
}

-- An operation with new files, before another one.
pub Keeps-SoundAfter :
    (db db' : Db) → IsUnique db'.tasks → Keeps db.files db'.files → SoundAfter db db'
Keeps-SoundAfter db db' u k = record {
  sound = record { tasks_unique = u; files_unique = k.0 };
  advances = k.1;
}

pub enqueue-files :
    (params : EnqueueParams) (now : ℕ) (db : Db)
    → Holds (λ r. r.0.files ≡ db.files) (enqueue params now db)
unfolding enqueue
enqueue-files params now db = skip-Holds _ (validate_enqueue params) _ (λ _. refl)

pub enqueue-SoundAfter :
    (params : EnqueueParams) (now : ℕ) (db : Db)
    → IsSound db
    → Holds (λ r. SoundAfter db r.0) (enqueue params now db)
enqueue-SoundAfter params now db s =
    weaken-Holds (λ r. IsUnique r.0.tasks × (r.0.files ≡ db.files)) (λ r. SoundAfter db r.0)
      (enqueue params now db) (λ r h. same_files-SoundAfter db r.0 s h.0 h.1)
      (both-Holds (λ r. IsUnique r.0.tasks) (λ r. r.0.files ≡ db.files) (enqueue params now db)
        (enqueue-IsUnique params now db s.tasks_unique) (enqueue-files params now db))

pub mark_done_tx-files :
    (id : ℕ) (clear_resolved : Bool) (now : ℕ) (db : Db)
    → Holds (λ d. d.files ≡ db.files) (mark_done_tx id clear_resolved now db)
unfolding mark_done_tx
mark_done_tx-files id clear_resolved now db =
    skip-Holds _ (task_for_transition id in_flight db.tasks) _ (λ t.
      skip-Holds _ (update_in_flight id (done_row now) (clear_done t db.tasks)) _ (λ ts. refl))

pub mark_done_tx-SoundAfter :
    (id : ℕ) (clear_resolved : Bool) (now : ℕ) (db : Db)
    → IsSound db
    → Holds (SoundAfter db) (mark_done_tx id clear_resolved now db)
mark_done_tx-SoundAfter id clear_resolved now db s =
    weaken-Holds (λ d. IsUnique d.tasks × (d.files ≡ db.files)) (SoundAfter db)
      (mark_done_tx id clear_resolved now db) (λ d h. same_files-SoundAfter db d s h.0 h.1)
      (both-Holds (λ d. IsUnique d.tasks) (λ d. d.files ≡ db.files)
        (mark_done_tx id clear_resolved now db)
        (mark_done_tx-IsUnique id clear_resolved now db s.tasks_unique)
        (mark_done_tx-files id clear_resolved now db))

-- New files, and then an operation that is sound on them.
pub then-SoundAfter :
    {A : Type 0}
    → (db mid : Db) (view : A → Db) (r : Result A) → SoundAfter db mid
    → Holds (λ a. SoundAfter mid (view a)) r
    → Holds (λ a. SoundAfter db (view a)) r
then-SoundAfter db mid view r p h =
    weaken-Holds (λ a. SoundAfter mid (view a)) (λ a. SoundAfter db (view a)) r
      (λ a q. SoundAfter-trans db mid (view a) p q) h

-- An update that changes neither ids nor paths nor states.
pub same_slots-IsUnique :
    (p : Task → Bool) (f : Task → Task) (ts : List Task)
    → ((t : Task) → ((f t).id ≡ t.id) × ((f t).path ≡ t.path) × ((f t).state ≡ t.state))
    → IsUnique ts
    → IsUnique (update_where p f ts)
same_slots-IsUnique p f ts k h =
    update_where-IsUnique p f ts
      (λ t u m l a.
        let (it, pt, st) = same t (Bool-cases (p t)) in
        let (iu, pu, su) = same u (Bool-cases (p u)) in
        (
          λ e. a.0 (sym it ∙ e ∙ iu),
          λ e s. a.1 (ap path_key (sym pt) ∙ e ∙ ap path_key pu) (sym st ∙ s ∙ su),
        ))
      h
  where
    same :
        (t : Task)
        → (p t ≡ true) ⊎ (p t ≡ false)
        → ((updated p f t).id ≡ t.id)
          × ((updated p f t).path ≡ t.path)
          × ((updated p f t).state ≡ t.state)
    same t (inl c) = rw c (k t)
    same t (inr c) = rw c (refl, refl, refl)

pub update_in_flight-same_slots :
    (id : ℕ) (f : Task → Task) (ts : List Task)
    → ((t : Task) → ((f t).id ≡ t.id) × ((f t).path ≡ t.path) × ((f t).state ≡ t.state))
    → IsUnique ts
    → Holds IsUnique (update_in_flight id f ts)
unfolding update_in_flight
update_in_flight-same_slots id f ts k h =
    if_elim (Holds IsUnique) (any (λ t. t.id == id && state_eq t.state in_flight) ts)
      (λ _.
        if_elim (Holds IsUnique) (is_refused id f ts) (λ _. tt)
          (λ _. same_slots-IsUnique (λ t. t.id == id && state_eq t.state in_flight) f ts k h))
      (λ _. tt)
