-- ===== src/TaskQueue/Slots/Bump.antt =====
-- Enqueueing with a bump of the generation, for a change or for a scan's difference, and redriving dead
-- letters keep the unique indexes and the generation fence (taskqueue.go: EnqueueAndBumpGeneration;
-- reconcile_enqueue.go; deadletter.go: redriveDeadLettersTx).
use ferret_new.Base.Int.{ℤ}
use ferret_new.Base.Bytes.{Text}
use ferret_new.Task.{Task}
use ferret_new.TaskQueue.Complete.{enqueue_audit}
use ferret_new.Catalog.{set_current, file_by_id, bump_generation_by_id, bump_generation}
use ferret_new.TaskQueue.Slots.Step.{skip-Holds, and_then-Holds, Holds}
use ferret_new.Catalog.Fence.{
  set_current-Keeps, bump_generation-Keeps, bump_generation_by_id-Keeps, Keeps,
}
use ferret_new.TaskQueue.Slots.Whole.{
  SoundAfter-trans, Keeps-SoundAfter, then-SoundAfter, SoundAfter-refl, enqueue-SoundAfter,
  SoundAfter, IsSound,
}
use ferret_new.Task.{EnqueueParams}
use ferret_new.TaskQueue.{
  FileStatus, guard, not_found, invalid_transition, err, ok, DeadRow, Db, Result, FileRow,
}
use ferret_new.TaskQueue.Recovery.{redrive_found, redrive_current, redrive_all}
use ferret_new.TaskQueue.Bump.{
  enqueue_anchored_to, is_unchanged, source_path, covering, is_taken, ReconcileOutcome,
  catalog_path, validate_reconcile, next_generation, ReconcileParams, enqueue_reconcile,
  enqueue_pre_catalog, enqueue_bumped, reconcile_uncovered, enqueue_and_bump, enqueue_anchored,
  reconcile_new, enqueue_unanchored,
}
use ferret_new.TaskQueue.Enqueue.{enqueue}
use ferret_new.Base.{ltb, ℕ, refl, Option, none, some, List, [], ◌∷◌, if_elim}

-- The enqueueing of a task after an update of the catalog.
enqueue_after :
    (fs : List FileRow) (params : EnqueueParams) (now : ℕ) (db : Db)
    → IsSound db
    → Keeps db.files fs
    → Holds (λ r. SoundAfter db r.0) (enqueue params now (record db { files = fs }))
enqueue_after fs params now db s k =
    let mid : Db = record db { files = fs } in
    let p = Keeps-SoundAfter db mid s.tasks_unique k in
    then-SoundAfter db mid (λ r. r.0) (enqueue params now mid) p
      (enqueue-SoundAfter params now mid p.sound)

enqueue_unanchored-SoundAfter :
    (params : EnqueueParams) (now : ℕ) (db : Db)
    → IsSound db
    → Holds (λ r. SoundAfter db r.0) (enqueue_unanchored params now db)
unfolding enqueue_unanchored
enqueue_unanchored-SoundAfter params now db s = enqueue-SoundAfter _ now db s

enqueue_anchored_to-SoundAfter :
    (r : Result (List FileRow × FileRow)) (p : Task) (params : EnqueueParams) (now : ℕ) (db : Db)
    → IsSound db
    → Holds (λ q. Keeps db.files q.0) r
    → Holds (λ q. SoundAfter db q.0) (enqueue_anchored_to r p params now db)
unfolding enqueue_anchored_to
enqueue_anchored_to-SoundAfter (ok (fs, f)) p params now db s k = enqueue_after fs _ now db s k
enqueue_anchored_to-SoundAfter (err e) p params now db s k = tt

enqueue_anchored-SoundAfter :
    (file : ℕ) (p : Task) (params : EnqueueParams) (now : ℕ) (db : Db)
    → IsSound db
    → Holds (λ r. SoundAfter db r.0) (enqueue_anchored file p params now db)
unfolding enqueue_anchored
enqueue_anchored-SoundAfter file p params now db s =
    enqueue_anchored_to-SoundAfter (bump_generation_by_id file db.files) p params now db s
      (bump_generation_by_id-Keeps file db.files s.files_unique)

enqueue_pre_catalog-SoundAfter :
    (o : Option Task) (params : EnqueueParams) (now : ℕ) (db : Db)
    → IsSound db
    → Holds (λ r. SoundAfter db r.0) (enqueue_pre_catalog o params now db)
unfolding enqueue_pre_catalog
enqueue_pre_catalog-SoundAfter none params now db s = enqueue_unanchored-SoundAfter params now db s
enqueue_pre_catalog-SoundAfter (some p) params now db s = at p.file_id
  where
    at :
        (o : Option ℕ)
        → Holds
            (λ r. SoundAfter db r.0)
            (elim o [
              | none ↦ enqueue_unanchored params now db
              | some file ↦ enqueue_anchored file p params now db
            ])
    at none = enqueue_unanchored-SoundAfter params now db s
    at (some file) = enqueue_anchored-SoundAfter file p params now db s

enqueue_bumped-SoundAfter :
    (r : Result (List FileRow × FileRow)) (params : EnqueueParams) (now : ℕ) (db : Db)
    → IsSound db
    → Holds (λ q. Keeps db.files q.0) r
    → Holds (λ q. SoundAfter db q.0) (enqueue_bumped r params now db)
unfolding enqueue_bumped
enqueue_bumped-SoundAfter (ok (fs, f)) params now db s k = enqueue_after fs _ now db s k
enqueue_bumped-SoundAfter (err not_found) params now db s k =
    enqueue_pre_catalog-SoundAfter _ params now db s
enqueue_bumped-SoundAfter (err e) params now db s k = tt

pub enqueue_and_bump-SoundAfter :
    (params : EnqueueParams) (now : ℕ) (db : Db)
    → IsSound db
    → Holds (λ r. SoundAfter db r.0) (enqueue_and_bump params now db)
unfolding enqueue_and_bump
enqueue_and_bump-SoundAfter params now db s =
    enqueue_bumped-SoundAfter (bump_generation (catalog_path params) db.files) params now db s
      (bump_generation-Keeps (catalog_path params) db.files s.files_unique)

reconcile_new-SoundAfter :
    (o : Option ℕ) (p : ReconcileParams) (source : Text) (now : ℕ) (db : Db)
    → IsSound db
    → Holds (λ r. SoundAfter db r.0) (reconcile_new o p source now db)
unfolding reconcile_new
reconcile_new-SoundAfter none p source now db s =
    skip-Holds _ (next_generation p.path db.tasks) _ (λ generation.
      and_then-Holds (λ r. SoundAfter db r.0) (λ r. SoundAfter db r.0) (enqueue _ now db) _
        (enqueue-SoundAfter _ now db s) (λ (db', r) k. k))
reconcile_new-SoundAfter (some i) p source now db s =
    and_then-Holds (λ r. Keeps db.files r.0) (λ r. SoundAfter db r.0)
      (bump_generation source db.files) _ (bump_generation-Keeps source db.files s.files_unique)
      (λ (fs, f) k.
        and_then-Holds (λ r. SoundAfter db r.0) (λ r. SoundAfter db r.0)
          (enqueue _ now (record db { files = fs })) _ (enqueue_after fs _ now db s k)
          (λ (db', r) q. q))

reconcile_uncovered-SoundAfter :
    (o : Option Task) (p : ReconcileParams) (source : Text) (now : ℕ) (db : Db)
    → IsSound db
    → Holds (λ r. SoundAfter db r.0) (reconcile_uncovered o p source now db)
unfolding reconcile_uncovered
reconcile_uncovered-SoundAfter (some t) p source now db s = SoundAfter-refl db s
reconcile_uncovered-SoundAfter none p source now db s =
    reconcile_new-SoundAfter p.observed_file_id p source now db s

pub enqueue_reconcile-SoundAfter :
    (p : ReconcileParams) (now : ℕ) (db : Db)
    → IsSound db
    → Holds (λ r. SoundAfter db r.0) (enqueue_reconcile p now db)
unfolding enqueue_reconcile
enqueue_reconcile-SoundAfter p now db s = skip-Holds _ (validate_reconcile p) _ (λ _.
    if_elim (Holds {A = Db × ReconcileOutcome} (λ r. SoundAfter db r.0)) (is_taken p db)
      (λ _. SoundAfter-refl db s)
      (λ _.
        if_elim (Holds {A = Db × ReconcileOutcome} (λ r. SoundAfter db r.0)) (is_unchanged p db)
          (λ _. reconcile_uncovered-SoundAfter (covering p db) p (source_path p) now db s)
          (λ _. SoundAfter-refl db s)))

redrive_current-SoundAfter :
    (source : Text) (priority : ℤ) (now : ℕ) (d : DeadRow) (generation : ℕ) (db : Db)
    → IsSound db
    → Holds (SoundAfter db) (redrive_current source priority now d generation db)
unfolding redrive_current
redrive_current-SoundAfter source priority now d generation db s =
    and_then-Holds (λ r. SoundAfter db r.0) (SoundAfter db) (enqueue _ now db) _
      (enqueue-SoundAfter _ now db s)
      (λ (db', r) k. skip-Holds _ (guard _ _) _ (λ _.
        and_then-Holds (Keeps db'.files) (SoundAfter db) _ _
          (kept_errors (Keeps db'.files)
            (set_current d.file_id generation (λ f. record f { status = FileStatus.pending })
              db'.files)
            (set_current-Keeps d.file_id generation _ db'.files (λ f. (refl, refl, refl))
              k.sound.files_unique))
          (λ fs q.
            skip-Holds _ (enqueue_audit _ db'.audit) _ (λ as'.
              SoundAfter-trans db db' _ k (Keeps-SoundAfter db' _ k.sound.tasks_unique q)))))
  where
    kept_errors :
        (P : List FileRow → Type 0) (r : Result (List FileRow))
        → Holds P r
        → Holds P (elim r [ ok fs ↦ ok fs | err e ↦ err invalid_transition ])
    kept_errors P (ok fs) h = h
    kept_errors P (err e) h = tt

redrive_found-SoundAfter :
    (o : Option FileRow) (source : Text) (priority : ℤ) (now : ℕ) (d : DeadRow) (db : Db)
    → IsSound db
    → Holds (SoundAfter db) (redrive_found o source priority now d db)
unfolding redrive_found
redrive_found-SoundAfter none source priority now d db s = tt
redrive_found-SoundAfter (some f) source priority now d db s =
    if_elim (Holds (SoundAfter db)) (ltb d.generation f.generation) (λ _. SoundAfter-refl db s)
      (λ _. redrive_current-SoundAfter source priority now d f.generation db s)

pub redrive_all-SoundAfter :
    (source : Text) (priority : ℤ) (now : ℕ) (ds : List DeadRow) (db : Db)
    → IsSound db
    → Holds (SoundAfter db) (redrive_all source priority now ds db)
unfolding redrive_all
redrive_all-SoundAfter source priority now [] db s = SoundAfter-refl db s
redrive_all-SoundAfter source priority now (d ∷ ds) db s =
    and_then-Holds (SoundAfter db) (SoundAfter db)
      (redrive_found (file_by_id d.file_id db.files) source priority now d db) _
      (redrive_found-SoundAfter (file_by_id d.file_id db.files) source priority now d db s)
      (λ mid p.
        then-SoundAfter db mid (λ d. d) (redrive_all source priority now ds mid) p
          (redrive_all-SoundAfter source priority now ds mid p.sound))
