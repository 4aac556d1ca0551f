-- ===== src/TaskQueue/Bump/Newest.antt =====
-- The generation of a change that is enqueued, on each of the branches (taskqueue.go:
-- EnqueueAndBumpGeneration).
use ferret_new.Catalog.Paths.{file_by_id-mem}
use ferret_new.TaskQueue.Slots.Whole.{enqueue-files}
use ferret_new.Base.Pairwise.{update_if}
use ferret_new.Base.Int.{ℤ, pos, negsuc, to_nat}
use ferret_new.Catalog.{
  bump_generation, bump_generation_by_id, file_by_key, bumped, has_file_id, bump_found, file_by_id,
}
use ferret_new.Catalog.Rows.{file_by_key_sound, file_by_id_sound, FilesUnique}
use mathlib.Core.List.{Memᴰ}
use ferret_new.TaskQueue.Slots.Step.{both-Holds, weaken-Holds, skip-Holds, Holds}
use ferret_new.TaskQueue.Complete.Current.{Newer}
use ferret_new.TaskQueue.{path_key, find_slot, Db, FileRow}
use ferret_new.Task.{pending, Task, EnqueueParams}
use ferret_new.TaskQueue.Bump.{
  max_int64, catalog_path, enqueue_bumped, enqueue_anchored_to, enqueue_and_bump,
  enqueue_pre_catalog, enqueue_anchored, enqueue_unanchored, same_path, max_generation, outrun,
}
use ferret_new.TaskQueue.Enqueue.{
  next_id, new_row, validate_enqueue, merge_row, upsert_task, enqueue,
}
use ferret_new.Base.{
  ltb, ◌⊎◌, inr, subst, inl, ◌==◌, ◌+◌, Bool-cases, ◌<◌, ◌≤◌, ℕ, ◌≡◌, refl, sym, ap, ◌∙◌, arith,
  Bool, true, Option, none, some, List, [], ◌∷◌,
}

max_generation-bound :
    (p : Task → Bool) (ts : List Task) (t : Task)
    → Memᴰ t ts
    → p t ≡ true
    → t.generation ≤ max_generation p ts
unfolding max_generation
max_generation-bound p [] t m h = elim m [ ]
max_generation-bound p (x ∷ ts) t (Memᴰ.head e) h =
    let same = ap (λ r. r.generation) e in
    let chosen : p x ≡ true = ap p (sym e) ∙ h in ground arith
max_generation-bound p (x ∷ ts) t (Memᴰ.tail m) h =
    let le = max_generation-bound p ts t m h in ground arith

outrun-bound : (g : ℤ) (maximum : ℕ) → maximum < max_int64 → maximum < to_nat (outrun g maximum)
unfolding outrun
outrun-bound (negsuc n) maximum h = ground arith
outrun-bound (pos n) maximum h = ground arith

upsert_task-bound :
    (new : Task) (o : Option Task) (ts : List Task)
    → new.generation ≤ (upsert_task new o ts).1.task.generation
unfolding upsert_task merge_row
upsert_task-bound new none ts = omega arith
upsert_task-bound new (some t) ts = ground arith

enqueue-bound :
    (params : EnqueueParams) (now : ℕ) (db : Db)
    → Holds (λ r. to_nat params.generation ≤ r.1.task.generation) (enqueue params now db)
unfolding enqueue
enqueue-bound params now db = skip-Holds _ (validate_enqueue params) _ (λ _.
    upsert_task-bound (new_row params (next_id db.tasks) now)
      (find_slot (path_key params.path) pending db.tasks) db.tasks)

-- The generation outruns those of the tasks of the path and, for a relocation, of its old path.
abbrev pub OutrunsTasks : EnqueueParams → Db → Task → Type 0
OutrunsTasks params db new =
    (t : Task) → Memᴰ t db.tasks → same_path params t ≡ true → t.generation < new.generation

-- A task of the path has the largest int64 as its generation, so that no int64 is newer.
abbrev pub IsExhausted : EnqueueParams → Db → Type 0
IsExhausted params db = max_int64 ≤ max_generation (same_path params) db.tasks

-- The generation outruns that of the catalog row, which is bumped.
abbrev pub OutrunsFile : FileRow → Db → Task → Type 0
OutrunsFile f db' new = (f.generation < new.generation) × Newer f.id f.generation db'.files

bumped-file_by_id :
    (id : ℕ) (fs : List FileRow) (f : FileRow)
    → file_by_id id fs ≡ some f
    → file_by_id id (update_if (has_file_id id) bumped fs) ≡ some (bumped f)
unfolding file_by_id
bumped-file_by_id id [] f h = cc
bumped-file_by_id id (x ∷ fs) f h = elim (Bool-cases (x.id == id)) [
  | inl hit ↦ let it : x ≡ f = ground arith in rw hit (rw hit (ap (λ r. some (bumped r)) it))
  | inr miss ↦ rw miss (rw miss (bumped-file_by_id id fs f (ground arith)))
]

-- The file that a bump found is newer after it.
found-Newer :
    (fs : List FileRow) (f : FileRow)
    → FilesUnique fs
    → Memᴰ f fs
    → Newer f.id f.generation (update_if (has_file_id f.id) bumped fs)
found-Newer fs f h m =
    (bumped f, bumped-file_by_id f.id fs f (file_by_id-mem fs f h m), omega arith)

module _ (params : EnqueueParams) (now : ℕ) (db : Db) where
  -- What the new generation outruns when the catalog has no row.
  abbrev pub OutrunsPending : Option ℕ → Db → Task → Type 0
  OutrunsPending none db' new = OutrunsTasks params db new ⊎ IsExhausted params db
  OutrunsPending (some file) db' new =
      (f : FileRow) × (file_by_id file db.files ≡ some f) × OutrunsFile f db' new

  abbrev pub anchor_of : Option Task → Option ℕ
  anchor_of none = none
  anchor_of (some p) = p.file_id

  -- The catalog row of the path if there is one, or else the file of the path's pending task, or else
  -- every task of the path.
  abbrev pub Outruns : Option FileRow → Db → Task → Type 0
  Outruns (some f) db' new = OutrunsFile f db' new
  Outruns none db' new =
      OutrunsPending (anchor_of (find_slot (path_key params.path) pending db.tasks)) db' new

  enqueue-bumped_file :
      (f : FileRow) (q : EnqueueParams) (mid : Db)
      → Memᴰ f db.files
      → FilesUnique db.files
      → mid.files ≡ update_if (has_file_id f.id) bumped db.files
      → q.generation ≡ pos (f.generation + 1)
      → Holds (λ r. OutrunsFile f r.0 r.1.task) (enqueue q now mid)
  enqueue-bumped_file f q mid m h same generation =
      weaken-Holds (λ r. (to_nat q.generation ≤ r.1.task.generation) × (r.0.files ≡ mid.files))
        (λ r. OutrunsFile f r.0 r.1.task) (enqueue q now mid)
        (λ r k.
          let le = k.0 in
          let it = ap to_nat generation in
          (
            omega (arith, le, it),
            subst (Newer f.id f.generation) (sym (k.1 ∙ same)) (found-Newer db.files f h m),
          ))
        (both-Holds (λ r. to_nat q.generation ≤ r.1.task.generation) (λ r. r.0.files ≡ mid.files)
          (enqueue q now mid) (enqueue-bound q now mid) (enqueue-files q now mid))

  enqueue_unanchored-Outruns :
      Holds
        (λ r. OutrunsTasks params db r.1.task ⊎ IsExhausted params db)
        (enqueue_unanchored params now db)
  unfolding enqueue_unanchored
  enqueue_unanchored-Outruns =
      let maximum = max_generation (same_path params) db.tasks in
      let q = record params { generation = outrun params.generation maximum } in
      weaken-Holds (λ r. to_nat q.generation ≤ r.1.task.generation)
        (λ r. OutrunsTasks params db r.1.task ⊎ IsExhausted params db) (enqueue q now db)
        (λ r le. elim (Bool-cases (ltb maximum max_int64)) [
          | inl below ↦ inl (λ t m c.
              let known = max_generation-bound (same_path params) db.tasks t m c in
              let over = outrun-bound params.generation maximum (ground arith) in
              omega (arith, le, known, over))
          | inr top ↦ inr (ground arith)
        ])
        (enqueue-bound q now db)

  enqueue_anchored-Outruns :
      (file : ℕ) (p : Task)
      → FilesUnique db.files
      → Holds (λ r. OutrunsPending (some file) r.0 r.1.task) (enqueue_anchored file p params now db)
  unfolding enqueue_anchored bump_generation_by_id bump_found enqueue_anchored_to
  enqueue_anchored-Outruns file p h = at (file_by_id file db.files) refl
    where
      at :
          (o : Option FileRow)
          → file_by_id file db.files ≡ o
          → Holds
              (λ r. OutrunsPending (some file) r.0 r.1.task)
              (enqueue_anchored_to (bump_found o db.files) p params now db)
      at none e = tt
      at (some f) e =
          let (m, i) = file_by_id_sound file db.files f e in
          weaken-Holds (λ r. OutrunsFile f r.0 r.1.task)
            (λ r. OutrunsPending (some file) r.0 r.1.task) _ (λ r k. (f, e, k))
            (enqueue-bumped_file f _ _ m h refl refl)

  enqueue_pre_catalog-Outruns :
      (o : Option Task)
      → FilesUnique db.files
      → Holds (λ r. OutrunsPending (anchor_of o) r.0 r.1.task) (enqueue_pre_catalog o params now db)
  unfolding enqueue_pre_catalog
  enqueue_pre_catalog-Outruns none h = enqueue_unanchored-Outruns
  enqueue_pre_catalog-Outruns (some p) h = at p.file_id
    where
      at :
          (o : Option ℕ)
          → Holds
              (λ r. OutrunsPending o r.0 r.1.task)
              (elim o [
                | none ↦ enqueue_unanchored params now db
                | some file ↦ enqueue_anchored file p params now db
              ])
      at none = enqueue_unanchored-Outruns
      at (some file) = enqueue_anchored-Outruns file p h

-- When the files' ids and paths are distinct, the generation of an enqueued change is newer than the
-- old one of the catalog row of the path (for a relocation, of the old path), which is bumped past it
-- too; if there is no row but the path's pending task has a file, than the old one of that file, which
-- is bumped; and else than that of every task of the path (for a relocation, also of the old path),
-- unless one of them has the largest int64.
pub enqueue_and_bump-Outruns :
    (params : EnqueueParams) (now : ℕ) (db : Db)
    → FilesUnique db.files
    → Holds
        (λ r.
          Outruns params now db
            (file_by_key (path_key (catalog_path params)) db.files)
            r.0
            r.1.task)
        (enqueue_and_bump params now db)
unfolding enqueue_and_bump bump_generation bump_found enqueue_bumped
enqueue_and_bump-Outruns params now db h =
    at (file_by_key (path_key (catalog_path params)) db.files) refl
  where
    at :
        (o : Option FileRow)
        → file_by_key (path_key (catalog_path params)) db.files ≡ o
        → Holds
            (λ r. Outruns params now db o r.0 r.1.task)
            (enqueue_bumped (bump_found o db.files) params now db)
    at none e = enqueue_pre_catalog-Outruns params now db _ h
    at (some f) e =
        let (m, k) = file_by_key_sound (path_key (catalog_path params)) db.files f e in
        enqueue-bumped_file params now db f _ _ m h refl refl
