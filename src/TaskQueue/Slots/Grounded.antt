-- ===== src/TaskQueue/Slots/Grounded.antt =====
-- What recovering one task does to the rows in flight (store.go: recoverInFlightTx).
use ferret_new.TaskQueue.History.{append_failure_history}
use mathlib.Core.List.{Memᴰ}
use ferret_new.Base.{
  ◌+◌, ℕ, ◌≡◌, ◌≢◌, refl, sym, ap, subst, ◌∙◌, Bool, true, false, ◌&&◌, Option, none, some, List,
  ◌∷◌, ◌⊎◌, if_elim, Bool-cases, inl, inr, leb, ◌==◌, arith, any,
}
use ferret_new.Base.Bytes.{Text}
use ferret_new.Task.{Task, in_flight, state_eq, History}
use ferret_new.TaskQueue.{DeadRow, Db, update_in_flight, is_refused, has_id}
use ferret_new.TaskQueue.Slots.{IsUnique, mem-update_where, updated}
use ferret_new.TaskQueue.Slots.Step.{
  Holds, and_then-Holds, skip-Holds, weaken-Holds, both-Holds, Free, update_in_flight-IsUnique,
}
use ferret_new.TaskQueue.Slots.Whole.{same_files-SoundAfter, IsSound, SoundAfter, SoundAfter-trans}
use ferret_new.TaskQueue.Slots.Complete.{buried-SoundAfter}
use ferret_new.TaskQueue.Complete.{
  ensure_failure_file, anchor_dead, bury, dead_row, upsert_dead_letter, enqueue_audit,
}
use ferret_new.TaskQueue.Recovery.{
  target_of, is_dead, recovered_row, bury_poison, poison_info, requeue, Versions,
}

-- Every in-flight row is still to be recovered.
abbrev pub FlyingIn : List Task → List Task → Type 0
FlyingIn rest ts = (v : Task) → Memᴰ v ts → v.state ≡ in_flight → Memᴰ v rest

-- The rows of an id are not in flight.
abbrev pub Grounded : ℕ → List Task → Type 0
Grounded id ts = (v : Task) → Memᴰ v ts → v.id ≡ id → v.state ≢ in_flight

pub target_of-ne : (t : Task) → in_flight ≢ target_of t
target_of-ne t = if_elim (λ s. in_flight ≢ s) (leb 2 (t.crash_count + 1)) (λ _ e. cc) (λ _ e. cc)

pub mem-cases : (t v : Task) (rest : List Task) → Memᴰ v (t ∷ rest) → (v ≡ t) ⊎ Memᴰ v rest
mem-cases t v rest (Memᴰ.head e) = inl e
mem-cases t v rest (Memᴰ.tail m) = inr m

module _ (t : Task) (rest : List Task) where
  -- Updating the in-flight row of the task.
  updated-FlyingIn :
      (f : Task → Task) (ts : List Task)
      → ((u : Task) → (f u).state ≢ in_flight)
      → FlyingIn (t ∷ rest) ts
      → Holds (λ ts'. FlyingIn rest ts' × Grounded t.id ts') (update_in_flight t.id f ts)
  unfolding update_in_flight
  updated-FlyingIn f ts lands old =
      if_elim (Holds (λ ts'. FlyingIn rest ts' × Grounded t.id ts')) (any p ts)
        (λ _.
          if_elim (Holds (λ ts'. FlyingIn rest ts' × Grounded t.id ts')) (is_refused t.id f ts)
            (λ _. tt)
            (λ _. (
              λ v m s.
                  let (u, k, e) = mem-update_where p f ts v m in
                  flying_rest v u k e s (Bool-cases (p u)),
              λ v m i s.
                  let (u, k, e) = mem-update_where p f ts v m in
                  grounded v u k e i s (Bool-cases (p u)),
            )))
        (λ _. tt)
    where
      p : Task → Bool
      p u = u.id == t.id && state_eq u.state in_flight

      same : (u v : Task) → v ≡ updated p f u → p u ≡ false → v ≡ u
      same u v e c = e ∙ rw c refl

      hit : (u v : Task) → v ≡ updated p f u → p u ≡ true → v ≡ f u
      hit u v e c = e ∙ rw c refl

      chosen : (u : Task) → u.id ≡ t.id → u.state ≡ in_flight → p u ≡ true
      chosen u i s = rw (i, s) (ground arith)

      flying_rest :
          (v u : Task)
          → Memᴰ u ts
          → v ≡ updated p f u
          → v.state ≡ in_flight
          → (p u ≡ true) ⊎ (p u ≡ false)
          → Memᴰ v rest
      flying_rest v u k e s (inl c) = absurd (lands u (ap (λ r. r.state) (sym (hit u v e c)) ∙ s))
      flying_rest v u k e s (inr c) =
          let it = same u v e c in
          let flying = ap (λ r. r.state) (sym it) ∙ s in
          elim (mem-cases t u rest (old u k flying)) [
            | inl own ↦ let taken = chosen u (ap (λ r. r.id) own) flying in absurd (cc)
            | inr l ↦ subst (λ r. Memᴰ r rest) (sym it) l
          ]

      grounded :
          (v u : Task)
          → Memᴰ u ts
          → v ≡ updated p f u
          → v.id ≡ t.id
          → v.state ≡ in_flight
          → (p u ≡ true) ⊎ (p u ≡ false)
          → ⊥
      grounded v u k e i s (inl c) = lands u (ap (λ r. r.state) (sym (hit u v e c)) ∙ s)
      grounded v u k e i s (inr c) =
          let it = same u v e c in
          let taken = chosen u (ap (λ r. r.id) (sym it) ∙ i) (ap (λ r. r.state) (sym it) ∙ s) in cc

  anchored-FlyingIn :
      (o : Option ℕ) (db : Db)
      → FlyingIn rest db.tasks
      → Grounded t.id db.tasks
      → FlyingIn rest (anchor_dead o t db).0.tasks
  unfolding anchor_dead
  anchored-FlyingIn (some file) db h g = h
  anchored-FlyingIn none db h g = λ v m s.
      let (u, k, e) = mem-update_where (has_id t.id) f db.tasks v m in
      at v u k e s (Bool-cases (has_id t.id u))
    where
      f : Task → Task
      f u = record u { file_id = some (ensure_failure_file t db.files).1 }

      at :
          (v u : Task)
          → Memᴰ u db.tasks
          → v ≡ updated (has_id t.id) f u
          → v.state ≡ in_flight
          → (has_id t.id u ≡ true) ⊎ (has_id t.id u ≡ false)
          → Memᴰ v rest
      at v u k e s (inl c) =
          let it : v ≡ f u = e ∙ rw c refl in
          absurd (g u k (ground arith) (ap (λ r. r.state) (sym it) ∙ s))
      at v u k e s (inr c) =
          let it : v ≡ u = e ∙ rw c refl in
          subst (λ r. Memᴰ r rest) (sym it) (h u k (ap (λ r. r.state) (sym it) ∙ s))

-- Burying leaves the tasks alone.
bury-tasks :
    (source : Text) (t : Task) (d : DeadRow) (db : Db)
    → Holds (λ db'. db'.tasks ≡ db.tasks) (bury source t d db)
unfolding bury
bury-tasks source t d db =
    skip-Holds _ (upsert_dead_letter d db.dead_letters) _
      (λ ds. skip-Holds _ (enqueue_audit _ db.audit) _ (λ as'. refl))

-- The step is sound and takes the task out of the tasks to be recovered.
abbrev pub Recovers : List Task → Db → Db → Type 0
Recovers rest db db' = SoundAfter db db' × FlyingIn rest db'.tasks

bury_poison-Recovers :
    (versions : Versions) (now : ℕ) (t : Task) (rest : List Task) (log chain : History) (db : Db)
    → IsSound db
    → FlyingIn rest db.tasks
    → Grounded t.id db.tasks
    → Holds (Recovers rest db) (bury_poison versions now t log chain db)
unfolding bury_poison
bury_poison-Recovers versions now t rest log chain db s h g =
    both-Holds (SoundAfter db) (λ db'. FlyingIn rest db'.tasks) _
      (buried-SoundAfter _ t.file_id t
        (λ file. dead_row t (poison_info versions log chain) file chain log now) db s)
      (weaken-Holds (λ db'. db'.tasks ≡ (anchor_dead t.file_id t db).0.tasks)
        (λ db'. FlyingIn rest db'.tasks) _
        (λ db' e. subst (FlyingIn rest) (sym e) (anchored-FlyingIn t rest t.file_id db h g))
        (bury-tasks _ t _ (anchor_dead t.file_id t db).0))

fine_row :
    (t : Task) (log chain : History) (now : ℕ) (u : Task)
    → ((recovered_row (target_of t) log chain now u).id ≡ u.id)
      × ((recovered_row (target_of t) log chain now u).path ≡ u.path)
      × ((recovered_row (target_of t) log chain now u).state ≡ target_of t)
unfolding recovered_row
fine_row t log chain now u = (refl, refl, refl)

pub requeue-Recovers :
    (versions : Versions) (now : ℕ) (t : Task) (rest : List Task) (db : Db)
    → IsSound db
    → FlyingIn (t ∷ rest) db.tasks
    → Free (target_of t) t.id db.tasks
    → Holds (Recovers rest db) (requeue versions now t db)
unfolding requeue
requeue-Recovers versions now t rest db s h free =
    skip-Holds _ (append_failure_history t.attempts_log _) _ (λ log.
      skip-Holds _ (append_failure_history t.error_chain _) _ (λ chain.
        let f = recovered_row (target_of t) log chain now in
        and_then-Holds (λ ts. IsUnique ts × (FlyingIn rest ts × Grounded t.id ts)) _
          (update_in_flight t.id f db.tasks) _
          (both-Holds IsUnique (λ ts. FlyingIn rest ts × Grounded t.id ts)
            (update_in_flight t.id f db.tasks)
            (update_in_flight-IsUnique (target_of t) t.id f db.tasks (fine_row t log chain now) free
              s.tasks_unique)
            (updated-FlyingIn t rest f db.tasks
              (λ u e. target_of-ne t (sym e ∙ (fine_row t log chain now u).2)) h))
          (λ ts k.
            let db' = record db { tasks = ts } in
            let after = same_files-SoundAfter db db' s k.0 refl in
            if_elim (Holds (Recovers rest db)) (is_dead (target_of t))
              (λ _.
                weaken-Holds (Recovers rest db') (Recovers rest db) _
                  (λ d q. (SoundAfter-trans db db' d after q.0, q.1))
                  (bury_poison-Recovers versions now t rest log chain db' after.sound k.1.0 k.1.1))
              (λ _. (after, k.1.0)))))
