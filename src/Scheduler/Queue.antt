-- ===== src/Scheduler/Queue.antt =====
-- The task queue as the store of the scheduler (scheduler.go: Store; store/taskqueue.go:
-- MarkDispatchRetry): a claimed task that is not dispatched is not left in flight.
use mathlib.Core.List.{Memᴰ}
use ferret_new.Base.{
  ℕ, ◌≡◌, ◌≢◌, sym, ap, ◌∙◌, ◌⊎◌, inl, inr, Bool, true, false, ◌&&◌, Option, none, some, List, [],
  All, ◌==◌, ==_iff, Bool-cases, any, if_elim, arith, refl, ltb,
}
use ferret_new.Base.Bytes.{Text}
use ferret_new.Task.{Task, TaskState, in_flight, retry_wait, state_eq}
use ferret_new.TaskQueue.{
  Db, Result, ok, err, StoreError, path_key, has_id, task_for_transition, find_other, clear_found,
  clear_older_state_slot, update_in_flight, is_refused,
}
use ferret_new.TaskQueue.Finish.{mark_retry, retry_histories, retry_row}
use ferret_new.TaskQueue.Slots.{mem-update_where, mem-delete_where, updated, state_eq_refl}
use ferret_new.TaskQueue.Slots.Step.{Holds, skip-Holds, and_then-Holds}
use ferret_new.TaskQueue.Slots.Grounded.{Grounded}
use ferret_new.Scheduler.Store.{StoreOps, Reason}
use ferret_new.Scheduler.Order.{ClaimedTask}
use ferret_new.Scheduler.Dispatch.{Loop, dispatch_claimed}
use ferret_new.Scheduler.Accounting.{Settled, dispatch_claimed_settles}

-- A transaction that fails changes nothing.
abbrev marked : Db → Result Db → Db × Option StoreError
marked db (ok db') = (db', none)
marked db (err e) = (db, some e)

-- The rows that an update of a task in flight is about.
abbrev flies : ℕ → Task → Bool
flies id u = u.id == id && state_eq u.state in_flight

flies_complete : (id : ℕ) (u : Task) → u.id ≡ id → u.state ≡ in_flight → flies id u ≡ true
flies_complete id u i s =
    let same : (u.id == id) ≡ true = (==_iff u.id id).1 i in
    let there : state_eq u.state in_flight ≡ true =
      ap (λ st. state_eq st in_flight) s ∙ state_eq_refl in_flight in
    ground arith

module _ (f : Task → Task) (lands : (u : Task) → (f u).state ≢ in_flight) (id : ℕ)
    (ts : List Task) where
  -- An update grounds the rows of its id, and puts no row in flight.
  update-Grounded : Holds (Grounded id) (update_in_flight id f ts)
  unfolding update_in_flight
  update-Grounded =
      if_elim {A = Result (List Task)} (Holds (Grounded id)) (any (flies id) ts)
        (λ _.
          if_elim {A = Result (List Task)} (Holds (Grounded id)) (is_refused id f ts) (λ _. tt)
            (λ _ v m i s.
              let (u, k, e) = mem-update_where (flies id) f ts v m in
              at u v e i s (Bool-cases (flies id u))))
        (λ _. tt)
    where
      at :
          (u v : Task)
          → v ≡ updated (flies id) f u
          → v.id ≡ id
          → v.state ≡ in_flight
          → (flies id u ≡ true) ⊎ (flies id u ≡ false)
          → ⊥
      at u v e i s (inl c) =
          let it : v ≡ f u = e ∙ rw c refl in lands u (ap (λ r. r.state) (sym it) ∙ s)
      at u v e i s (inr c) =
          let it : v ≡ u = e ∙ rw c refl in
          let hit =
            flies_complete id u (ap (λ r. r.id) (sym it) ∙ i) (ap (λ r. r.state) (sym it) ∙ s) in
          cc

  update-keeps : (j : ℕ) → Grounded j ts → Holds (Grounded j) (update_in_flight id f ts)
  unfolding update_in_flight
  update-keeps j h =
      if_elim {A = Result (List Task)} (Holds (Grounded j)) (any (flies id) ts)
        (λ _.
          if_elim {A = Result (List Task)} (Holds (Grounded j)) (is_refused id f ts) (λ _. tt)
            (λ _ v m i s.
              let (u, k, e) = mem-update_where (flies id) f ts v m in
              at u v k e i s (Bool-cases (flies id u))))
        (λ _. tt)
    where
      at :
          (u v : Task)
          → Memᴰ u ts
          → v ≡ updated (flies id) f u
          → v.id ≡ j
          → v.state ≡ in_flight
          → (flies id u ≡ true) ⊎ (flies id u ≡ false)
          → ⊥
      at u v k e i s (inl c) =
          let it : v ≡ f u = e ∙ rw c refl in lands u (ap (λ r. r.state) (sym it) ∙ s)
      at u v k e i s (inr c) =
          let it : v ≡ u = e ∙ rw c refl in
          h u k (ap (λ r. r.id) (sym it) ∙ i) (ap (λ r. r.state) (sym it) ∙ s)

cleared_keeps :
    (t : Task) (st : TaskState) (ts : List Task) (j : ℕ)
    → Grounded j ts
    → Holds (Grounded j) (clear_older_state_slot t st ts)
unfolding clear_older_state_slot
cleared_keeps t st ts j h = at (find_other t.id (path_key t.path) st ts)
  where
    at : (o : Option Task) → Holds (Grounded j) (clear_found t ts o)
    at none = h
    at (some u) =
        if_elim {A = Result (List Task)} (Holds (Grounded j)) (ltb t.generation u.generation)
          (λ _. tt) (λ _ v m. h v (mem-delete_where (has_id u.id) ts v m).0)

retry_lands :
    (refund : Bool) (next : ℕ) (last_error : Text) (h : _) (now : ℕ) (u : Task)
    → (retry_row refund next last_error h now u).state ≢ in_flight
unfolding retry_row
retry_lands refund next last_error h now u e = cc

module _ (class : Text) (id next : ℕ) (last_error : Text) (refund : Bool) (now : ℕ) (db : Db) where
  mark_retry-Grounded :
      Holds (λ d. Grounded id d.tasks) (mark_retry class id next last_error refund now db)
  unfolding mark_retry
  mark_retry-Grounded = skip-Holds _ (task_for_transition id in_flight db.tasks) _ (λ t.
      skip-Holds _ (clear_older_state_slot t retry_wait db.tasks) _ (λ ts.
        skip-Holds _ (retry_histories refund t class last_error now) _ (λ h.
          and_then-Holds (Grounded id) (λ d. Grounded id d.tasks)
            (update_in_flight id (retry_row refund next last_error h now) ts) _
            (update-Grounded _ (retry_lands refund next last_error h now) id ts) (λ ts' k. k))))

  mark_retry_keeps :
      (j : ℕ)
      → Grounded j db.tasks
      → Holds (λ d. Grounded j d.tasks) (mark_retry class id next last_error refund now db)
  unfolding mark_retry
  mark_retry_keeps j g = skip-Holds _ (task_for_transition id in_flight db.tasks) _ (λ t.
      and_then-Holds (Grounded j) (λ d. Grounded j d.tasks)
        (clear_older_state_slot t retry_wait db.tasks) _ (cleared_keeps t retry_wait db.tasks j g)
        (λ ts kept. skip-Holds _ (retry_histories refund t class last_error now) _ (λ h.
          and_then-Holds (Grounded j) (λ d. Grounded j d.tasks)
            (update_in_flight id (retry_row refund next last_error h now) ts) _
            (update-keeps _ (retry_lands refund next last_error h now) id ts j kept) (λ ts' k. k))))

marked_parks :
    (id : ℕ) (db : Db) (r : Result Db)
    → Holds (λ d. Grounded id d.tasks) r
    → (marked db r).1 ≡ none
    → Grounded id (marked db r).0.tasks
marked_parks id db (ok d) h e = h
marked_parks id db (err x) h e = cc

marked_keeps :
    (j : ℕ) (db : Db) (r : Result Db)
    → Grounded j db.tasks
    → Holds (λ d. Grounded j d.tasks) r
    → Grounded j (marked db r).0.tasks
marked_keeps j db (ok d) g h = h
marked_keeps j db (err x) g h = g

-- The store with MarkDispatchRetry of the task queue; `class` and `text` are the texts it writes, `clock`
-- is its clock. Its other operations are as given.
abbrev pub queue_store :
    Text → (Reason → Text) → ℕ → StoreOps Db StoreError → StoreOps Db StoreError
queue_store class text clock given = record given {
  mark_dispatch_retry = λ id next r db. marked db (mark_retry class id next (text r) true clock db);
}

-- If dispatching a batch over the task queue returns no error, then of every claimed task the lease was
-- sent, or no row with its id is in flight.
pub queue_dispatch_settles :
    (class : Text) (text : Reason → Text) (clock : ℕ) (given : StoreOps Db StoreError)
    (conflict_delay now : ℕ) (fresh_exhausted : Bool) (cs : List ClaimedTask) (l : Loop Db)
    → let ops = queue_store class text clock given in
      (dispatch_claimed ops conflict_delay now fresh_exhausted cs l).1 ≡ []
      → All
          (Settled
            (λ id db. Grounded id db.tasks)
            (dispatch_claimed ops conflict_delay now fresh_exhausted cs l).0)
          cs
queue_dispatch_settles class text clock given conflict_delay now fresh_exhausted cs l h =
    dispatch_claimed_settles (queue_store class text clock given) conflict_delay
      (λ id db. Grounded id db.tasks)
      (λ id next r db e.
        marked_parks id db _ (mark_retry-Grounded class id next (text r) true clock db) e)
      (λ j id next r db g.
        marked_keeps j db _ g (mark_retry_keeps class id next (text r) true clock db j g))
      now fresh_exhausted cs l h
