-- ===== src/Controller/Queue.antt =====
-- The task queue as the waiting store of the controller (controller.go: WaitingStore,
-- WaitingBatchStore; store/taskqueue.go: MarkWaitingDep, MarkWaitingDepBatch, ReleaseWaitingDep).
use ferret_new.Controller.Served.{control_run-IsServed, control_run, ControlCall}
use ferret_new.TaskQueue.Slots.Park.{mark_waiting_dep-IsUnique}
use ferret_new.Task.{waiting_dep}
use ferret_new.TaskQueue.Slots.Release.{release_to_pending-IsUnique}
use ferret_new.TaskQueue.Slots.Released.{release_waiting_dep-count, waits_dep}
use ferret_new.TaskQueue.Slots.Waiting.{count_where}
use ferret_new.TaskQueue.Slots.Step.{Holds}
use ferret_new.Controller.Drained.{Parks, WaitingLaws}
use ferret_new.TaskQueue.Slots.{IsUnique}
use ferret_new.Base.Bytes.{Text}
use ferret_new.Controller.{
  closed, new_controller, Breaker, ControlConfig, released, WaitingOps, Cause,
}
use ferret_new.TaskQueue.{err, ok, StoreError, Result, Db}
use ferret_new.Base.{
  true, ◌⊎◌, ◌≤◌, ◌+◌, arith, ◌<◌, ℕ, ◌≡◌, refl, Option, none, some, List, [], ◌∷◌,
}
use ferret_new.Base.Int.{pos}
use ferret_new.TaskQueue.Finish.{mark_waiting_dep}
use ferret_new.TaskQueue.Release.{release_waiting_dep}

-- A transaction that fails changes nothing.
unfoldable pub parked_in : Db → Result Db → Db × Option StoreError
parked_in db (ok db') = (db', none)
parked_in db (err e) = (db, some e)

-- The store's operations at a time of the clock; `show` is the text of a cause.
abbrev pub queue_ops : (Cause StoreError → Text) → ℕ → WaitingOps Db StoreError
queue_ops show now = record {
  mark_waiting_dep = λ id cause db. parked_in db (mark_waiting_dep (id ∷ []) (show cause) now db);
  mark_waiting_dep_batch =
      some (λ ids cause db. parked_in db (mark_waiting_dep ids (show cause) now db));
  release_waiting_dep = λ limit db. (
    (release_waiting_dep (pos limit) now db).0,
    released (pos (release_waiting_dep (pos limit) now db).1),
  );
}

released_queue-IsUnique :
    (limit now : ℕ) (db : Db)
    → IsUnique db.tasks
    → IsUnique (release_waiting_dep (pos limit) now db).0.tasks
unfolding release_waiting_dep
released_queue-IsUnique limit now db h =
    release_to_pending-IsUnique waiting_dep 0 (pos limit) now db h

parked_in-Parks :
    (db : Db) (r : Result Db)
    → IsUnique db.tasks
    → Holds (λ d. IsUnique d.tasks) r
    → Parks
        (λ d. IsUnique d.tasks)
        (count_where waits_dep db.tasks)
        (λ d. count_where waits_dep d.tasks)
        (parked_in db r)
unfolding parked_in
parked_in-Parks db (ok db') h k = k
parked_in-Parks db (err e) h k = (h, refl)

-- The task queue keeps the laws that the controller relies on.
abbrev queue_laws : (show : Cause StoreError → Text) (now : ℕ) → WaitingLaws (queue_ops show now)
queue_laws show now = record {
  IsGood = λ db. IsUnique db.tasks;
  waiting_count = λ db. count_where waits_dep db.tasks;
  released-IsGood = λ limit db h. released_queue-IsUnique limit now db h;
  released-Takes = λ limit db positive h. release_waiting_dep-count limit now db h positive;
  marked-IsGood = λ id cause db h.
      parked_in-Parks db (mark_waiting_dep (id ∷ []) (show cause) now db) h
        (mark_waiting_dep-IsUnique (id ∷ []) (show cause) now db h);
  batched-IsGood = λ ids cause db h.
      parked_in-Parks db (mark_waiting_dep ids (show cause) now db) h
        (mark_waiting_dep-IsUnique ids (show cause) now db h);
}

-- Rounds of a drain: one more than the waiting rows.
abbrev pub queue_fuel : Db → ℕ
queue_fuel db = count_where waits_dep db.tasks + 1

queue_enough :
    (show : Cause StoreError → Text) (now : ℕ) (db : Db)
    → (queue_laws show now).waiting_count db < queue_fuel db
queue_enough show now db = omega arith

-- For a positive release batch and a queue whose ids and slots are distinct: after any calls and turns
-- of a new controller over the task queue, its ids and slots are distinct, and while the breaker is
-- closed, no row is in waiting_dep or a drain is pending.
pub queue_run-IsServed :
    (show : Cause StoreError → Text) (now : ℕ) (config : ControlConfig StoreError)
    (calls : List (ControlCall Db StoreError)) (db : Db) (b : Breaker)
    → 1 ≤ config.release_batch
    → IsUnique db.tasks
    → IsUnique
        (control_run (queue_ops show now) config queue_fuel calls (new_controller db b)).store.tasks
      × ((control_run
              (queue_ops show now)
              config
              queue_fuel
              calls
              (new_controller db b)).breaker.state
            ≡ closed
          → (count_where waits_dep
                (control_run
                  (queue_ops show now)
                  config
                  queue_fuel
                  calls
                  (new_controller db b)).store.tasks
              ≡ 0)
            ⊎ ((control_run
                  (queue_ops show now)
                  config
                  queue_fuel
                  calls
                  (new_controller db b)).drain_pending
                ≡ true))
queue_run-IsServed show now config calls db b positive h =
    let served =
      control_run-IsServed (queue_ops show now) config queue_fuel (queue_laws show now) positive
        (queue_enough show now) calls db b h in
    (served.good, served.unstranded)
