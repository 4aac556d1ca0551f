-- ===== src/TaskQueue/Slots/Run.antt =====
-- Sequences of operations on the task queue keep the unique index (taskqueue.go, supersede.go).
use ferret_new.Base.{ℕ, Bool, List, [], ◌∷◌}
use ferret_new.Base.Int.{ℤ}
use ferret_new.Base.Bytes.{Text}
use ferret_new.Task.{TaskState, EnqueueParams}
use ferret_new.TaskQueue.{Db, Result, ok, err}
use ferret_new.TaskQueue.Enqueue.{enqueue}
use ferret_new.TaskQueue.Claim.{Source, claim}
use ferret_new.TaskQueue.Release.{release_to_pending}
use ferret_new.TaskQueue.Finish.{mark_done_tx, mark_retry, mark_waiting_dep, retire_if_superseded}
use ferret_new.TaskQueue.Slots.{IsUnique}
use ferret_new.TaskQueue.Slots.Step.{Holds}
use ferret_new.TaskQueue.Slots.Finish.{
  mark_done_tx-IsUnique, mark_retry-IsUnique, retire_if_superseded-IsUnique,
}
use ferret_new.TaskQueue.Slots.Accepted.{
  IsAccepted, mark_done_tx-IsAccepted, mark_retry-IsAccepted, mark_waiting_dep-IsAccepted,
  retire_if_superseded-IsAccepted,
}
use ferret_new.TaskQueue.Slots.Park.{mark_waiting_dep-IsUnique}
use ferret_new.TaskQueue.Slots.Claim.{claim-IsUnique}
use ferret_new.TaskQueue.Slots.Release.{release_to_pending-IsUnique}
use ferret_new.TaskQueue.Slots.Enqueue.{enqueue-IsUnique}

-- A call, with the time of the clock last.
pub data Call : Type 0 where
  enqueues : EnqueueParams → ℕ → Call
  claims : Source → ℤ → ℕ → Call
  finishes : ℕ → Bool → ℕ → Call
  retries : Text → ℕ → ℕ → Text → Bool → ℕ → Call
  parks : List ℕ → Text → ℕ → Call
  releases : TaskState → ℕ → ℤ → ℕ → Call
  retires : Text → ℕ → ℕ → Call

-- A transaction that fails changes nothing.
abbrev pub kept : Db → Result Db → Db
kept db (ok db') = db'
kept db (err e) = db

abbrev pub kept_first : {A : Type 0} → Db → Result (Db × A) → Db
kept_first db (ok (db', a)) = db'
kept_first db (err e) = db

unfoldable pub step : Call → Db → Db
step (enqueues params now) db = kept_first db (enqueue params now db)
step (claims source n now) db = (claim source n now db).0
step (finishes id clear_resolved now) db = kept db (mark_done_tx id clear_resolved now db)
step (retries class id next last_error refund now) db =
    kept db (mark_retry class id next last_error refund now db)
step (parks ids last_error now) db = kept db (mark_waiting_dep ids last_error now db)
step (releases state due limit now) db = (release_to_pending state due limit now db).0
step (retires message id now) db = kept_first db (retire_if_superseded message id now db)

unfoldable pub run : List Call → Db → Db
unfolding step
run [] db = db
run (c ∷ cs) db = run cs (step c db)

kept-IsUnique :
    (db : Db) (r : Result Db)
    → IsUnique db.tasks
    → Holds (λ d. IsUnique d.tasks) r
    → IsUnique (kept db r).tasks
kept-IsUnique db (ok db') h k = k
kept-IsUnique db (err e) h k = h

kept_first-IsUnique :
    {A : Type 0}
    → (db : Db) (r : Result (Db × A)) → IsUnique db.tasks
    → Holds (λ d. IsUnique d.0.tasks) r
    → IsUnique (kept_first db r).tasks
kept_first-IsUnique db (ok (db', a)) h k = k
kept_first-IsUnique db (err e) h k = h

pub step-IsUnique : (c : Call) (db : Db) → IsUnique db.tasks → IsUnique (step c db).tasks
unfolding step
step-IsUnique (enqueues params now) db h =
    kept_first-IsUnique db (enqueue params now db) h (enqueue-IsUnique params now db h)
step-IsUnique (claims source n now) db h = claim-IsUnique source n now db h
step-IsUnique (finishes id clear_resolved now) db h =
    kept-IsUnique db _ h (mark_done_tx-IsUnique id clear_resolved now db h)
step-IsUnique (retries class id next last_error refund now) db h =
    kept-IsUnique db _ h (mark_retry-IsUnique class id next last_error refund now db h)
step-IsUnique (parks ids last_error now) db h =
    kept-IsUnique db _ h (mark_waiting_dep-IsUnique ids last_error now db h)
step-IsUnique (releases state due limit now) db h =
    release_to_pending-IsUnique state due limit now db h
step-IsUnique (retires message id now) db h =
    kept_first-IsUnique db _ h (retire_if_superseded-IsUnique message id now db h)

run_from : (cs : List Call) (db : Db) → IsUnique db.tasks → IsUnique (run cs db).tasks
unfolding run
run_from [] db h = h
run_from (c ∷ cs) db h = run_from cs (step c db) (step-IsUnique c db h)

-- The unique indexes refuse no update of the call, if it is a transition out of in_flight.
abbrev pub Accepts : Db → Call → Type 0
Accepts db (finishes id clear_resolved now) = IsAccepted (mark_done_tx id clear_resolved now db)
Accepts db (retries class id next last_error refund now) =
    IsAccepted (mark_retry class id next last_error refund now db)
Accepts db (parks ids last_error now) = IsAccepted (mark_waiting_dep ids last_error now db)
Accepts db (retires message id now) = IsAccepted (retire_if_superseded message id now db)
Accepts db _ = Unit {0}

IsUnique-Accepts : (db : Db) (c : Call) → IsUnique db.tasks → Accepts db c
IsUnique-Accepts db (enqueues params now) h = tt
IsUnique-Accepts db (claims source n now) h = tt
IsUnique-Accepts db (finishes id clear_resolved now) h =
    mark_done_tx-IsAccepted id clear_resolved now db h
IsUnique-Accepts db (retries class id next last_error refund now) h =
    mark_retry-IsAccepted class id next last_error refund now db h
IsUnique-Accepts db (parks ids last_error now) h =
    mark_waiting_dep-IsAccepted ids last_error now db h
IsUnique-Accepts db (releases state due limit now) h = tt
IsUnique-Accepts db (retires message id now) h = retire_if_superseded-IsAccepted message id now db h

-- If the ids and the slots (path key and state) of the rows are distinct, then they are distinct after
-- any sequence of enqueues, claims, completions, retries, parkings, releases and retirements; and
-- whichever completion, retry, parking or retirement comes next, none of its updates of in-flight rows
-- meets a slot that another row has, which the unique indexes would refuse.
pub run-IsUnique :
    (cs : List Call) (db : Db)
    → IsUnique db.tasks
    → IsUnique (run cs db).tasks × ((c : Call) → Accepts (run cs db) c)
run-IsUnique cs db h =
    let after = run_from cs db h in (after, λ c. IsUnique-Accepts (run cs db) c after)
