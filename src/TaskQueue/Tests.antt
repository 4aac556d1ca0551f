-- ===== src/TaskQueue/Tests.antt =====
-- Runs of the task queue (taskqueue.go), and the theorems at concrete inputs.
mod Stores
use ferret_new.Base.{
  ◌⊎◌, ℕ, ◌+◌, ◌-◌, ◌≡◌, refl, arith, true, false, none, List, [], ◌∷◌, map, ◌++◌,
}
use ferret_new.Base.Int.{pos}
use ferret_new.Base.Bytes.{Text, text_eq}
use ferret_new.FilePath.{clean}
use ferret_new.Task.{
  Task, upsert, waiting_dep, done, History, HistoryEntry, retried, entries, EnqueueParams,
}
use ferret_new.TaskQueue.{is_refused, Db, ok}
use ferret_new.TaskQueue.Claim.{any_source, claim_row, claim}
use ferret_new.TaskQueue.Enqueue.{merge_row, new_row, enqueue}
use ferret_new.TaskQueue.Enqueue.Coalesce.{SameButFile, OnlyOlderHasFile, merge_row_comm}
use ferret_new.TaskQueue.Finish.{park_row, retry_row, mark_done_tx, mark_waiting_dep}
use ferret_new.TaskQueue.Finish.Attempts.{outages, outages_free, claim_cost}
use ferret_new.TaskQueue.Release.{release_to_pending}
use ferret_new.TaskQueue.History.{merge_failure_history}
use ferret_new.TaskQueue.History.Bound.{CappedEnd, merge_failure_history_exact}
use ferret_new.TaskQueue.Slots.{IsUnique}
use ferret_new.TaskQueue.Slots.Run.{
  Accepts, Call, Call, enqueues, claims, finishes, parks, releases, step, run, run-IsUnique,
}

-- The text "/a".
abbrev a : Text
a = b'/' ∷ b'a' ∷ []

abbrev params : ℕ → EnqueueParams
params generation = record {
  file_id = none;
  path = a;
  op = upsert;
  old_path = none;
  generation = pos generation;
  priority = pos 5;
  next_attempt_at_ms = 0;
}

abbrev empty : Db
empty = record { tasks = []; files = []; dead_letters = []; audit = [] }

-- A newer generation is enqueued while an older one is in flight, and then while it is parked.
abbrev calls : List Call
calls =
    enqueues (params 1) 1
    ∷ claims any_source (pos 8) 2
    ∷ enqueues (params 2) 3
    ∷ parks (1 ∷ []) [] 4
    ∷ releases waiting_dep 0 (pos 8) 5
    ∷ claims any_source (pos 8) 6
    ∷ finishes 2 true 7
    ∷ []

-- The parked older generation goes into the newer one, which is then done.
calls_done : map (λ t. t.state) (run calls empty).tasks ≡ done ∷ []
unfolding run step enqueue claim mark_waiting_dep mark_done_tx text_eq clean release_to_pending
    is_refused
calls_done = refl

run-IsUnique_example : IsUnique (run calls empty).tasks × ((c : Call) → Accepts (run calls empty) c)
run-IsUnique_example = run-IsUnique calls empty tt

abbrev row : Task
row = new_row (params 1) 1 0

abbrev no_history : History × History
no_history = (entries [], entries [])

outages_free_example :
    ((park_row [] 9 (outages 3 [] 9 row)).attempts ≡ row.attempts - row.claim_attempt_charge)
    × ((outages 4 [] 9 row).attempts ≡ row.attempts - row.claim_attempt_charge)
    × ((retry_row false 10 [] no_history 9 (outages 4 [] 9 row)).attempts
        ≡ (row.attempts - row.claim_attempt_charge) + 1)
    × ((retry_row false 10 [] no_history 9 (outages 4 [] 9 row)).claim_attempt_charge ≡ 1)
outages_free_example = outages_free 3 [] 9 10 no_history row

claim_cost_example :
    ((retry_row true 10 [] no_history 9 (claim_row 9 row)).attempts ≡ row.attempts)
    × ((retry_row true 10 [] no_history 9 (claim_row 9 row)).claim_attempt_charge
        ≡ row.claim_attempt_charge)
    × ((retry_row false 10 [] no_history 9 (claim_row 9 row)).attempts ≡ row.attempts + 1)
claim_cost_example = claim_cost 10 9 [] no_history row (omega arith)

merge_failure_history_exact_example :
    (zs : List HistoryEntry) × (merge_failure_history
        (entries (retried a ∷ []))
        (entries (retried [] ∷ []))
      ≡ ok (entries zs))
    × CappedEnd ((retried a ∷ []) ++ (retried [] ∷ [])) zs
merge_failure_history_exact_example = merge_failure_history_exact (retried a ∷ []) (retried [] ∷ [])

merge_row_comm_example :
    let older = new_row (params 2) 7 1 in
    let newer = new_row (params 3) 8 2 in
    SameButFile (merge_row newer (merge_row older row)) (merge_row older (merge_row newer row))
    × (((merge_row newer (merge_row older row)).file_id
          ≡ (merge_row older (merge_row newer row)).file_id)
        ⊎ OnlyOlderHasFile older newer)
merge_row_comm_example =
    merge_row_comm row (new_row (params 2) 7 1) (new_row (params 3) 8 2)
      (λ e. absurd (omega (arith, e)))
