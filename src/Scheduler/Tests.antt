-- ===== src/Scheduler/Tests.antt =====
-- Runs of the scheduler (scheduler.go), and the theorems at concrete inputs.
use ferret_new.FilePath.{clean}
use ferret_new.Base.{
  All, length, ℕ, ◌≤◌, ◌≡◌, refl, ◌↔◌, true, false, Option, none, some, List, [], ◌∷◌,
}
use ferret_new.Base.Bytes.{has_prefix, text_eq, Text}
use ferret_new.Task.{Task, TaskOp, upsert, remove, pending, entries, in_flight}
use ferret_new.Scheduler.Scope.{path_within, conflicts, normalize_path, scope_for, scopes_overlap}
use ferret_new.Scheduler.Scope.Overlap.{Reserves, scopes_overlap_iff}
use ferret_new.Scheduler.Budget.{
  RetryBudget, claim_fresh, claim_retry, plan, new_retry_budget, default_retry_claim_ratio,
}
use ferret_new.Scheduler.Order.{claimed_from, ClaimedTask, order_claimed}
use ferret_new.Scheduler.Order.Complete.{fresh_in, retried_in, order_claimed_complete}
use ferret_new.Scheduler.Store.{refund_claimed, refund_store_tasks, retry_conflict, StoreOps}
use ferret_new.Scheduler.Claim.{claim_ready}
use ferret_new.Scheduler.Claim.Bound.{claim_ready-le}
use ferret_new.Scheduler.Dispatch.{Loop, route_for, dispatch_one, dispatch_claimed}
use ferret_new.Scheduler.Exclusion.{outstanding, AreDisjoint, NoOverlap}
use ferret_new.Scheduler.Run.{turn, Config, Inputs, tick, begin, run, loop_of}
use ferret_new.TaskQueue.{Db, StoreError, is_refused}
use ferret_new.TaskQueue.Finish.{mark_retry}
use ferret_new.TaskQueue.Slots.Grounded.{Grounded}
use ferret_new.Scheduler.Accounting.{Settled}
use ferret_new.Scheduler.Queue.{queue_store, queue_dispatch_settles}
use ferret_new.Scheduler.Turns.{run-NoOverlap}

-- The texts "/a" and "/a/b".
abbrev dir_a : Text
dir_a = b'/' ∷ b'a' ∷ []

abbrev file_ab : Text
file_ab = b'/' ∷ b'a' ∷ b'/' ∷ b'b' ∷ []

abbrev task : ℕ → Option ℕ → TaskOp → Text → Task
task id file op path = record {
  id = id;
  file_id = file;
  path = path;
  op = op;
  old_path = none;
  generation = 1;
  state = pending;
  priority = 5;
  attempts = 0;
  crash_count = 0;
  next_attempt_at_ms = 0;
  last_error = none;
  created_at_ms = 0;
  updated_at_ms = 0;
  claim_attempt_charge = 1;
  attempts_log = entries [];
  error_chain = entries [];
}

abbrev remove_dir : Task
remove_dir = task 1 none remove dir_a

abbrev upsert_file : Task
upsert_file = task 2 (some 7) upsert file_ab

-- A store that remembers the ids of the tasks that were marked for a retry.
abbrev ops : StoreOps (List ℕ) (Unit {0})
ops = record {
  claim_fresh = λ n now s. (s, remove_dir ∷ upsert_file ∷ [], []);
  claim_retry = λ n now s. (s, [], []);
  mark_dispatch_retry = λ id next r s. (id ∷ s, none);
  release_retry_wait = λ now n s. (s, none);
  cancelled = λ s. false;
}

abbrev config : Config
config = record {
  batch_size = 2;
  retry_release_limit = 10;
  retry_budget_ratio = default_retry_claim_ratio;
  conflict_delay = 200;
}

abbrev inputs : Inputs
inputs = record {
  release_now = 0;
  claim_now = 0;
  dispatch_now = 0;
  available = 2;
  sends = true ∷ true ∷ [];
  event = tick;
}

overlap_of_directory : scopes_overlap (scope_for remove_dir) (scope_for upsert_file) ≡ true
unfolding scopes_overlap scope_for normalize_path clean path_within text_eq has_prefix
overlap_of_directory = refl

-- The file below the directory that is being removed waits.
second_waits : (loop_of (run ops config (inputs ∷ []) (begin config []))).store ≡ 2 ∷ []
unfolding run turn begin claim_ready dispatch_claimed dispatch_one conflicts scopes_overlap
    scope_for normalize_path clean path_within text_eq has_prefix order_claimed route_for plan
    retry_conflict refund_store_tasks refund_claimed default_retry_claim_ratio
second_waits = refl

scopes_overlap_iff_example :
    (scopes_overlap (scope_for remove_dir) (scope_for upsert_file) ≡ true)
    ↔ ((p : Text) × Reserves (scope_for remove_dir) p × Reserves (scope_for upsert_file) p)
scopes_overlap_iff_example = scopes_overlap_iff (scope_for remove_dir) (scope_for upsert_file)

abbrev budget : RetryBudget
budget = new_retry_budget default_retry_claim_ratio

five_plans :
    plan 5 budget ≡ claim_fresh ∷ claim_fresh ∷ claim_fresh ∷ claim_fresh ∷ claim_retry ∷ []
unfolding plan default_retry_claim_ratio new_retry_budget
five_plans = refl

order_claimed_complete_example :
    let o = order_claimed (claim_retry ∷ claim_fresh ∷ []) (upsert_file ∷ []) (remove_dir ∷ []) in
    (fresh_in o ≡ upsert_file ∷ []) × (retried_in o ≡ remove_dir ∷ [])
order_claimed_complete_example =
    order_claimed_complete (claim_retry ∷ claim_fresh ∷ []) (upsert_file ∷ []) (remove_dir ∷ [])

claim_ready-le_example : length (claim_ready ops 200 1 0 budget []).1.tasks ≤ 1
claim_ready-le_example = claim_ready-le ops 200 0 1 budget []

run-NoOverlap_example :
    let l = loop_of (run ops config (inputs ∷ inputs ∷ []) (begin config [])) in
    NoOverlap l.in_flight × AreDisjoint (outstanding l.signals)
run-NoOverlap_example = run-NoOverlap ops config (inputs ∷ inputs ∷ []) []

-- The tasks as rows in flight.
abbrev flying_dir : Task
flying_dir = record remove_dir { state = in_flight }

abbrev flying_file : Task
flying_file = record upsert_file { state = in_flight }

-- What else the scheduler may ask of the store.
abbrev idle_store : StoreOps Db StoreError
idle_store = record {
  claim_fresh = λ n now db. (db, [], []);
  claim_retry = λ n now db. (db, [], []);
  mark_dispatch_retry = λ id next r db. (db, none);
  release_retry_wait = λ now n db. (db, none);
  cancelled = λ db. false;
}

abbrev queue : StoreOps Db StoreError
queue = queue_store [] (λ r. []) 7 idle_store

abbrev queue_loop : Loop Db
queue_loop = record {
  store = record {
    tasks = flying_dir ∷ flying_file ∷ [];
    files = [];
    dead_letters = [];
    audit = [];
  };
  in_flight = [];
  budget = budget;
  sends = true ∷ [];
  signals = [];
}

abbrev batch : List ClaimedTask
batch = claimed_from claim_fresh flying_dir ∷ claimed_from claim_fresh flying_file ∷ []

batch_dispatched : (dispatch_claimed queue 200 0 false batch queue_loop).1 ≡ []
unfolding dispatch_claimed dispatch_one conflicts scopes_overlap scope_for normalize_path clean
    path_within text_eq has_prefix route_for retry_conflict mark_retry is_refused
batch_dispatched = refl

queue_dispatch_settles_example :
    All
      (Settled
        (λ id db. Grounded id db.tasks)
        (dispatch_claimed queue 200 0 false batch queue_loop).0)
      batch
queue_dispatch_settles_example =
    queue_dispatch_settles [] (λ r. []) 7 idle_store 200 0 false batch queue_loop batch_dispatched
