-- ===== src/TaskQueue/Claim.antt =====
-- Claiming ready tasks (taskqueue.go: claim, Claim, ClaimFresh, ClaimRetry).
use ferret_new.Base.{
  ℕ, ◌+◌, Bool, true, not, ◌&&◌, ◌||◌, List, [], ◌∷◌, ltb, leb, ◌==◌, if◌then◌else◌, any, take,
}
use ferret_new.Base.Int.{ℤ, is_nonpos, to_nat}
use ferret_new.Task.{Task, pending, in_flight, state_eq}
use ferret_new.TaskQueue.{Db, path_key, in_slot, update_where}

pub data Source : Type 0 where
  any_source fresh_source retry_source : Source

-- The source predicate.
abbrev pub from_source : Source → Task → Bool
from_source any_source t = true
from_source fresh_source t = t.attempts == 0 || t.claim_attempt_charge == 0
from_source retry_source t = ltb 0 t.attempts && not (t.claim_attempt_charge == 0)

-- The WHERE clause of the selection.
unfoldable pub is_ready : Source → ℕ → List Task → Task → Bool
unfolding in_slot path_key
is_ready source now ts t =
    state_eq t.state pending
    && (leb t.next_attempt_at_ms now
        && (from_source source t && not (any (in_slot (path_key t.path) in_flight) ts)))

abbrev pub select : (Task → Bool) → List Task → List Task
select p [] = []
select p (t ∷ ts) = let rest = select p ts in if p t then t ∷ rest else rest

-- ORDER BY priority,task_id
unfoldable pub comes_before : Task → Task → Bool
comes_before t u = if t.priority == u.priority then ltb t.id u.id else ltb t.priority u.priority

unfoldable pub insert_task : Task → List Task → List Task
unfolding comes_before
insert_task t [] = t ∷ []
insert_task t (u ∷ us) =
    let rest = insert_task t us in if comes_before u t then u ∷ rest else t ∷ (u ∷ us)

unfoldable pub sort_tasks : List Task → List Task
unfolding insert_task
sort_tasks [] = []
sort_tasks (t ∷ ts) = insert_task t (sort_tasks ts)

unfoldable pub claim_row : ℕ → Task → Task
claim_row now t = record t {
  state = in_flight;
  attempts = t.attempts + t.claim_attempt_charge;
  updated_at_ms = now;
}

-- The rows that the statement updates, in the order of the sort.
unfoldable pub chosen : Source → ℕ → ℕ → List Task → List Task
unfolding sort_tasks is_ready
chosen source n now ts = take n (sort_tasks (select (is_ready source now ts) ts))

abbrev pub among : List Task → Task → Bool
among cs t = any (λ c. c.id == t.id) cs

abbrev map_rows : (Task → Task) → List Task → List Task
map_rows f [] = []
map_rows f (t ∷ ts) = f t ∷ map_rows f ts

-- claim; no error is possible.
unfoldable pub claim : Source → ℤ → ℕ → Db → Db × List Task
unfolding chosen claim_row
claim source n now db =
    if is_nonpos n
    then (db, [])
    else let cs = chosen source (to_nat n) now db.tasks in
      (
        record db { tasks = update_where (among cs) (claim_row now) db.tasks },
        sort_tasks (map_rows (claim_row now) cs),
      )
