-- ===== src/TaskQueue/Release.antt =====
-- Releasing waiting tasks to pending (taskqueue.go: releaseToPending, ReleaseWaitingDep,
-- ReleaseRetryWait).
use ferret_new.Base.{
  ℕ, Bool, true, ◌&&◌, Option, none, some, List, [], ◌∷◌, ltb, leb, ◌==◌, if◌then◌else◌, take,
  length,
}
use ferret_new.Base.Int.{ℤ, is_nonpos, to_nat}
use ferret_new.Task.{Task, TaskState, pending, retry_wait, waiting_dep, state_eq}
use ferret_new.TaskQueue.{Db, path_key, find_slot, delete_where, update_where, has_id}
use ferret_new.TaskQueue.Claim.{select, sort_tasks}

abbrev pub released_row : ℕ → Task → Task
released_row now t = record t { state = pending; next_attempt_at_ms = 0; updated_at_ms = now }

-- The pending row once a newer released task goes into it.
abbrev pub coalesced_row : Task → ℕ → Task → Task
coalesced_row t now p = record p {
  file_id = t.file_id;
  path = t.path;
  op = t.op;
  old_path = t.old_path;
  generation = t.generation;
  priority = if ltb t.priority p.priority then t.priority else p.priority;
  attempts = t.attempts;
  crash_count = t.crash_count;
  claim_attempt_charge = t.claim_attempt_charge;
  next_attempt_at_ms = 0;
  last_error = t.last_error;
  attempts_log = t.attempts_log;
  error_chain = t.error_chain;
  updated_at_ms = now;
}

-- What happens to a candidate, from the pending row of its path.
unfoldable pub release_into : TaskState → Task → ℕ → Option Task → List Task → List Task
release_into state t now none ts =
    update_where (λ u. u.id == t.id && state_eq u.state state) (released_row now) ts
release_into state t now (some p) ts = delete_where (has_id t.id) (
    if ltb p.generation t.generation
    then update_where (has_id p.id) (coalesced_row t now) ts
    else ts)

unfoldable pub release_all : TaskState → ℕ → List Task → List Task → List Task
unfolding release_into find_slot path_key
release_all state now [] ts = ts
release_all state now (t ∷ cs) ts =
    release_all state now cs (release_into state t now (find_slot (path_key t.path) pending ts) ts)

abbrev pub is_due : TaskState → ℕ → Task → Bool
is_due retry_wait due t = leb t.next_attempt_at_ms due
is_due _ due t = true

unfoldable pub candidates : TaskState → ℕ → ℤ → List Task → List Task
unfolding sort_tasks
candidates state due limit ts =
    take (if is_nonpos limit then 1000 else to_nat limit)
      (sort_tasks (select (λ t. state_eq t.state state && is_due state due t) ts))

-- releaseToPending, with the number of released tasks.
unfoldable pub release_to_pending : TaskState → ℕ → ℤ → ℕ → Db → Db × ℕ
unfolding release_all candidates
release_to_pending state due limit now db =
    let cs = candidates state due limit db.tasks in
    (record db { tasks = release_all state now cs db.tasks }, length cs)

unfoldable pub release_waiting_dep : ℤ → ℕ → Db → Db × ℕ
unfolding release_to_pending
release_waiting_dep limit now db = release_to_pending waiting_dep 0 limit now db

unfoldable pub release_retry_wait : ℕ → ℤ → ℕ → Db → Db × ℕ
unfolding release_to_pending
release_retry_wait due limit now db = release_to_pending retry_wait due limit now db
