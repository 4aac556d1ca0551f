-- ===== src/TaskQueue/Slots/Accepted.antt =====
-- No transition out of in_flight meets a taken slot, so the unique index refuses none of its updates
-- (taskqueue.go: markDoneTx, markRetry, MarkWaitingDepBatch; supersede.go).
use ferret_new.Base.{
  ℕ, ◌≡◌, refl, ap, subst, ◌∙◌, Bool, true, false, ◌&&◌, Option, none, some, List, [], ◌∷◌, ◌==◌,
  if_elim, any, any_sound, ltb, leb, ==_iff,
}
use ferret_new.Base.Bytes.{Text}
use ferret_new.Task.{
  Task, TaskState, History, HistoryEntry, malformed, entries, in_flight, retry_wait, waiting_dep,
  done, state_eq,
}
use ferret_new.TaskQueue.{
  Db, Result, ok, err, StoreError, slot_taken, and_then, path_key, find, find_other, expect_state,
  task_for_transition, update_in_flight, is_refused, clear_found, clear_older_state_slot,
}
use ferret_new.TaskQueue.Slots.{IsUnique, in_slot_sound, state_eq_sound}
use ferret_new.TaskQueue.Slots.Step.{
  Holds, Found, Free, task_for_transition-Found, update_in_flight-IsUnique, anything, both-Holds,
}
use ferret_new.TaskQueue.Slots.Finish.{Cleared, clear_older_state_slot-Cleared, clear_done-Free}
use ferret_new.TaskQueue.Slots.Park.{
  AllFree, FoundAll, tasks_for_transition-FoundAll, clear_slots-AllFree, parked,
}
use ferret_new.TaskQueue.History.{append_failure_history}
use ferret_new.TaskQueue.Finish.{
  validate_batch, tasks_for_transition, clear_slots, park_row, park_all, mark_waiting_dep,
  retry_histories, successor, clear_done, done_row, mark_done_tx, retry_row, mark_retry,
  superseded_row, retire_if_superseded,
}

-- The error is not the refusal of an update.
abbrev IsOther : StoreError → Type 0
IsOther slot_taken = ⊥
IsOther e = Unit {0}

abbrev pub IsAccepted : {A : Type 0} → Result A → Type 0
IsAccepted (ok a) = Unit {0}
IsAccepted (err e) = IsOther e

and_then-IsAccepted :
    {A B : Type 0}
    → (P : A → Type 0) (r : Result A) (f : A → Result B) → Holds P r
    → IsAccepted r
    → ((a : A) → P a → IsAccepted (f a))
    → IsAccepted (and_then r f)
and_then-IsAccepted P (ok a) f h k next = next a h
and_then-IsAccepted P (err e) f h k next = k

both_true : (a b : Bool) → (a && b) ≡ true → (a ≡ true) × (b ≡ true)
both_true true b h = (refl, h)
both_true false b h = cc

update_in_flight-IsAccepted :
    (st : TaskState) (id : ℕ) (f : Task → Task) (ts : List Task)
    → ((t : Task) → ((f t).id ≡ t.id) × ((f t).path ≡ t.path) × ((f t).state ≡ st))
    → Free st id ts
    → IsAccepted (update_in_flight id f ts)
unfolding update_in_flight is_refused
update_in_flight-IsAccepted st id f ts keeps free =
    if_elim {A = Result (List Task)} IsAccepted
      (any (λ t. t.id == id && state_eq t.state in_flight) ts)
      (λ _.
        if_elim {A = Result (List Task)} IsAccepted (is_refused id f ts)
          (λ taken.
            let (t, m, hit) = any_sound _ ts taken in
            let (flies, occupied) = both_true _ _ hit in
            let (same, flying) = both_true _ _ flies in
            let (v, mv, there) = any_sound _ ts occupied in
            let (key, state) =
              in_slot_sound (path_key (f t).path) (f t).state v (both_true _ _ there).0 in
            absurd (
              free t v m mv ((==_iff t.id id).0 same) (state_eq_sound t.state in_flight flying)
                (key ∙ ap path_key (keeps t).1) (state ∙ (keeps t).2)))
          (λ _. tt))
      (λ _. tt)

task_for_transition-IsAccepted :
    (id : ℕ) (ts : List Task) → IsAccepted (task_for_transition id in_flight ts)
unfolding task_for_transition
task_for_transition-IsAccepted id ts = at (find id ts)
  where
    at : (o : Option Task) → IsAccepted (expect_state in_flight o)
    at none = tt
    at (some t) = if_elim IsAccepted (state_eq t.state in_flight) (λ _. tt) (λ _. tt)

clear_older_state_slot-IsAccepted :
    (t : Task) (st : TaskState) (ts : List Task) → IsAccepted (clear_older_state_slot t st ts)
unfolding clear_older_state_slot
clear_older_state_slot-IsAccepted t st ts = at (find_other t.id (path_key t.path) st ts)
  where
    at : (o : Option Task) → IsAccepted (clear_found t ts o)
    at none = tt
    at (some u) = if_elim IsAccepted (ltb t.generation u.generation) (λ _. tt) (λ _. tt)

pub mark_done_tx-IsAccepted :
    (id : ℕ) (clear_resolved : Bool) (now : ℕ) (db : Db)
    → IsUnique db.tasks
    → IsAccepted (mark_done_tx id clear_resolved now db)
unfolding mark_done_tx
mark_done_tx-IsAccepted id clear_resolved now db h =
    and_then-IsAccepted (Found db.tasks id) (task_for_transition id in_flight db.tasks) _
      (task_for_transition-Found id db.tasks) (task_for_transition-IsAccepted id db.tasks)
      (λ t found.
        and_then-IsAccepted (λ _. Unit {0})
          (update_in_flight id (done_row now) (clear_done t db.tasks)) _ (anything _)
          (update_in_flight-IsAccepted done id (done_row now) (clear_done t db.tasks)
            (λ u. (refl, refl, refl))
            (subst (λ i. Free done i (clear_done t db.tasks)) found.1
              (clear_done-Free t db.tasks h found.0)))
          (λ ts _. tt))

pub retire_if_superseded-IsAccepted :
    (message : Text) (id now : ℕ) (db : Db)
    → IsUnique db.tasks
    → IsAccepted (retire_if_superseded message id now db)
unfolding retire_if_superseded
retire_if_superseded-IsAccepted message id now db h =
    and_then-IsAccepted (Found db.tasks id) (task_for_transition id in_flight db.tasks) _
      (task_for_transition-Found id db.tasks) (task_for_transition-IsAccepted id db.tasks)
      (λ t found.
        if_elim {A = Result (Db × Bool)} IsAccepted (leb (successor t db) t.generation) (λ _. tt)
          (λ _.
            and_then-IsAccepted (λ _. Unit {0})
              (update_in_flight id (superseded_row message now) (clear_done t db.tasks)) _
              (anything _)
              (update_in_flight-IsAccepted done id (superseded_row message now)
                (clear_done t db.tasks) (λ u. (refl, refl, refl))
                (subst (λ i. Free done i (clear_done t db.tasks)) found.1
                  (clear_done-Free t db.tasks h found.0)))
              (λ ts _. tt)))

append-IsAccepted :
    (h : History) (entry : HistoryEntry) → IsAccepted (append_failure_history h entry)
unfolding append_failure_history
append-IsAccepted malformed entry = tt
append-IsAccepted (entries xs) entry = tt

retry_histories-IsAccepted :
    (refund : Bool) (t : Task) (class last_error : Text) (now : ℕ)
    → IsAccepted (retry_histories refund t class last_error now)
unfolding retry_histories
retry_histories-IsAccepted true t class last_error now = tt
retry_histories-IsAccepted false t class last_error now =
    and_then-IsAccepted (λ _. Unit {0}) (append_failure_history t.attempts_log _) _ (anything _)
      (append-IsAccepted t.attempts_log _)
      (λ log _.
        and_then-IsAccepted (λ _. Unit {0}) (append_failure_history t.error_chain _) _ (anything _)
          (append-IsAccepted t.error_chain _) (λ chain _. tt))

pub mark_retry-IsAccepted :
    (class : Text) (id next : ℕ) (last_error : Text) (refund : Bool) (now : ℕ) (db : Db)
    → IsUnique db.tasks
    → IsAccepted (mark_retry class id next last_error refund now db)
unfolding mark_retry retry_row
mark_retry-IsAccepted class id next last_error refund now db h =
    and_then-IsAccepted (Found db.tasks id) (task_for_transition id in_flight db.tasks) _
      (task_for_transition-Found id db.tasks) (task_for_transition-IsAccepted id db.tasks)
      (λ t found.
        and_then-IsAccepted (Cleared retry_wait t.id db.tasks)
          (clear_older_state_slot t retry_wait db.tasks) _
          (clear_older_state_slot-Cleared db.tasks t retry_wait db.tasks (λ e. cc) h found.0
            (λ v m _. m) h)
          (clear_older_state_slot-IsAccepted t retry_wait db.tasks)
          (λ ts cleared.
            and_then-IsAccepted (λ _. Unit {0}) (retry_histories refund t class last_error now) _
              (anything _) (retry_histories-IsAccepted refund t class last_error now)
              (λ r _.
                and_then-IsAccepted (λ _. Unit {0})
                  (update_in_flight id (retry_row refund next last_error r now) ts) _ (anything _)
                  (update_in_flight-IsAccepted retry_wait id
                    (retry_row refund next last_error r now) ts (λ u. (refl, refl, refl))
                    (subst (λ i. Free retry_wait i ts) found.1 cleared.1))
                  (λ ts' _. tt))))

validate_batch-IsAccepted : (seen ids : List ℕ) → IsAccepted (validate_batch seen ids)
unfolding validate_batch
validate_batch-IsAccepted seen [] = tt
validate_batch-IsAccepted seen (id ∷ ids) =
    if_elim {A = Result (Unit {0})} IsAccepted (id == 0) (λ _. tt)
      (λ _.
        if_elim {A = Result (Unit {0})} IsAccepted (any (λ j. j == id) seen) (λ _. tt)
          (λ _. validate_batch-IsAccepted (id ∷ seen) ids))

tasks_for_transition-IsAccepted :
    (ids : List ℕ) (ts : List Task) → IsAccepted (tasks_for_transition ids ts)
unfolding tasks_for_transition
tasks_for_transition-IsAccepted [] ts = tt
tasks_for_transition-IsAccepted (id ∷ ids) ts =
    and_then-IsAccepted (λ _. Unit {0}) (task_for_transition id in_flight ts) _ (anything _)
      (task_for_transition-IsAccepted id ts)
      (λ t _.
        and_then-IsAccepted (λ _. Unit {0}) (tasks_for_transition ids ts) _ (anything _)
          (tasks_for_transition-IsAccepted ids ts) (λ found _. tt))

clear_slots-IsAccepted : (batch ts : List Task) → IsAccepted (clear_slots batch ts)
unfolding clear_slots
clear_slots-IsAccepted [] ts = tt
clear_slots-IsAccepted (t ∷ batch) ts =
    and_then-IsAccepted (λ _. Unit {0}) (clear_older_state_slot t waiting_dep ts) _ (anything _)
      (clear_older_state_slot-IsAccepted t waiting_dep ts)
      (λ ts' _. clear_slots-IsAccepted batch ts')

park_all-IsAccepted :
    (last_error : Text) (now : ℕ) (ids : List ℕ) (ts : List Task)
    → IsUnique ts
    → AllFree ids ts
    → IsAccepted (park_all last_error now ids ts)
unfolding park_all AllFree park_row
park_all-IsAccepted last_error now [] ts h free = tt
park_all-IsAccepted last_error now (id ∷ ids) ts h free =
    let next = update_in_flight id (park_row last_error now) ts in
    and_then-IsAccepted (λ ts'. IsUnique ts' × AllFree ids ts') next (park_all last_error now ids)
      (both-Holds IsUnique (AllFree ids) next
        (update_in_flight-IsUnique waiting_dep id (park_row last_error now) ts
          (λ u. (refl, refl, refl)) free.0 h)
        (parked last_error now id ids ts h free.1))
      (update_in_flight-IsAccepted waiting_dep id (park_row last_error now) ts
        (λ u. (refl, refl, refl)) free.0)
      (λ ts' (unique, rest). park_all-IsAccepted last_error now ids ts' unique rest)

pub mark_waiting_dep-IsAccepted :
    (ids : List ℕ) (last_error : Text) (now : ℕ) (db : Db)
    → IsUnique db.tasks
    → IsAccepted (mark_waiting_dep ids last_error now db)
unfolding mark_waiting_dep
mark_waiting_dep-IsAccepted [] last_error now db h = tt
mark_waiting_dep-IsAccepted (id ∷ ids) last_error now db h =
    and_then-IsAccepted (λ _. Unit {0}) (validate_batch [] (id ∷ ids)) _ (anything _)
      (validate_batch-IsAccepted [] (id ∷ ids))
      (λ _ _.
        and_then-IsAccepted (FoundAll db.tasks (id ∷ ids))
          (tasks_for_transition (id ∷ ids) db.tasks) _
          (tasks_for_transition-FoundAll (id ∷ ids) db.tasks)
          (tasks_for_transition-IsAccepted (id ∷ ids) db.tasks)
          (λ batch found.
            and_then-IsAccepted _ (clear_slots batch db.tasks) _
              (clear_slots-AllFree db.tasks (id ∷ ids) batch db.tasks h found (λ v m. m) h)
              (clear_slots-IsAccepted batch db.tasks)
              (λ ts (unique, free, _).
                and_then-IsAccepted (λ _. Unit {0}) (park_all last_error now (id ∷ ids) ts) _
                  (anything _) (park_all-IsAccepted last_error now (id ∷ ids) ts unique free)
                  (λ ts' _. tt))))
