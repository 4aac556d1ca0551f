-- ===== src/Scheduler/Dispatch.antt =====
-- Dispatching a batch (scheduler.go: routeFor, Lease, dispatchClaimed).
use ferret_new.Base.{
  ℕ, Bool, true, false, ◌&&◌, not, Option, none, some, List, [], ◌∷◌, ◌++◌, ◌==◌, if◌then◌else◌,
}
use ferret_new.Task.{Task, TaskOp, upsert, remove, relocate, other}
use ferret_new.Scheduler.Budget.{
  ClaimSource, claim_fresh, claim_retry, RetryBudget, can_retry, record_fresh, record_retry,
}
use ferret_new.Scheduler.Order.{ClaimedTask}
use ferret_new.Scheduler.Scope.{PathScope, InFlight, scope_for, conflicts}
use ferret_new.Scheduler.Store.{
  Reason, budget_exhausted, budget_cleanup, unsupported, conflict_cleanup, path_in_flight,
  input_full, StoreOps, SchedulerError, unsupported_task, retry_conflict, refund_claimed,
}
use ferret_new.Scheduler.Claim.{is_empty}

pub data Route : Type 0 where
  route_upsert route_remove route_relocate : Route

unfoldable pub route_for : TaskOp → Option Route
route_for upsert = some route_upsert
route_for remove = some route_remove
route_for relocate = some route_relocate
route_for (other name) = none

pub record Lease : Type 0 where
  pub task : Task
  pub route : Route

-- inFlight[id] = scope
unfoldable pub put : ℕ → PathScope → InFlight → InFlight
put id scope [] = (id, scope) ∷ []
put id scope ((j, other_scope) ∷ m) =
    if j == id then (id, scope) ∷ m else (j, other_scope) ∷ put id scope m

-- delete(inFlight, id)
unfoldable pub delete : ℕ → InFlight → InFlight
delete id [] = []
delete id ((j, scope) ∷ m) = if j == id then m else (j, scope) ∷ delete id m

-- What passes through the channels: a lease that was sent, a task whose lease found the output channel
-- full, and a task whose completion was received.
pub data Signal : Type 0 where
  sent : Lease → Signal
  full completed : ℕ → Signal

-- The loop's state. `sends` says of each send on the output channel to come whether it finds room;
-- `signals` are those so far, newest first. They are the environment's: the code does not read them.
pub record Loop (S : Type 0) : Type 0 where
  pub store : S
  pub in_flight : InFlight
  pub budget : RetryBudget
  pub sends : List Bool
  pub signals : List Signal

abbrev pub next_send : List Bool → Bool
next_send [] = false
next_send (b ∷ bs) = b

abbrev pub later_sends : List Bool → List Bool
later_sends [] = []
later_sends (b ∷ bs) = bs

abbrev pub is_retry : ClaimSource → Bool
is_retry claim_retry = true
is_retry _ = false

abbrev pub is_fresh : ClaimSource → Bool
is_fresh claim_fresh = true
is_fresh _ = false

-- One round of the loop: go on with the rest of the batch, or return.
pub data Round (S E : Type 0) : Type 0 where
  go_on : Loop S → Round S E
  return : Loop S → List (SchedulerError E) → Round S E

-- The rest of the loop after a round.
abbrev pub follow :
    {S E : Type 0}
    → Round S E
    → (Loop S → Loop S × List (SchedulerError E))
    → Loop S × List (SchedulerError E)
follow (go_on l) rest = rest l
follow (return l errs) rest = (l, errs)

module _ {S E : Type 0} (ops : StoreOps S E) (conflict_delay : ℕ) where
  -- The task goes back to the queue, and if that fails so does the rest of the batch.
  unfoldable pub give_back :
      ℕ → Reason → Reason → ClaimedTask → List ClaimedTask → Loop S → Round S E
  give_back now reason cleanup_reason c rest l =
      let (s1, err) = retry_conflict ops conflict_delay c.task now reason l.store in
      let (s2, cleanup) = refund_claimed ops conflict_delay rest now cleanup_reason s1 in
      if is_empty err
      then go_on (record l { store = s1 })
      else return (record l { store = s2 }) (err ++ cleanup)

  -- The select on the output channel.
  unfoldable pub send : ℕ → Bool → Route → ClaimedTask → List ClaimedTask → Loop S → Round S E
  unfolding put delete
  send now budgeted route c rest l =
      let scope = scope_for c.task in
      let active = put c.task.id scope l.in_flight in
      let (s1, errs) = refund_claimed ops conflict_delay (c ∷ rest) now input_full l.store in
      if next_send l.sends
      then go_on (record l {
        in_flight = active;
        budget =
            if is_fresh c.source
            then record_fresh l.budget
            else if budgeted
            then record_retry l.budget
            else l.budget;
        sends = later_sends l.sends;
        signals = sent (record { task = c.task; route = route }) ∷ l.signals;
      })
      else return
          (record l {
            store = s1;
            in_flight = delete c.task.id active;
            sends = later_sends l.sends;
            signals = full c.task.id ∷ l.signals;
          })
          errs

  -- From the test for a path conflict on.
  unfoldable pub offer :
      ℕ → Bool → Option Route → ClaimedTask → List ClaimedTask → Loop S → Round S E
  unfolding give_back send
  offer now budgeted none c rest l =
      let (s1, errs) = refund_claimed ops conflict_delay (c ∷ rest) now unsupported l.store in
      return (record l { store = s1 }) (unsupported_task c.task.op ∷ errs)
  offer now budgeted (some route) c rest l =
      if conflicts (scope_for c.task) l.in_flight
      then give_back now path_in_flight conflict_cleanup c rest l
      else send now budgeted route c rest l

  unfoldable pub dispatch_one : ℕ → Bool → ClaimedTask → List ClaimedTask → Loop S → Round S E
  unfolding give_back offer
  dispatch_one now fresh_exhausted c rest l =
      let budgeted = is_retry c.source && can_retry l.budget in
      if is_retry c.source && not budgeted && not fresh_exhausted
      then give_back now budget_exhausted budget_cleanup c rest l
      else offer now budgeted (route_for c.task.op) c rest l

  unfoldable pub dispatch_claimed :
      ℕ → Bool → List ClaimedTask → Loop S → Loop S × List (SchedulerError E)
  dispatch_claimed now fresh_exhausted [] l = (l, [])
  dispatch_claimed now fresh_exhausted (c ∷ rest) l =
      follow (dispatch_one now fresh_exhausted c rest l) (dispatch_claimed now fresh_exhausted rest)
