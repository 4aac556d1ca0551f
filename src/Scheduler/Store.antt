-- ===== src/Scheduler/Store.antt =====
-- The scheduler's view of the durable queue (scheduler.go: Store, retryConflict, refundClaimed,
-- refundStoreTasks). The store is a parameter: its state S, its errors E and its operations. The
-- context's cancellation is read from S as well, since it may change during any call. Errors that
-- the code joins are a list, and nil is the empty one.
use ferret_new.Base.{
  ℕ, ◌+◌, Bool, true, false, ◌&&◌, Option, none, some, List, [], ◌∷◌, ◌++◌, map, if◌then◌else◌,
}
use ferret_new.Task.{Task, TaskOp}
use ferret_new.Scheduler.Budget.{unset}
use ferret_new.Scheduler.Order.{ClaimedTask, claimed_from}

-- The texts that the code stores as a task's last error.
pub data Reason : Type 0 where
  fresh_source_cleanup retry_source_cleanup fallback_cleanup exceeded_batch : Reason
  budget_exhausted budget_cleanup unsupported conflict_cleanup path_in_flight input_full : Reason

pub record StoreOps (S E : Type 0) : Type 0 where
  pub claim_fresh : ℕ → ℕ → S → S × List Task × List E
  pub claim_retry : ℕ → ℕ → S → S × List Task × List E
  pub mark_dispatch_retry : ℕ → ℕ → Reason → S → S × Option E
  pub release_retry_wait : ℕ → ℕ → S → S × Option E
  pub cancelled : S → Bool

pub data SchedulerError (E : Type 0) : Type 0 where
  store_error : E → SchedulerError E
  retry_task : ℕ → E → SchedulerError E
  unsupported_task : TaskOp → SchedulerError E
  invalid_config : SchedulerError E

abbrev is_error {ℓ} : {E : Type ℓ} → Option E → Bool
is_error none = false
is_error (some e) = true

module _ {S E : Type 0} (ops : StoreOps S E) (conflict_delay : ℕ) where
  -- The error of retryConflict, wrapped.
  abbrev wrap_retry : ℕ → Option E → List (SchedulerError E)
  wrap_retry id none = []
  wrap_retry id (some e) = retry_task id e ∷ []

  -- A failure under a cancelled context is tried once more.
  unfoldable pub retry_conflict : Task → ℕ → Reason → S → S × List (SchedulerError E)
  retry_conflict task now reason s =
      let next = now + conflict_delay in
      let (s1, err) = ops.mark_dispatch_retry task.id next reason s in
      let (s2, err2) = ops.mark_dispatch_retry task.id next reason s1 in
      if is_error err && ops.cancelled s1
      then (s2, wrap_retry task.id err2)
      else (s1, wrap_retry task.id err)

  unfoldable pub refund_claimed : List ClaimedTask → ℕ → Reason → S → S × List (SchedulerError E)
  refund_claimed [] now reason s = (s, [])
  refund_claimed (c ∷ cs) now reason s =
      let (s1, errs) = retry_conflict c.task now reason s in
      let (s2, more) = refund_claimed cs now reason s1 in (s2, errs ++ more)

  unfoldable pub refund_store_tasks : List Task → ℕ → Reason → S → S × List (SchedulerError E)
  refund_store_tasks tasks now reason s =
      refund_claimed (map (claimed_from unset) tasks) now reason s
