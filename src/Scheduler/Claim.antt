-- ===== src/Scheduler/Claim.antt =====
-- Claiming a batch (scheduler.go: claimReady, claimSource, claimedBatch).
pub mod Bound
use ferret_new.Base.{
  take, drop, ℕ, zero, suc, ◌+◌, ◌-◌, Bool, true, false, ◌&&◌, ◌||◌, not, List, [], ◌∷◌, ◌++◌, map,
  length, ltb, leb, ◌==◌, if◌then◌else◌,
}
use ferret_new.Task.{Task}
use ferret_new.Scheduler.Budget.{ClaimSource, claim_fresh, claim_retry, unset, RetryBudget, plan}
use ferret_new.Scheduler.Order.{ClaimedTask, order_claimed}
use ferret_new.Scheduler.Store.{
  Reason, fresh_source_cleanup, retry_source_cleanup, fallback_cleanup, exceeded_batch, StoreOps,
  SchedulerError, store_error, invalid_config, refund_store_tasks,
}

pub record ClaimedBatch : Type 0 where
  pub tasks : List ClaimedTask
  pub fresh_exhausted : Bool

abbrev empty_batch : ClaimedBatch
empty_batch = record { tasks = []; fresh_exhausted = false }

abbrev pub is_empty {ℓ} : {A : Type ℓ} → List A → Bool
is_empty [] = true
is_empty (x ∷ xs) = false

-- How many entries of a plan are fresh.
abbrev fresh_target : List ClaimSource → ℕ
fresh_target [] = 0
fresh_target (claim_fresh ∷ p) = suc (fresh_target p)
fresh_target (_ ∷ p) = fresh_target p

module _ {S E : Type 0} (ops : StoreOps S E) (conflict_delay : ℕ) where
  -- What the store hands back beyond the limit is refunded.
  unfoldable pub keep_within :
      ℕ → ℕ → S × List Task × List E → S × List Task × List (SchedulerError E)
  keep_within limit now (s, tasks, errs) =
      let (s1, cleanup) =
        refund_store_tasks ops conflict_delay (drop limit tasks) now exceeded_batch s in
      if not (is_empty errs) || leb (length tasks) limit
      then (s, tasks, map store_error errs)
      else (s1, take limit tasks, cleanup)

  unfoldable pub claim_source : ClaimSource → ℕ → ℕ → S → S × List Task × List (SchedulerError E)
  unfolding keep_within
  claim_source source zero now s = (s, [], [])
  claim_source claim_fresh (suc n) now s = keep_within (suc n) now (ops.claim_fresh (suc n) now s)
  claim_source claim_retry (suc n) now s = keep_within (suc n) now (ops.claim_retry (suc n) now s)
  claim_source unset (suc n) now s = (s, [], invalid_config ∷ [])

  -- The end of claimReady: a second claim of fresh work where room is left and fresh work may be.
  unfoldable pub claim_extra :
      List ClaimSource
      → ℕ
      → ℕ
      → Bool
      → List Task
      → List Task
      → S
      → S × ClaimedBatch × List (SchedulerError E)
  unfolding claim_source
  claim_extra p limit now fresh_exhausted fresh retries s =
      let remaining = limit - length fresh - length retries in
      let (s1, extra, err) = claim_source claim_fresh remaining now s in
      let (s2, cleanup) =
        refund_store_tasks ops conflict_delay (fresh ++ (retries ++ extra)) now fallback_cleanup
          s1 in
      if not (ltb 0 remaining && not fresh_exhausted)
      then (
        s,
        record { tasks = order_claimed p fresh retries; fresh_exhausted = fresh_exhausted },
        [],
      )
      else if not (is_empty err)
      then (s2, empty_batch, err ++ cleanup)
      else (
        s1,
        record {
          tasks = order_claimed p (fresh ++ extra) retries;
          fresh_exhausted = ltb (length extra) remaining;
        },
        [],
      )

  unfoldable pub claim_retries :
      List ClaimSource → ℕ → ℕ → ℕ → List Task → S → S × ClaimedBatch × List (SchedulerError E)
  unfolding claim_source claim_extra
  claim_retries p target limit now fresh s =
      let retry_target = length p - target + (target - length fresh) in
      let (s1, retries, err) = claim_source claim_retry retry_target now s in
      let (s2, cleanup) =
        refund_store_tasks ops conflict_delay (fresh ++ retries) now retry_source_cleanup s1 in
      if not (is_empty err)
      then (s2, empty_batch, err ++ cleanup)
      else claim_extra p limit now (ltb (length fresh) target) fresh retries s1

  unfoldable pub claim_ready : ℕ → ℕ → RetryBudget → S → S × ClaimedBatch × List (SchedulerError E)
  unfolding claim_source claim_retries
  claim_ready limit now budget s =
      let p = plan limit budget in
      let target = fresh_target p in
      let (s1, fresh, err) = claim_source claim_fresh target now s in
      let (s2, cleanup) = refund_store_tasks ops conflict_delay fresh now fresh_source_cleanup s1 in
      if not (is_empty err)
      then (s2, empty_batch, err ++ cleanup)
      else claim_retries p target limit now fresh s1
