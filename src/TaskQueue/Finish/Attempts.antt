-- ===== src/TaskQueue/Finish/Attempts.antt =====
-- What the transitions charge to a task's attempts (taskqueue.go: claim, markRetry,
-- MarkWaitingDepBatch, releaseToPending).
use ferret_new.Base.{ℕ, zero, suc, ◌+◌, ◌-◌, ◌≤◌, ◌≡◌, refl, arith, true, false}
use ferret_new.Base.Bytes.{Text}
use ferret_new.Task.{Task, History}
use ferret_new.TaskQueue.Finish.{park_row, retry_row}
use ferret_new.TaskQueue.Claim.{claim_row}
use ferret_new.TaskQueue.Release.{released_row}

-- A claimed task after it was parked, released and claimed again a number of times.
unfoldable pub outages : ℕ → Text → ℕ → Task → Task
outages zero last_error now t = t
outages (suc n) last_error now t =
    claim_row now (released_row now (park_row last_error now (outages n last_error now t)))

free_lease :
    (n : ℕ) (last_error : Text) (now : ℕ) (t : Task)
    → ((outages (suc n) last_error now t).attempts ≡ t.attempts - t.claim_attempt_charge)
      × ((outages (suc n) last_error now t).claim_attempt_charge ≡ 0)
unfolding outages claim_row park_row
free_lease zero last_error now t = (omega arith, refl)
free_lease (suc n) last_error now t =
    let (same, free) = free_lease n last_error now t in (omega arith, refl)

-- However often a dependency fails, a parked task has the attempts that it had before the lease in
-- which the dependency first failed; the leases after that are free; and if such a free lease ends in a
-- real failure, that failure is one attempt.
pub outages_free :
    (n : ℕ) (last_error : Text) (now next : ℕ) (h : History × History) (t : Task)
    → ((park_row last_error now (outages n last_error now t)).attempts
        ≡ t.attempts - t.claim_attempt_charge)
      × ((outages (suc n) last_error now t).attempts ≡ t.attempts - t.claim_attempt_charge)
      × ((retry_row false next last_error h now (outages (suc n) last_error now t)).attempts
          ≡ (t.attempts - t.claim_attempt_charge) + 1)
      × ((retry_row false next last_error h now
            (outages (suc n) last_error now t)).claim_attempt_charge
          ≡ 1)
unfolding park_row retry_row outages
outages_free zero last_error now next h t =
    let (same, free) = free_lease 0 last_error now t in (refl, same, omega arith, refl)
outages_free (suc n) last_error now next h t =
    let (before, free_before) = free_lease n last_error now t in
    let (same, free) = free_lease (suc n) last_error now t in (omega arith, same, omega arith, refl)

-- A claim that is given back without being dispatched costs nothing: the attempts and the charge are
-- those before the claim. A claim that ends in a failure costs one attempt, charged by the claim or, for
-- a free lease, by the failure, if the charge of the task is at most 1.
pub claim_cost :
    (next now : ℕ) (last_error : Text) (h : History × History) (t : Task)
    → t.claim_attempt_charge ≤ 1
    → ((retry_row true next last_error h now (claim_row now t)).attempts ≡ t.attempts)
      × ((retry_row true next last_error h now (claim_row now t)).claim_attempt_charge
          ≡ t.claim_attempt_charge)
      × ((retry_row false next last_error h now (claim_row now t)).attempts ≡ t.attempts + 1)
unfolding retry_row claim_row
claim_cost next now last_error h t binary = (omega arith, refl, omega arith)
