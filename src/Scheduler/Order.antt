-- ===== src/Scheduler/Order.antt =====
-- The order of a claimed batch (scheduler.go: claimedTask, orderClaimed).
pub mod Complete
use ferret_new.Base.{ℕ, List, [], ◌∷◌, ◌++◌, map}
use ferret_new.Task.{Task}
use ferret_new.Scheduler.Budget.{ClaimSource, claim_fresh, claim_retry, unset}

pub record ClaimedTask : Type 0 where
  pub task : Task
  pub source : ClaimSource

abbrev pub claimed_from : ClaimSource → Task → ClaimedTask
claimed_from s t = record { task = t; source = s }

-- The two indices into fresh and retries are what is left of the lists.
unfoldable pub order_claimed : List ClaimSource → List Task → List Task → List ClaimedTask
order_claimed [] fresh retries =
    map (claimed_from claim_fresh) fresh ++ map (claimed_from claim_retry) retries
order_claimed (claim_fresh ∷ plan) (f ∷ fresh) retries =
    claimed_from claim_fresh f ∷ order_claimed plan fresh retries
order_claimed (claim_fresh ∷ plan) [] (r ∷ retries) =
    claimed_from claim_retry r ∷ order_claimed plan [] retries
order_claimed (claim_fresh ∷ plan) [] [] = order_claimed plan [] []
order_claimed (claim_retry ∷ plan) fresh (r ∷ retries) =
    claimed_from claim_retry r ∷ order_claimed plan fresh retries
order_claimed (claim_retry ∷ plan) (f ∷ fresh) [] =
    claimed_from claim_fresh f ∷ order_claimed plan fresh []
order_claimed (claim_retry ∷ plan) [] [] = order_claimed plan [] []
order_claimed (unset ∷ plan) fresh retries = order_claimed plan fresh retries
