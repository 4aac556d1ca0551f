-- ===== src/Scheduler/Order/Complete.antt =====
-- An ordered batch holds the claimed tasks of both sources (scheduler.go: orderClaimed).
use ferret_new.Base.{ap, ◌≡◌, refl, List, [], ◌∷◌, ◌++◌, map}
use ferret_new.Task.{Task}
use ferret_new.Scheduler.Budget.{ClaimSource, claim_fresh, claim_retry, unset}
use ferret_new.Scheduler.Order.{ClaimedTask, claimed_from, order_claimed}

abbrev pub fresh_in : List ClaimedTask → List Task
fresh_in [] = []
fresh_in (c ∷ cs) = elim c.source [ claim_fresh ↦ c.task ∷ fresh_in cs | _ ↦ fresh_in cs ]

abbrev pub retried_in : List ClaimedTask → List Task
retried_in [] = []
retried_in (c ∷ cs) = elim c.source [ claim_retry ↦ c.task ∷ retried_in cs | _ ↦ retried_in cs ]

rest_fresh :
    (fresh retries : List Task)
    → fresh_in (map (claimed_from claim_fresh) fresh ++ map (claimed_from claim_retry) retries)
      ≡ fresh
rest_fresh [] [] = refl
rest_fresh [] (r ∷ retries) = rest_fresh [] retries
rest_fresh (f ∷ fresh) retries = ap (◌∷◌ f) (rest_fresh fresh retries)

rest_retried :
    (fresh retries : List Task)
    → retried_in (map (claimed_from claim_fresh) fresh ++ map (claimed_from claim_retry) retries)
      ≡ retries
rest_retried [] [] = refl
rest_retried [] (r ∷ retries) = ap (◌∷◌ r) (rest_retried [] retries)
rest_retried (f ∷ fresh) retries = rest_retried fresh retries

-- Whatever the plan, the ordered batch holds each claimed task once: its fresh tasks are those that
-- were claimed as fresh, in their order, and its retries those that were claimed as retries.
pub order_claimed_complete :
    (plan : List ClaimSource) (fresh retries : List Task)
    → (fresh_in (order_claimed plan fresh retries) ≡ fresh)
      × (retried_in (order_claimed plan fresh retries) ≡ retries)
unfolding order_claimed
order_claimed_complete [] fresh retries = (rest_fresh fresh retries, rest_retried fresh retries)
order_claimed_complete (claim_fresh ∷ plan) (f ∷ fresh) retries =
    let (a, b) = order_claimed_complete plan fresh retries in (ap (◌∷◌ f) a, b)
order_claimed_complete (claim_fresh ∷ plan) [] (r ∷ retries) =
    let (a, b) = order_claimed_complete plan [] retries in (a, ap (◌∷◌ r) b)
order_claimed_complete (claim_fresh ∷ plan) [] [] = order_claimed_complete plan [] []
order_claimed_complete (claim_retry ∷ plan) fresh (r ∷ retries) =
    let (a, b) = order_claimed_complete plan fresh retries in (a, ap (◌∷◌ r) b)
order_claimed_complete (claim_retry ∷ plan) (f ∷ fresh) [] =
    let (a, b) = order_claimed_complete plan fresh [] in (ap (◌∷◌ f) a, b)
order_claimed_complete (claim_retry ∷ plan) [] [] = order_claimed_complete plan [] []
order_claimed_complete (unset ∷ plan) fresh retries = order_claimed_complete plan fresh retries
