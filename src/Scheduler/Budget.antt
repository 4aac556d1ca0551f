-- ===== src/Scheduler/Budget.antt =====
-- The retry budget (scheduler.go: retryBudget). Ratio and credit are float64 numbers, with their
-- rounding; Config admits ratios from 0 to below 1.
use ferret_new.Base.{ℕ, zero, suc, ◌*◌, ◌^◌, Bool, List, [], ◌∷◌, ltb, leb, if◌then◌else◌}
use ferret_new.Base.Float64.{add, sub, one}

pub data ClaimSource : Type 0 where
  claim_fresh claim_retry unset : ClaimSource

-- The float64 next to 1e-12.
unfoldable pub retry_credit_epsilon : ℕ
retry_credit_epsilon = 4_951_760_157_141_521 * 2 ^ 982

-- The float64 next to 0.20.
unfoldable pub default_retry_claim_ratio : ℕ
default_retry_claim_ratio = 7_205_759_403_792_794 * 2 ^ 1019

pub record RetryBudget : Type 0 where
  pub ratio : ℕ
  pub credit : ℕ

unfoldable pub new_retry_budget : ℕ → RetryBudget
new_retry_budget ratio = record { ratio = ratio; credit = 0 }

-- credit + epsilon >= 1 - ratio
unfoldable pub can_retry : RetryBudget → Bool
unfolding add sub one retry_credit_epsilon
can_retry b = leb (sub one b.ratio) (add b.credit retry_credit_epsilon)

-- min(1, credit + ratio)
unfoldable pub record_fresh : RetryBudget → RetryBudget
unfolding add one
record_fresh b =
    let sum = add b.credit b.ratio in record b { credit = if ltb one sum then one else sum }

-- credit - (1 - ratio), and 0 if that is below epsilon, as a negative number is.
unfoldable pub record_retry : RetryBudget → RetryBudget
unfolding sub one retry_credit_epsilon
record_retry b =
    let rest = sub b.credit (sub one b.ratio) in
    record b { credit = if ltb rest retry_credit_epsilon then 0 else rest }

-- One round of the loop of plan: its choice, and the budget after it.
abbrev pub choose : RetryBudget → ClaimSource
choose b = if can_retry b then claim_retry else claim_fresh

abbrev pub charge : RetryBudget → RetryBudget
charge b = if can_retry b then record_retry b else record_fresh b

-- The budget is passed by value: the caller's stays as it is.
unfoldable pub plan : ℕ → RetryBudget → List ClaimSource
unfolding can_retry record_fresh record_retry
plan zero b = []
plan (suc n) b = choose b ∷ plan n (charge b)
