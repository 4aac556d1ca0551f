-- ===== src/Scheduler/Claim/Bound.antt =====
-- A claimed batch fits the room that was asked for (scheduler.go: claimReady, claimSource).
use ferret_new.Base.{
  ◌&&◌, ltb, not, true, if_elim, Bool, take, ap, ℕ, zero, suc, ◌+◌, ◌-◌, ◌≤◌, ◌≡◌, refl, List, [],
  ◌∷◌, ◌++◌, map, length, length-append, arith,
}
use ferret_new.Task.{Task}
use ferret_new.Scheduler.Budget.{
  unset, unset, unset, claim_retry, claim_retry, charge, claim_retry, claim_fresh, ClaimSource,
  RetryBudget, plan,
}
use ferret_new.Scheduler.Order.{claimed_from, order_claimed}
use ferret_new.Scheduler.Store.{StoreOps, SchedulerError}
use ferret_new.Scheduler.Claim.{
  is_empty, ClaimedBatch, keep_within, fresh_target, claim_source, claim_extra, claim_retries,
  claim_ready,
}

length-map {ℓ κ} :
    {A : Type ℓ} {B : Type κ} (f : A → B) (xs : List A) → length (map f xs) ≡ length xs
length-map f [] = refl
length-map f (x ∷ xs) = ap suc (length-map f xs)

length-take-le {ℓ} : {A : Type ℓ} (n : ℕ) (xs : List A) → length (take n xs) ≤ n
length-take-le zero xs = omega arith
length-take-le (suc n) [] = omega arith
length-take-le (suc n) (x ∷ xs) = omega (arith, length-take-le n xs)

is_empty-nil {ℓ} : {A : Type ℓ} (xs : List A) → is_empty xs ≡ true → xs ≡ []
is_empty-nil [] h = refl
is_empty-nil (x ∷ xs) h = cc

length-order_claimed :
    (p : List ClaimSource) (fresh retries : List Task)
    → length (order_claimed p fresh retries) ≡ length fresh + length retries
unfolding order_claimed
length-order_claimed [] fresh retries = omega (
  arith,
  length-append (map (claimed_from claim_fresh) fresh) (map (claimed_from claim_retry) retries),
  length-map (claimed_from claim_fresh) fresh,
  length-map (claimed_from claim_retry) retries,
)
length-order_claimed (claim_fresh ∷ p) (f ∷ fresh) retries =
    omega (arith, length-order_claimed p fresh retries)
length-order_claimed (claim_fresh ∷ p) [] (r ∷ retries) =
    omega (arith, length-order_claimed p [] retries)
length-order_claimed (claim_fresh ∷ p) [] [] = length-order_claimed p [] []
length-order_claimed (claim_retry ∷ p) fresh (r ∷ retries) =
    omega (arith, length-order_claimed p fresh retries)
length-order_claimed (claim_retry ∷ p) (f ∷ fresh) [] =
    omega (arith, length-order_claimed p fresh [])
length-order_claimed (claim_retry ∷ p) [] [] = length-order_claimed p [] []
length-order_claimed (unset ∷ p) fresh retries = length-order_claimed p fresh retries

length-plan : (n : ℕ) (b : RetryBudget) → length (plan n b) ≡ n
unfolding plan
length-plan zero b = refl
length-plan (suc n) b = ap suc (length-plan n (charge b))

fresh_target-le : (p : List ClaimSource) → fresh_target p ≤ length p
fresh_target-le [] = omega arith
fresh_target-le (claim_fresh ∷ p) = omega (arith, fresh_target-le p)
fresh_target-le (claim_retry ∷ p) = omega (arith, fresh_target-le p)
fresh_target-le (unset ∷ p) = omega (arith, fresh_target-le p)

module _ {S E : Type 0} (ops : StoreOps S E) (conflict_delay now : ℕ) where
  keep_within-le :
      (limit : ℕ) (r : S × List Task × List E)
      → (keep_within ops conflict_delay limit now r).2 ≡ []
      → length (keep_within ops conflict_delay limit now r).1 ≤ limit
  unfolding keep_within
  keep_within-le limit (s, tasks, []) h = ground (arith, length-take-le limit tasks)
  keep_within-le limit (s, tasks, e ∷ errs) h = cc

  claim_source-le :
      (source : ClaimSource) (limit : ℕ) (s : S)
      → (claim_source ops conflict_delay source limit now s).2 ≡ []
      → length (claim_source ops conflict_delay source limit now s).1 ≤ limit
  unfolding claim_source
  claim_source-le source zero s h = omega arith
  claim_source-le claim_fresh (suc n) s h = keep_within-le (suc n) _ h
  claim_source-le claim_retry (suc n) s h = keep_within-le (suc n) _ h
  claim_source-le unset (suc n) s h = omega arith

  abbrev tasks_of : S × ClaimedBatch × List (SchedulerError E) → ℕ
  tasks_of r = length r.1.tasks

  claim_extra-le :
      (p : List ClaimSource) (limit : ℕ) (x : Bool) (fresh retries : List Task) (s : S)
      → length fresh + length retries ≤ limit
      → tasks_of (claim_extra ops conflict_delay p limit now x fresh retries s) ≤ limit
  unfolding claim_extra
  claim_extra-le p limit x fresh retries s h =
      let remaining = limit - length fresh - length retries in
      let (s1, extra, err) = claim_source ops conflict_delay claim_fresh remaining now s in
      if_elim (λ (r : S × ClaimedBatch × List (SchedulerError E)). tasks_of r ≤ limit)
        (not (ltb 0 remaining && not x)) (λ _. omega (arith, length-order_claimed p fresh retries))
        (λ _.
          if_elim (λ (r : S × ClaimedBatch × List (SchedulerError E)). tasks_of r ≤ limit)
            (not (is_empty err)) (λ _. omega arith)
            (λ clean. omega (
              arith,
              length-order_claimed p (fresh ++ extra) retries,
              length-append fresh extra,
              claim_source-le claim_fresh remaining s (is_empty-nil err (ground arith)),
            )))

  claim_retries-le :
      (p : List ClaimSource) (target limit : ℕ) (fresh : List Task) (s : S)
      → length p ≡ limit
      → target ≤ limit
      → length fresh ≤ target
      → tasks_of (claim_retries ops conflict_delay p target limit now fresh s) ≤ limit
  unfolding claim_retries
  claim_retries-le p target limit fresh s e t h =
      let retry_target = length p - target + (target - length fresh) in
      let (s1, retries, err) = claim_source ops conflict_delay claim_retry retry_target now s in
      if_elim (λ (r : S × ClaimedBatch × List (SchedulerError E)). tasks_of r ≤ limit)
        (not (is_empty err)) (λ _. omega arith)
        (λ clean. claim_extra-le p limit (ltb (length fresh) target) fresh retries s1 (
          omega
            (arith, claim_source-le claim_retry retry_target s (is_empty-nil err (ground arith)))))

  -- A claim never returns more tasks than were asked for, also when the store hands back more, and
  -- whichever source borrows the room that the other leaves.
  pub claim_ready-le :
      (limit : ℕ) (budget : RetryBudget) (s : S)
      → length (claim_ready ops conflict_delay limit now budget s).1.tasks ≤ limit
  unfolding claim_ready
  claim_ready-le limit budget s =
      let p = plan limit budget in
      let target = fresh_target p in
      let (s1, fresh, err) = claim_source ops conflict_delay claim_fresh target now s in
      let short = fresh_target-le p in
      if_elim (λ (r : S × ClaimedBatch × List (SchedulerError E)). tasks_of r ≤ limit)
        (not (is_empty err)) (λ _. omega arith)
        (λ clean.
          claim_retries-le p target limit fresh s1 (length-plan limit budget)
            (omega (arith, length-plan limit budget))
            (claim_source-le claim_fresh target s (is_empty-nil err (ground arith))))
