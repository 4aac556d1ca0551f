-- ===== src/Scheduler/Accounting.antt =====
-- No claimed task is lost in dispatching (scheduler.go: dispatchClaimed, retryConflict,
-- refundClaimed).
use ferret_new.Scheduler.Budget.{can_retry}
use mathlib.Core.List.{Memᴰ}
use ferret_new.Base.{
  ℕ, ◌+◌, ◌≡◌, refl, ◌⊎◌, inl, inr, Bool, ◌&&◌, not, Option, none, some, List, [], ◌∷◌, ◌++◌, All,
  All-map, arith, if_elim,
}
use ferret_new.Task.{Task}
use ferret_new.Scheduler.Order.{ClaimedTask}
use ferret_new.Scheduler.Scope.{scope_for, conflicts}
use ferret_new.Scheduler.Store.{
  budget_cleanup, budget_exhausted, conflict_cleanup, path_in_flight, input_full, unsupported,
  Reason, StoreOps, SchedulerError, retry_conflict, refund_claimed,
}
use ferret_new.Scheduler.Dispatch.{
  is_retry, next_send, Route, Loop, Round, go_on, return, follow, give_back, send, offer,
  dispatch_one, dispatch_claimed, route_for, sent, full,
}

append_nil_cases : {A : Type 0} (xs ys : List A) → xs ++ ys ≡ [] → (xs ≡ []) × (ys ≡ [])
append_nil_cases [] ys h = (refl, h)
append_nil_cases (x ∷ xs) ys h = cc

nil_cases : {A : Type 0} (xs : List A) → (xs ≡ []) ⊎ ((x : A) × (ys : List A) × (xs ≡ x ∷ ys))
nil_cases [] = inl refl
nil_cases (x ∷ xs) = inr (x, xs, refl)

-- The task's lease was sent, or the task is back in the store.
abbrev pub Settled : {S : Type 0} → (ℕ → S → Type 0) → Loop S → ClaimedTask → Type 0
Settled Parked l c =
    Parked c.task.id l.store
    ⊎ ((route : Route) × Memᴰ (sent (record { task = c.task; route = route })) l.signals)

-- `Parked id s` says that the store s holds the task again: marking a task for a retry, when it
-- succeeds, parks it, and marking any task keeps the parked ones.
module _ {S E : Type 0} (ops : StoreOps S E) (conflict_delay : ℕ) (Parked : ℕ → S → Type 0)
    (parks : (id next : ℕ) (r : Reason) (s : S)
      → (ops.mark_dispatch_retry id next r s).1 ≡ none
      → Parked id (ops.mark_dispatch_retry id next r s).0)
    (keeps : (j id next : ℕ) (r : Reason) (s : S)
      → Parked j s
      → Parked j (ops.mark_dispatch_retry id next r s).0) where
  retry_conflict_keeps :
      (j : ℕ) (t : Task) (now : ℕ) (r : Reason) (s : S)
      → Parked j s
      → Parked j (retry_conflict ops conflict_delay t now r s).0
  unfolding retry_conflict
  retry_conflict_keeps j t now r s h =
      let once = keeps j t.id (now + conflict_delay) r s h in
      ground (arith, once, keeps j t.id (now + conflict_delay) r _ once)

  retry_conflict_parks :
      (t : Task) (now : ℕ) (r : Reason) (s : S)
      → (retry_conflict ops conflict_delay t now r s).1 ≡ []
      → Parked t.id (retry_conflict ops conflict_delay t now r s).0
  unfolding retry_conflict
  retry_conflict_parks t now r s h =
      let next = now + conflict_delay in
      ground
        (arith, parks t.id next r s, parks t.id next r (ops.mark_dispatch_retry t.id next r s).0)

  refund_claimed_keeps :
      (j : ℕ) (cs : List ClaimedTask) (now : ℕ) (r : Reason) (s : S)
      → Parked j s
      → Parked j (refund_claimed ops conflict_delay cs now r s).0
  unfolding refund_claimed
  refund_claimed_keeps j [] now r s h = h
  refund_claimed_keeps j (c ∷ cs) now r s h =
      refund_claimed_keeps j cs now r _ (retry_conflict_keeps j c.task now r s h)

  refund_claimed_parks :
      (cs : List ClaimedTask) (now : ℕ) (r : Reason) (s : S)
      → (refund_claimed ops conflict_delay cs now r s).1 ≡ []
      → All (λ c. Parked c.task.id (refund_claimed ops conflict_delay cs now r s).0) cs
  unfolding refund_claimed
  refund_claimed_parks [] now r s h = tt
  refund_claimed_parks (c ∷ cs) now r s h =
      let (first, later) = append_nil_cases _ _ h in
      (
        refund_claimed_keeps c.task.id cs now r _ (retry_conflict_parks c.task now r s first),
        refund_claimed_parks cs now r _ later,
      )

  abbrev SettledAfter : ClaimedTask → Round S E → Type 0
  SettledAfter d (go_on l) = Settled Parked l d
  SettledAfter d (return l errs) = Settled Parked l d

  -- A round settles its task, and one that returns with no error settles the rest as well.
  abbrev Settles : ClaimedTask → List ClaimedTask → Round S E → Type 0
  Settles c rest (go_on l) = Settled Parked l c
  Settles c rest (return l errs) = errs ≡ [] → Settled Parked l c × All (Settled Parked l) rest

  module _ (now : ℕ) where
    give_back_keeps :
        (d : ClaimedTask) (r r' : Reason) (c : ClaimedTask) (rest : List ClaimedTask) (l : Loop S)
        → Settled Parked l d
        → SettledAfter d (give_back ops conflict_delay now r r' c rest l)
    unfolding give_back
    give_back_keeps d r r' c rest l (inr leased) = ground arith
    give_back_keeps d r r' c rest l (inl parked) =
        let once = retry_conflict_keeps d.task.id c.task now r l.store parked in
        ground (arith, once, refund_claimed_keeps d.task.id rest now r' _ once)

    send_keeps :
        (d : ClaimedTask) (budgeted : Bool) (route : Route) (c : ClaimedTask)
        (rest : List ClaimedTask) (l : Loop S)
        → Settled Parked l d
        → SettledAfter d (send ops conflict_delay now budgeted route c rest l)
    unfolding send
    send_keeps d budgeted route c rest l (inr (way, leased)) =
        let more = Memᴰ.tail {x = sent (record { task = c.task; route = route })} leased in
        if_elim (SettledAfter d) (next_send l.sends) (λ _. inr (way, more))
          (λ _. inr (way, Memᴰ.tail {x = full c.task.id} leased))
    send_keeps d budgeted route c rest l (inl parked) =
        if_elim (SettledAfter d) (next_send l.sends) (λ _. inl parked)
          (λ _. inl (refund_claimed_keeps d.task.id (c ∷ rest) now input_full l.store parked))

    offer_keeps :
        (d : ClaimedTask) (budgeted : Bool) (route : Option Route) (c : ClaimedTask)
        (rest : List ClaimedTask) (l : Loop S)
        → Settled Parked l d
        → SettledAfter d (offer ops conflict_delay now budgeted route c rest l)
    unfolding offer
    offer_keeps d budgeted none c rest l (inr leased) = inr leased
    offer_keeps d budgeted none c rest l (inl parked) =
        inl (refund_claimed_keeps d.task.id (c ∷ rest) now unsupported l.store parked)
    offer_keeps d budgeted (some route) c rest l h =
        if_elim (SettledAfter d) (conflicts (scope_for c.task) l.in_flight)
          (λ _. give_back_keeps d path_in_flight conflict_cleanup c rest l h)
          (λ _. send_keeps d budgeted route c rest l h)

    dispatch_one_keeps :
        (d : ClaimedTask) (fresh_exhausted : Bool) (c : ClaimedTask) (rest : List ClaimedTask)
        (l : Loop S)
        → Settled Parked l d
        → SettledAfter d (dispatch_one ops conflict_delay now fresh_exhausted c rest l)
    unfolding dispatch_one
    dispatch_one_keeps d fresh_exhausted c rest l h =
        let budgeted = is_retry c.source && can_retry l.budget in
        if_elim (SettledAfter d) (is_retry c.source && not budgeted && not fresh_exhausted)
          (λ _. give_back_keeps d budget_exhausted budget_cleanup c rest l h)
          (λ _. offer_keeps d budgeted (route_for c.task.op) c rest l h)

    follow_keeps :
        (d : ClaimedTask) (r : Round S E) (rest : Loop S → Loop S × List (SchedulerError E))
        → SettledAfter d r
        → ((l : Loop S) → Settled Parked l d → Settled Parked (rest l).0 d)
        → Settled Parked (follow r rest).0 d
    follow_keeps d (go_on l) rest h k = k l h
    follow_keeps d (return l errs) rest h k = h

    dispatch_claimed_keeps :
        (d : ClaimedTask) (fresh_exhausted : Bool) (cs : List ClaimedTask) (l : Loop S)
        → Settled Parked l d
        → Settled Parked (dispatch_claimed ops conflict_delay now fresh_exhausted cs l).0 d
    unfolding dispatch_claimed
    dispatch_claimed_keeps d fresh_exhausted [] l h = h
    dispatch_claimed_keeps d fresh_exhausted (c ∷ rest) l h =
        follow_keeps d (dispatch_one ops conflict_delay now fresh_exhausted c rest l)
          (dispatch_claimed ops conflict_delay now fresh_exhausted rest)
          (dispatch_one_keeps d fresh_exhausted c rest l h)
          (dispatch_claimed_keeps d fresh_exhausted rest)

    give_back-Settles :
        (r r' : Reason) (c : ClaimedTask) (rest : List ClaimedTask) (l : Loop S)
        → Settles c rest (give_back ops conflict_delay now r r' c rest l)
    unfolding give_back
    give_back-Settles r r' c rest l =
        let (s1, err) = retry_conflict ops conflict_delay c.task now r l.store in
        let (s2, cleanup) = refund_claimed ops conflict_delay rest now r' s1 in
        elim (nil_cases err) [
          | inl clean ↦ rw clean (inl (retry_conflict_parks c.task now r l.store clean))
          | inr (e, es, failed) ↦ rw failed (λ h. cc)
        ]

    send-Settles :
        (budgeted : Bool) (route : Route) (c : ClaimedTask) (rest : List ClaimedTask) (l : Loop S)
        → Settles c rest (send ops conflict_delay now budgeted route c rest l)
    unfolding send
    send-Settles budgeted route c rest l =
        if_elim (Settles c rest) (next_send l.sends) (λ _. inr (route, Memᴰ.head refl))
          (λ _. λ h.
            let back = refund_claimed_parks (c ∷ rest) now input_full l.store h in
            (inl back.0, All-map _ _ (λ d k. inl k) rest back.1))

    offer-Settles :
        (budgeted : Bool) (route : Option Route) (c : ClaimedTask) (rest : List ClaimedTask)
        (l : Loop S)
        → Settles c rest (offer ops conflict_delay now budgeted route c rest l)
    unfolding offer
    offer-Settles budgeted none c rest l = λ h. cc
    offer-Settles budgeted (some route) c rest l =
        if_elim (Settles c rest) (conflicts (scope_for c.task) l.in_flight)
          (λ _. give_back-Settles path_in_flight conflict_cleanup c rest l)
          (λ _. send-Settles budgeted route c rest l)

    dispatch_one-Settles :
        (fresh_exhausted : Bool) (c : ClaimedTask) (rest : List ClaimedTask) (l : Loop S)
        → Settles c rest (dispatch_one ops conflict_delay now fresh_exhausted c rest l)
    unfolding dispatch_one
    dispatch_one-Settles fresh_exhausted c rest l =
        let budgeted = is_retry c.source && can_retry l.budget in
        if_elim (Settles c rest) (is_retry c.source && not budgeted && not fresh_exhausted)
          (λ _. give_back-Settles budget_exhausted budget_cleanup c rest l)
          (λ _. offer-Settles budgeted (route_for c.task.op) c rest l)

    followed :
        (fresh_exhausted : Bool) (c : ClaimedTask) (rest : List ClaimedTask) (r : Round S E)
        → Settles c rest r
        → ((l : Loop S)
            → (dispatch_claimed ops conflict_delay now fresh_exhausted rest l).1 ≡ []
            → All
                (Settled Parked (dispatch_claimed ops conflict_delay now fresh_exhausted rest l).0)
                rest)
        → (follow r (dispatch_claimed ops conflict_delay now fresh_exhausted rest)).1 ≡ []
        → All
            (Settled Parked
              (follow r (dispatch_claimed ops conflict_delay now fresh_exhausted rest)).0)
            (c ∷ rest)
    followed fresh_exhausted c rest (go_on l) s m e =
        (dispatch_claimed_keeps c fresh_exhausted rest l s, m l e)
    followed fresh_exhausted c rest (return l errs) s m e = s e

    -- A batch whose dispatch returns no error is settled.
    pub dispatch_claimed_settles :
        (fresh_exhausted : Bool) (cs : List ClaimedTask) (l : Loop S)
        → (dispatch_claimed ops conflict_delay now fresh_exhausted cs l).1 ≡ []
        → All (Settled Parked (dispatch_claimed ops conflict_delay now fresh_exhausted cs l).0) cs
    unfolding dispatch_claimed
    dispatch_claimed_settles fresh_exhausted [] l h = tt
    dispatch_claimed_settles fresh_exhausted (c ∷ rest) l h =
        followed fresh_exhausted c rest
          (dispatch_one ops conflict_delay now fresh_exhausted c rest l)
          (dispatch_one-Settles fresh_exhausted c rest l)
          (dispatch_claimed_settles fresh_exhausted rest) h
