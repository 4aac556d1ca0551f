-- ===== src/Scheduler/Turns.antt =====
-- Over all turns of the scheduler's loop, tasks whose paths overlap are never in flight at once
-- (scheduler.go: Run).
use ferret_new.Scheduler.Claim.{claim_ready, is_empty, ClaimedBatch}
use ferret_new.Scheduler.Exclusion.{
  outstanding, AreDisjoint, completed-IsSafe, IsSafe-disjoint, dispatch_claimed-IsSafe, NoOverlap,
  IsSafe,
}
use ferret_new.Scheduler.Store.{SchedulerError, StoreOps}
use ferret_new.Base.{
  false, if◌then◌else◌, arith, not, [], none, ltb, ◌∷◌, some, if_elim, Option, List,
}
use ferret_new.Scheduler.Run.{
  tick, wake, cancel, Inputs, loop_of, resume, turn, released, claim_turn, after_claim, complete,
  stopped, Running, Event, running, begin, run, select, Turn, Config,
}

abbrev TurnSafe : {S E : Type 0} → Turn S E → Type 0
TurnSafe (running r) = IsSafe r.loop
TurnSafe (stopped l errs) = IsSafe l

select-TurnSafe :
    {S : Type 0} (E : Type 0) (e : Event) (r : Running S)
    → IsSafe r.loop
    → TurnSafe {E = E} (select e r)
unfolding select
select-TurnSafe E cancel r h = h
select-TurnSafe E wake r h = h
select-TurnSafe E tick r h = h
select-TurnSafe E (complete id) r h = completed-IsSafe id r.loop.in_flight r.loop.signals h

module _ {S E : Type 0} (ops : StoreOps S E) (c : Config) where
  after_claim-TurnSafe :
      (i : Inputs) (batch : ClaimedBatch) (err : List (SchedulerError E)) (r : Running S)
      → IsSafe r.loop
      → TurnSafe (after_claim ops c i batch err r)
  unfolding after_claim
  after_claim-TurnSafe i batch err r h =
      let selected = select-TurnSafe E i.event r h in
      let dispatched =
        dispatch_claimed-IsSafe ops c.conflict_delay i.dispatch_now batch.fresh_exhausted
          batch.tasks (record r.loop { sends = i.sends }) h in
      if_elim (TurnSafe {S = S} {E = E}) (not (is_empty err)) (λ _. h)
        (λ _.
          if_elim (TurnSafe {S = S} {E = E}) (is_empty batch.tasks) (λ _. selected)
            (λ _. ground (arith, dispatched)))

  claim_turn-TurnSafe :
      (i : Inputs) (r : Running S) → IsSafe r.loop → TurnSafe (claim_turn ops c i r)
  unfolding claim_turn
  claim_turn-TurnSafe i r h =
      let limit = if ltb i.available c.batch_size then i.available else c.batch_size in
      let (s, batch, err) =
        claim_ready ops c.conflict_delay limit i.claim_now r.loop.budget r.loop.store in
      if_elim (TurnSafe {S = S} {E = E}) (ltb 0 i.available)
        (λ _. after_claim-TurnSafe i batch err (record r { loop = record r.loop { store = s } }) h)
        (λ _. select-TurnSafe E i.event r h)

  released-TurnSafe :
      (o : Option E) (i : Inputs) (r : Running S) → IsSafe r.loop → TurnSafe (released ops c o i r)
  unfolding released
  released-TurnSafe none i r h = claim_turn-TurnSafe i (record r { release_due = false }) h
  released-TurnSafe (some e) i r h = h

  turn-TurnSafe : (i : Inputs) (r : Running S) → IsSafe r.loop → TurnSafe (turn ops c i r)
  unfolding turn
  turn-TurnSafe i r h =
      let (s, err) = ops.release_retry_wait i.release_now c.retry_release_limit r.loop.store in
      if_elim (TurnSafe {S = S} {E = E}) r.release_due
        (λ _. released-TurnSafe err i (record r { loop = record r.loop { store = s } }) h)
        (λ _. claim_turn-TurnSafe i r h)

resume-TurnSafe :
    {S E : Type 0} (t : Turn S E) (later : Running S → Turn S E)
    → TurnSafe t
    → ((r : Running S) → IsSafe r.loop → TurnSafe (later r))
    → TurnSafe (resume t later)
resume-TurnSafe (running r) later h k = k r h
resume-TurnSafe (stopped l errs) later h k = h

run-TurnSafe :
    {S E : Type 0} (ops : StoreOps S E) (c : Config) (is : List Inputs) (r : Running S)
    → IsSafe r.loop
    → TurnSafe (run ops c is r)
unfolding run
run-TurnSafe ops c [] r h = h
run-TurnSafe ops c (i ∷ is) r h =
    resume-TurnSafe (turn ops c i r) (run ops c is) (turn-TurnSafe ops c i r h)
      (run-TurnSafe ops c is)

TurnSafe-loop_of : {S E : Type 0} (t : Turn S E) → TurnSafe t → IsSafe (loop_of t)
TurnSafe-loop_of (running r) h = h
TurnSafe-loop_of (stopped l errs) h = h

-- Whatever the store answers, and whatever clocks, wake-ups, completions and channel room the turns
-- of a fresh scheduler meet, no two tasks in the loop's map have overlapping scopes, and neither have
-- two tasks whose leases are out: a lease is out from when it is sent until its completion is received,
-- another lease of the same task is sent, or one of the same task finds the channel full.
pub run-NoOverlap :
    {S E : Type 0} (ops : StoreOps S E) (c : Config) (is : List Inputs) (s : S)
    → let l = loop_of (run ops c is (begin c s)) in
      NoOverlap l.in_flight × AreDisjoint (outstanding l.signals)
unfolding begin
run-NoOverlap ops c is s =
    let l = loop_of (run ops c is (begin c s)) in
    let safe =
      TurnSafe-loop_of (run ops c is (begin c s)) (run-TurnSafe ops c is (begin c s) (tt, tt)) in
    (safe.0, IsSafe-disjoint l safe)
