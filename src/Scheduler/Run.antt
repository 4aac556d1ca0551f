-- ===== src/Scheduler/Run.antt =====
-- The scheduler's loop (scheduler.go: Run), one turn at a time. A turn is given what the environment
-- decides: the clock at its three readings, the room in the output channel, which sends find room,
-- and which case of the select is taken when the turn gets there.
use ferret_new.Base.{
  ℕ, Bool, true, false, not, Option, none, some, List, [], ◌∷◌, if◌then◌else◌, ltb,
}
use ferret_new.Scheduler.Budget.{new_retry_budget}
use ferret_new.Scheduler.Store.{StoreOps, SchedulerError, store_error}
use ferret_new.Scheduler.Claim.{ClaimedBatch, claim_ready, is_empty}
use ferret_new.Scheduler.Dispatch.{completed, Loop, delete, dispatch_claimed}

pub data Event : Type 0 where
  cancel wake tick : Event
  complete : ℕ → Event

pub record Inputs : Type 0 where
  pub release_now : ℕ
  pub claim_now : ℕ
  pub dispatch_now : ℕ
  pub available : ℕ
  pub sends : List Bool
  pub event : Event

-- The ratio is a float64.
pub record Config : Type 0 where
  pub batch_size : ℕ
  pub retry_release_limit : ℕ
  pub retry_budget_ratio : ℕ
  pub conflict_delay : ℕ

pub record Running (S : Type 0) : Type 0 where
  pub loop : Loop S
  pub release_due : Bool

-- Run goes on, or returns with an error or with nil.
pub data Turn (S E : Type 0) : Type 0 where
  running : Running S → Turn S E
  stopped : Loop S → List (SchedulerError E) → Turn S E

unfoldable pub begin : {S : Type 0} → Config → S → Running S
unfolding new_retry_budget
begin c s = record {
  loop = record {
    store = s;
    in_flight = [];
    budget = new_retry_budget c.retry_budget_ratio;
    sends = [];
    signals = [];
  };
  release_due = true;
}

-- The select at the end of a turn.
unfoldable pub select : {S E : Type 0} → Event → Running S → Turn S E
select cancel r = stopped r.loop []
select wake r = running r
select tick r = running (record r { release_due = true })
select (complete id) r = running (record r {
  loop = record r.loop {
    in_flight = delete id r.loop.in_flight;
    signals = completed id ∷ r.loop.signals;
  };
})

-- The turns after one.
abbrev pub resume : {S E : Type 0} → Turn S E → (Running S → Turn S E) → Turn S E
resume (running r) later = later r
resume (stopped l errs) later = stopped l errs

module _ {S E : Type 0} (ops : StoreOps S E) (c : Config) where
  -- What follows a claim.
  unfoldable pub after_claim :
      Inputs → ClaimedBatch → List (SchedulerError E) → Running S → Turn S E
  unfolding select
  after_claim i batch err r =
      let (l, errs) =
        dispatch_claimed ops c.conflict_delay i.dispatch_now batch.fresh_exhausted batch.tasks
          (record r.loop { sends = i.sends }) in
      if not (is_empty err)
      then stopped r.loop (if ops.cancelled r.loop.store then [] else err)
      else if is_empty batch.tasks
      then select i.event r
      else if not (is_empty errs)
      then stopped l errs
      else running (record r { loop = l })

  unfoldable pub claim_turn : Inputs → Running S → Turn S E
  unfolding after_claim
  claim_turn i r =
      let limit = if ltb i.available c.batch_size then i.available else c.batch_size in
      let (s, batch, err) =
        claim_ready ops c.conflict_delay limit i.claim_now r.loop.budget r.loop.store in
      if ltb 0 i.available
      then after_claim i batch err (record r { loop = record r.loop { store = s } })
      else select i.event r

  -- After the release of due retries.
  unfoldable pub released : Option E → Inputs → Running S → Turn S E
  unfolding claim_turn
  released none i r = claim_turn i (record r { release_due = false })
  released (some e) i r =
      stopped r.loop (if ops.cancelled r.loop.store then [] else store_error e ∷ [])

  unfoldable pub turn : Inputs → Running S → Turn S E
  unfolding released claim_turn
  turn i r =
      let (s, err) = ops.release_retry_wait i.release_now c.retry_release_limit r.loop.store in
      if r.release_due
      then released err i (record r { loop = record r.loop { store = s } })
      else claim_turn i r

  unfoldable pub run : List Inputs → Running S → Turn S E
  run [] r = running r
  run (i ∷ is) r = resume (turn i r) (run is)

abbrev pub loop_of : {S E : Type 0} → Turn S E → Loop S
loop_of (running r) = r.loop
loop_of (stopped l errs) = l
