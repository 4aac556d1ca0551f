-- ===== src/Controller.antt =====
-- The controller that couples the breaker to the tasks that wait for the compute node,
-- packages/index-node/internal/pipeline/embed/controller.go. The waiting store is a parameter: its state
-- S, its errors E and its operations. A context is the test whether it is done, on the state, since it
-- may be cancelled during any call. A call is one step, with the time of the clock as an argument.

pub mod Calls
pub mod Permits
pub mod Turn
pub mod Drained
pub mod Closing
pub mod Stranded
pub mod Served
pub mod Quiet
pub mod Queue
mod Tests
use Prim.Native.Nat.{zero}
use ferret_new.Base.{
  suc, ℕ, ◌+◌, Bool, true, false, not, ◌&&◌, ◌||◌, Option, none, some, List, [], ◌∷◌, ltb, ◌==◌,
  if◌then◌else◌, u64, any,
}
use ferret_new.Base.Int.{ℤ, pos, is_neg, to_nat}
use ferret_new.Breaker.{State, closed, Breaker, BreakerError, err_open, Transition, snapshot}

-- Why tasks are parked: the breaker refused the call, or the call failed.
pub data Cause (E : Type 0) : Type 0 where
  refusal : BreakerError → Cause E
  failed_call : E → Cause E

-- What ReleaseWaitingDep returns.
pub data Released (E : Type 0) : Type 0 where
  released : ℤ → Released E
  release_error : E → Released E

-- WaitingStore, and WaitingBatchStore if the store implements it. The reason is the text of the cause.
pub record WaitingOps (S E : Type 0) : Type 0 where
  pub mark_waiting_dep : ℕ → Cause E → S → S × Option E
  pub mark_waiting_dep_batch : Option (List ℕ → Cause E → S → S × Option E)
  pub release_waiting_dep : ℕ → S → S × Released E

-- The errors of the controller; the last is that of a drain that runs out of fuel.
pub data ControlError (E : Type 0) : Type 0 where
  waiting : List ℕ → Option (Cause E) → ControlError E
  park_failed : List ℕ → E → ControlError E
  no_batch_parking invalid_task_id context_done nil_call : ControlError E
  release_failed : E → ControlError E
  bad_release : ℤ → ControlError E
  dependency : E → ControlError E
  breaker_refused : BreakerError → ControlError E
  drain_unfinished : ControlError E

pub record Controller (S : Type 0) : Type 0 where
  pub store : S
  pub breaker : Breaker
  pub wake : Bool  -- the channel holds a token
  pub waiter_version : ℕ  -- uint64
  pub drain_pending : Bool
  pub notified : ℕ  -- calls of Config.Notify

-- What the controller reads of its configuration.
pub record ControlConfig (E : Type 0) : Type 0 where
  pub release_batch : ℕ
  pub open_for : ℕ
  pub is_failure : E → Bool

abbrev pub is_closed : State → Bool
is_closed closed = true
is_closed _ = false

-- The limit bounds what a release may report.
abbrev pub is_bad_release : ℕ → ℤ → Bool
is_bad_release limit n = is_neg n || ltb limit (to_nat n)

module _ {S : Type 0} where
  -- NewController, from a fresh breaker; a drain is pending since an earlier process may have left
  -- waiting rows.
  unfoldable pub new_controller : S → Breaker → Controller S
  new_controller s b = record {
    store = s;
    breaker = b;
    wake = false;
    waiter_version = 0;
    drain_pending = true;
    notified = 0;
  }

  unfoldable pub signal : Controller S → Controller S
  signal c = record c { wake = true }

  unfoldable pub request_drain : Controller S → Controller S
  request_drain c = record c { drain_pending = true; wake = true }

  unfoldable pub after_transition : Transition → Controller S → Controller S
  unfolding request_drain signal
  after_transition t c =
      if not t.changed then c else signal (if is_closed t.to then request_drain c else c)

  unfoldable pub notify_released : ℤ → Controller S → Controller S
  notify_released (pos (suc n)) c = record c { notified = c.notified + 1 }
  notify_released _ c = c

  -- Breaker.State
  unfoldable pub breaker_state : ℕ → Controller S → Controller S × State
  breaker_state now c =
      let (b, snap) = snapshot now c.breaker in (record c { breaker = b }, snap.state)

module _ {S E : Type 0} (ops : WaitingOps S E) (config : ControlConfig E) where
  -- The body of the loop after a release; `again` is the loop itself.
  unfoldable pub drain_step :
      (Controller S → Controller S × Option (ControlError E))
      → Released E
      → Controller S
      → Controller S × Option (ControlError E)
  drain_step again (release_error e) c = (c, some (release_failed e))
  drain_step again (released n) c =
      if is_bad_release config.release_batch n
      then (c, some (bad_release n))
      else if ltb (to_nat n) config.release_batch
      then (record (notify_released n c) { drain_pending = false }, none)
      else again (notify_released n c)

  unfoldable pub drain_loop : ℕ → (S → Bool) → Controller S → Controller S × Option (ControlError E)
  drain_loop zero ctx c = (c, some drain_unfinished)
  drain_loop (suc fuel) ctx c =
      if ctx c.store
      then (c, some context_done)
      else (let (s, r) = ops.release_waiting_dep config.release_batch c.store in
          drain_step (drain_loop fuel ctx) r (record c { store = s }))

  -- drainWaiting
  unfoldable pub drain_waiting :
      ℕ → (S → Bool) → Controller S → Controller S × Option (ControlError E)
  drain_waiting fuel ctx c = if c.drain_pending then drain_loop fuel ctx c else (c, none)
