-- ===== src/Breaker.antt =====
-- The circuit breaker, packages/index-node/internal/pipeline/embed/breaker.go. A method on *Breaker
-- returns the new record. The clock is the argument `now`, in nanoseconds since the zero time, and
-- additions of durations to times do not overflow. Locks are not modelled: every method holds the
-- mutex from its first read to its last write, so a call is one step. A method calls the observer of
-- Config.OnTransition after it has released the mutex; that call is not part of the step, and not
-- modelled. The record keeps a list of the transitions that were made under the mutex, newest first,
-- which the code does not have.
pub mod System
pub mod Invariant
pub mod Probe
pub mod Trip
pub mod Diagram
mod Tests
use ferret_new.Base.{
  ℕ, ◌+◌, Bool, true, false, not, ◌&&◌, ◌||◌, Option, none, some, List, [], ◌∷◌, ltb, leb, ◌==◌,
  if◌then◌else◌, u64,
}
use ferret_new.Base.Int.{ℤ, is_nonpos, is_neg, to_nat, pos}

pub data State : Type 0 where
  closed half_open opened : State

pub data Completion : Type 0 where
  success failure abort : Completion

pub data BreakerError : Type 0 where
  err_open err_probe_in_flight err_invalid_config : BreakerError

abbrev pub is_opened : State → Bool
is_opened opened = true
is_opened _ = false

abbrev pub is_half_open : State → Bool
is_half_open half_open = true
is_half_open _ = false

abbrev pub state_eq : State → State → Bool
state_eq closed closed = true
state_eq half_open half_open = true
state_eq opened opened = true
state_eq _ _ = false

-- breaker_state gauge: closed=0, half-open=1, open=2
unfoldable pub metric_value : State → ℕ
metric_value closed = 0
metric_value half_open = 1
metric_value opened = 2

pub record Transition : Type 0 where
  pub from : State
  pub to : State
  pub changed : Bool
  pub accepted : Bool

-- Clock and IsFailure have defaults in the code; `on_transition` says whether there is an observer.
pub record Config : Type 0 where
  pub failures : ℤ
  pub open_for : ℤ
  pub release_batch : ℤ
  pub on_transition : Bool

pub record Breaker : Type 0 where
  pub failures : ℕ
  pub open_for : ℕ
  pub on_transition : Bool
  pub state : State
  pub consecutive_failures : ℕ
  pub open_until : ℕ
  pub probe_in_flight : Bool
  pub epoch : ℕ  -- uint64
  pub transitions : List Transition

abbrev pub default_release_batch : ℕ
default_release_batch = 1000

abbrev is_zero : ℤ → Bool
is_zero z = is_nonpos z && not (is_neg z)

unfoldable pub normalize_config : Config → Option Config
normalize_config c =
    if is_nonpos c.failures
    then none
    else if is_nonpos c.open_for
    then none
    else if is_zero c.release_batch
    then some (record c { release_batch = pos default_release_batch })
    else if is_neg c.release_batch
    then none
    else some c

unfoldable pub breaker_of : Config → Breaker
breaker_of c = record {
  failures = to_nat c.failures;
  open_for = to_nat c.open_for;
  on_transition = c.on_transition;
  state = closed;
  consecutive_failures = 0;
  open_until = 0;
  probe_in_flight = false;
  epoch = 0;
  transitions = [];
}

unfoldable pub new_breaker : Config → Option Breaker
unfolding normalize_config breaker_of
new_breaker c = elim (normalize_config c) [ none ↦ none | some n ↦ some (breaker_of n) ]

-- A transition of nothing.
abbrev pub stay : State → Transition
stay s = record { from = s; to = s; changed = false; accepted = false }

-- A transition that changes the state is added to the list of those made.
unfoldable pub made : Transition → Breaker → Breaker
made t b = if t.changed then record b { transitions = t ∷ b.transitions } else b

unfoldable pub open_locked : ℕ → Breaker → Breaker
open_locked now b = record b {
  state = opened;
  open_until = now + b.open_for;
  probe_in_flight = false;
  epoch = u64 (b.epoch + 1);
}

unfoldable pub advance_locked : ℕ → Breaker → Breaker × Transition
advance_locked now b =
    if not (is_opened b.state) || ltb now b.open_until then (b, stay b.state) else (
      record b { state = half_open; probe_in_flight = false; epoch = u64 (b.epoch + 1) },
      record { from = b.state; to = half_open; changed = true; accepted = true },
    )

-- An admitted call. `finished` is the permit's sync.Once, `transition` what its first finish gave.
pub record Permit : Type 0 where
  pub epoch : ℕ
  pub probe : Bool
  pub finished : Bool
  pub transition : Transition

unfoldable pub new_permit : ℕ → Bool → Permit
new_permit e p = record { epoch = e; probe = p; finished = false; transition = stay closed }

pub data Admission : Type 0 where
  admitted : Permit → Admission
  refused : BreakerError → Admission

-- The switch of Allow.
unfoldable pub admit : State → Breaker → Breaker × Admission
unfolding new_permit
admit closed b = (b, admitted (new_permit b.epoch false))
admit opened b = (b, refused err_open)
admit half_open b =
    if b.probe_in_flight
    then (b, refused err_probe_in_flight)
    else (record b { probe_in_flight = true }, admitted (new_permit b.epoch true))

unfoldable pub allow : ℕ → Breaker → Breaker × Admission
unfolding advance_locked admit made
allow now b =
    let (b', t) = advance_locked now b in let (b'', r) = admit b'.state b' in (made t b'', r)

pub record Snapshot : Type 0 where
  pub state : State
  pub consecutive_failures : ℕ
  pub open_until : ℕ
  pub probe_in_flight : Bool
  pub epoch : ℕ

unfoldable pub snapshot : ℕ → Breaker → Breaker × Snapshot
unfolding advance_locked made
snapshot now b =
    let (b', t) = advance_locked now b in
    (
      made t b',
      record {
        state = b'.state;
        consecutive_failures = b'.consecutive_failures;
        open_until = b'.open_until;
        probe_in_flight = b'.probe_in_flight;
        epoch = b'.epoch;
      },
    )

-- withHalfOpenIdle. The callback `release` acts on a store `W`; it does not touch the breaker.
unfoldable pub with_half_open_idle {ℓ κ} :
    {W : Type ℓ} {R : Type κ} → ℕ → ℕ → (W → W × R) → Breaker → W → Breaker × W × Option R
unfolding advance_locked made
with_half_open_idle now epoch release b w =
    let (b', t) = advance_locked now b in
    if not (is_half_open b'.state) || not (b'.epoch == epoch) || b'.probe_in_flight
    then (made t b', w, none)
    else (made t b', (release w).0, some (release w).1)

-- What a completion in the closed state does to the counters.
unfoldable pub closed_result : Completion → ℕ → Breaker → Breaker
unfolding open_locked
closed_result success now b = record b { consecutive_failures = 0 }
closed_result failure now b =
    let b' = record b { consecutive_failures = b.consecutive_failures + 1 } in
    if leb b'.failures b'.consecutive_failures then open_locked now b' else b'
closed_result abort now b = b

unfoldable pub half_open_result : Completion → ℕ → Breaker → Breaker
unfolding open_locked
half_open_result success now b = record b {
  state = closed;
  consecutive_failures = 0;
  open_until = 0;
  probe_in_flight = false;
  epoch = u64 (b.epoch + 1);
}
half_open_result _ now b = open_locked now b

-- The end of complete, once the completion was accepted.
unfoldable pub settle : State → Breaker → Breaker × Transition
unfolding made
settle from b =
    let t : Transition = record {
      from = from;
      to = b.state;
      changed = not (state_eq from b.state);
      accepted = true;
    } in
    (made t b, t)

-- The switch of complete on the breaker's state.
unfoldable pub complete_in : State → Bool → Completion → ℕ → Breaker → Breaker × Transition
unfolding settle closed_result half_open_result
complete_in closed probe result now b =
    if probe then (b, stay closed) else settle closed (closed_result result now b)
complete_in half_open probe result now b =
    if not probe || not b.probe_in_flight
    then (b, stay half_open)
    else settle half_open (half_open_result result now b)
complete_in opened probe result now b = (b, stay opened)

unfoldable pub complete : ℕ → Bool → Completion → ℕ → Breaker → Breaker × Transition
unfolding complete_in
complete epoch probe result now b =
    if epoch == b.epoch then complete_in b.state probe result now b else (b, stay b.state)

-- Permit.finish, and so Success, Failure and Abort. A nil permit gives the zero transition.
unfoldable pub finish_once : Completion → ℕ → Permit → Breaker → Permit × Breaker
unfolding complete
finish_once result now p b =
    let (b', t) = complete p.epoch p.probe result now b in
    if p.finished then (p, b) else (record p { finished = true; transition = t }, b')

unfoldable pub finish :
    Completion → ℕ → Option Permit → Breaker → Option Permit × Breaker × Transition
unfolding finish_once
finish result now none b = (none, b, stay closed)
finish result now (some p) b =
    let (p', b') = finish_once result now p b in (some p', b', p'.transition)
