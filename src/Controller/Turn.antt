-- ===== src/Controller/Turn.antt =====
-- The loop of Run (controller.go: Run), one turn for each expiry of its timer and each token of the
-- wake channel. A turn gives up, with an error or none, or waits again.
use ferret_new.Controller.{
  notify_released, bad_release, is_bad_release, released, release_failed, drain_waiting,
  release_error, Controller, Released, ControlConfig, ControlError, WaitingOps,
}
use ferret_new.Base.{
  ◌-◌, ℕ, ◌+◌, Bool, true, false, not, ◌&&◌, ◌||◌, Option, none, some, ltb, leb, ◌==◌,
  if◌then◌else◌,
}
use ferret_new.Base.Int.{to_nat}
use ferret_new.Breaker.{
  State, closed, half_open, opened, is_half_open, Snapshot, snapshot, with_half_open_idle,
}

-- The variables of the loop.
pub record Watch : Type 0 where
  pub probe_epoch : ℕ
  pub released_probe : Bool
  pub attempted_waiter_version : ℕ
  pub probe_dispatch_deadline : ℕ
  pub watchdog_expired : Bool

abbrev pub new_watch : ℕ → Watch
new_watch epoch = record {
  probe_epoch = epoch;
  released_probe = false;
  attempted_waiter_version = 0;
  probe_dispatch_deadline = 0;
  watchdog_expired = false;
}

-- How a turn ends: it waits, or it stops.
pub data TurnEnd (E : Type 0) : Type 0 where
  waits : TurnEnd E
  stops : Option (ControlError E) → TurnEnd E

-- A new epoch starts over.
unfoldable pub reset_watch : ℕ → Watch → Watch
reset_watch epoch w = if epoch == w.probe_epoch then w else new_watch epoch

abbrev is_idle_half_open : Snapshot → Bool
is_idle_half_open snap = is_half_open snap.state && not snap.probe_in_flight

-- The watchdog of a released probe.
unfoldable pub expire_watch : Snapshot → ℕ → Watch → Watch
expire_watch snap now w =
    if is_idle_half_open snap && (w.released_probe && leb w.probe_dispatch_deadline now)
    then record w { released_probe = false; watchdog_expired = true }
    else w

-- A probe candidate is to be released.
unfoldable pub wants_probe : Snapshot → ℕ → Watch → Bool
wants_probe snap version w =
    is_idle_half_open snap
    && (not w.released_probe && (w.watchdog_expired || not (w.attempted_waiter_version == version)))

module _ {S E : Type 0} (ops : WaitingOps S E) (config : ControlConfig E) (fuel : S → ℕ) where
  -- An error under a cancelled context is no error.
  abbrev pub stop_with : (S → Bool) → ControlError E → S → TurnEnd E
  stop_with ctx e s = if ctx s then stops none else stops (some e)

  -- What withHalfOpenIdle returned.
  unfoldable pub after_probe :
      Option (Released E) → (S → Bool) → ℕ → Watch → Controller S → Controller S × Watch × TurnEnd E
  after_probe none ctx now w c = (c, w, waits)
  after_probe (some (release_error e)) ctx now w c =
      (c, w, stop_with ctx (release_failed e) c.store)
  after_probe (some (released n)) ctx now w c =
      if is_bad_release 1 n then (c, w, stops (some (bad_release n))) else (
        notify_released n c,
        record w {
          attempted_waiter_version = c.waiter_version;
          watchdog_expired = false;
          released_probe = ltb 0 (to_nat n);
          probe_dispatch_deadline =
              if ltb 0 (to_nat n) then now + config.open_for else w.probe_dispatch_deadline;
        },
        waits,
      )

  unfoldable pub release_probe :
      Snapshot → (S → Bool) → ℕ → Watch → Controller S → Controller S × Watch × TurnEnd E
  release_probe snap ctx now w c =
      let (b, s, r) =
        with_half_open_idle now snap.epoch (ops.release_waiting_dep 1) c.breaker c.store in
      after_probe r ctx now w (record c { breaker = b; store = s })

  -- The turn after its drain.
  unfoldable pub probe_turn :
      Snapshot → (S → Bool) → ℕ → Watch → Controller S → Controller S × Watch × TurnEnd E
  probe_turn snap ctx now w c =
      let w' = expire_watch snap now (reset_watch snap.epoch w) in
      if wants_probe snap c.waiter_version w'
      then release_probe snap ctx now w' c
      else (c, w', waits)

  unfoldable pub drained_turn :
      Option (ControlError E)
      → Snapshot
      → (S → Bool)
      → ℕ
      → Watch
      → Controller S
      → Controller S × Watch × TurnEnd E
  drained_turn (some e) snap ctx now w c = (c, w, stop_with ctx e c.store)
  drained_turn none snap ctx now w c = probe_turn snap ctx now w c

  abbrev pub drain_if_closed :
      State → (S → Bool) → Controller S → Controller S × Option (ControlError E)
  drain_if_closed closed ctx c = drain_waiting ops config (fuel c.store) ctx c
  drain_if_closed _ ctx c = (c, none)

  -- One turn of Run, up to its select; the token that woke it is taken first.
  unfoldable pub run_turn : (S → Bool) → ℕ → Watch → Controller S → Controller S × Watch × TurnEnd E
  run_turn ctx now w c =
      let (b, snap) = snapshot now c.breaker in
      let (c', e) = drain_if_closed snap.state ctx (record c { breaker = b; wake = false }) in
      drained_turn e snap ctx now w c'

  -- The delay of the timer, if it is set.
  unfoldable pub timer_delay : Snapshot → ℕ → Watch → Option ℕ
  timer_delay snap now w = delay_in snap.state
    where
      delay_in : State → Option ℕ
      delay_in opened = some (snap.open_until - now)
      delay_in half_open =
          if not snap.probe_in_flight && w.released_probe
          then some (w.probe_dispatch_deadline - now)
          else none
      delay_in closed = none
