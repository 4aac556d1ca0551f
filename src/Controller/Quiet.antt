-- ===== src/Controller/Quiet.antt =====
-- A turn of the loop under a closed breaker serves every waiting task (controller.go: Run), and the ids
-- of a batch (controller.go: validatedTaskIDs).
use ferret_new.Controller.Closing.{snapshot-state, closed-snapshot}
use ferret_new.Controller.Stranded.{IsServed}
use ferret_new.Controller.Drained.{drain_loop-Ended, Ended, WaitingLaws}
use ferret_new.Breaker.{opened, half_open, State, closed, Snapshot}
use ferret_new.Controller.Turn.{
  reset_watch, expire_watch, drain_if_closed, waits, probe_turn, stops, drained_turn, TurnEnd,
  run_turn, Watch, wants_probe,
}
use ferret_new.Controller.{
  drain_loop, ControlError, drain_waiting, Controller, ControlConfig, snapshot, WaitingOps,
}
use ferret_new.Base.{
  if◌then◌else◌, ℕ, ◌≡◌, ◌≤◌, ◌<◌, refl, ◌∙◌, inl, inr, Bool, true, false, Option, none, some,
  if_elim,
}

wants_probe-closed :
    (snap : Snapshot) (version : ℕ) (w : Watch)
    → snap.state ≡ closed
    → wants_probe snap version w ≡ false
unfolding wants_probe
wants_probe-closed snap version w e = rw e refl

module _ {S E : Type 0} (ops : WaitingOps S E) (config : ControlConfig E) (fuel : S → ℕ)
    (laws : WaitingLaws ops) (positive : 1 ≤ config.release_batch)
    (enough : (s : S) → laws.waiting_count s < fuel s) where
  open laws use {waiting_count}

  -- If the turn goes on waiting for the next one, then no task waits.
  abbrev pub QuietTurn : Controller S × Watch × TurnEnd E → Type 0
  QuietTurn (c, w, waits) = waiting_count c.store ≡ 0
  QuietTurn (c, w, stops e) = Unit {0}

  abbrev QuietDrain : Controller S × Option (ControlError E) → Type 0
  QuietDrain (c, none) = waiting_count c.store ≡ 0
  QuietDrain (c, some e) = Unit {0}

  drain-Quiet :
      (ctx : S → Bool) (c : Controller S)
      → IsServed ops config fuel laws positive enough c
      → c.breaker.state ≡ closed
      → QuietDrain (drain_waiting ops config (fuel c.store) ctx c)
  unfolding drain_waiting
  drain-Quiet ctx c h e =
      if_elim {A = Controller S × Option (ControlError E)} QuietDrain c.drain_pending
        (λ pending. ended (drain_loop ops config (fuel c.store) ctx c) (
          drain_loop-Ended ops config laws (fuel c.store) ctx c positive h.good pending
            (enough c.store)))
        (λ idle. elim (h.unstranded e) [ inl empty ↦ empty | inr pending ↦ absurd cc ])
    where
      ended : (r : Controller S × Option (ControlError E)) → Ended ops config laws r → QuietDrain r
      ended (d, none) k = k.1
      ended (d, some err) k = tt

  -- For a store that keeps its laws, a positive release batch and fuel for every waiting task: when the
  -- controller serves its tasks and the breaker is closed, a turn of the loop leaves no task waiting,
  -- unless the turn ends the loop.
  pub run_turn-Quiet :
      (ctx : S → Bool) (now : ℕ) (w : Watch) (c : Controller S)
      → IsServed ops config fuel laws positive enough c
      → c.breaker.state ≡ closed
      → QuietTurn (run_turn ops config fuel ctx now w c)
  unfolding run_turn drained_turn probe_turn
  run_turn-Quiet ctx now w c h e =
      rest (drain_if_closed ops config fuel snap.state ctx woken) (drained snap.state still)
    where
      snap : Snapshot
      snap = (snapshot now c.breaker).1

      woken : Controller S
      woken = record c { breaker = (snapshot now c.breaker).0; wake = false }

      still : snap.state ≡ closed
      still = closed-snapshot now c.breaker e

      served : IsServed ops config fuel laws positive enough woken
      served = record { good = h.good; unstranded = λ k. h.unstranded e }

      drained : (s : State) → s ≡ closed → QuietDrain (drain_if_closed ops config fuel s ctx woken)
      drained closed k = drain-Quiet ctx woken served (snapshot-state now c.breaker ∙ still)
      drained half_open k = cc
      drained opened k = cc

      rest :
          (r : Controller S × Option (ControlError E))
          → QuietDrain r
          → QuietTurn (drained_turn ops config fuel r.1 snap ctx now w r.0)
      rest (d, some err) k = at (ctx d.store)
        where
          at : (b : Bool) → QuietTurn (d, w, if b then stops none else stops (some err))
          at true = tt
          at false = tt
      rest (d, none) k =
          if_elim {A = Controller S × Watch × TurnEnd E} QuietTurn
            (wants_probe snap d.waiter_version (expire_watch snap now (reset_watch snap.epoch w)))
            (λ probing. absurd (
              let no =
                wants_probe-closed snap d.waiter_version
                  (expire_watch snap now (reset_watch snap.epoch w)) still in
              cc))
            (λ _. k)
