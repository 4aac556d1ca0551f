-- ===== src/Controller/Served.antt =====
-- Any sequence of calls of the controller and turns of its loop serves the waiting tasks
-- (controller.go: AcquireBatch, ParkBatch, BatchCall, UnboundCall, Run).
use ferret_new.Controller.Closing.{
  snapshot-state, allow-closed, snapshot-closed, with_half_open_idle-cases,
}
use Prim.Native.Nat.{zero}
use ferret_new.Controller.Stranded.{
  drain-IsServed, conclude_unbound-IsServed, breaker-IsServed, abort_batch-IsServed,
  finish_batch-IsServed, park-IsServed, acquire_batch-IsServed, IsServed,
}
use ferret_new.Breaker.{opened, half_open, State, snapshot, Snapshot, closed, allow, Permit}
use ferret_new.Controller.Turn.{
  wants_probe, reset_watch, expire_watch, drain_if_closed, probe_turn, drained_turn, TurnEnd,
  run_turn, Watch, after_probe, release_probe,
}
use ferret_new.Controller.Drained.{Takes, WaitingLaws}
use ferret_new.Controller.Calls.{park, BatchCall, acquire_batch}
use ferret_new.Controller.Permits.{verdict_of, conclude_unbound, abort_batch, finish_batch}
use ferret_new.Controller.{
  ControlError, new_controller, is_bad_release, release_error, pos, released, ℤ, Breaker, Released,
  notify_released, Controller, ControlConfig, Cause, WaitingOps,
}
use ferret_new.Base.Int.{ℤ, pos, negsuc}
use ferret_new.Base.{
  suc, ℕ, ◌≡◌, ◌≤◌, ◌<◌, refl, sym, ◌∙◌, inl, inr, arith, Bool, false, Option, none, some, List, [],
  ◌∷◌, if_elim,
}

-- A call, with the time of the clock last. The permit of a call may be any: one that was finished
-- before, or that is of an older epoch.
pub data ControlCall (S E : Type 0) : Type 0 where
  acquires : (S → Bool) → List ℕ → ℕ → ControlCall S E
  parks_tasks : (S → Bool) → List ℕ → Option (Cause E) → ℕ → ControlCall S E
  finishes_batch : (S → Bool) → Option E → BatchCall E → ℕ → ControlCall S E
  aborts_batch : BatchCall E → ℕ → ControlCall S E
  acquires_unbound : ℕ → ControlCall S E
  finishes_unbound : (S → Bool) → Option E → Permit → ℕ → ControlCall S E
  turns : (S → Bool) → Watch → ℕ → ControlCall S E

module _ {S E : Type 0} (ops : WaitingOps S E) (config : ControlConfig E) (fuel : S → ℕ) where
  unfoldable pub control_step : ControlCall S E → Controller S → Controller S
  control_step (acquires ctx ids now) c = (acquire_batch ops config fuel ctx ids now c).0
  control_step (parks_tasks ctx ids cause now) c = (park ops config fuel ctx ids cause now c).0
  control_step (finishes_batch ctx cause call now) c =
      (finish_batch ops config fuel ctx cause now call c).1
  control_step (aborts_batch call now) c = (abort_batch ops config fuel now call c).1
  control_step (acquires_unbound now) c = record c { breaker = (allow now c.breaker).0 }
  control_step (finishes_unbound ctx cause p now) c =
      (conclude_unbound ops config fuel (verdict_of ops config fuel ctx cause c.store) ctx cause now
        p c).1.0
  control_step (turns ctx w now) c = (run_turn ops config fuel ctx now w c).0

  unfoldable pub control_run : List (ControlCall S E) → Controller S → Controller S
  control_run [] c = c
  control_run (call ∷ calls) c = control_run calls (control_step call c)

module _ {S E : Type 0} (ops : WaitingOps S E) (config : ControlConfig E) (fuel : S → ℕ)
    (laws : WaitingLaws ops) (positive : 1 ≤ config.release_batch)
    (enough : (s : S) → laws.waiting_count s < fuel s) where
  open laws use {IsGood, waiting_count, released-IsGood, released-Takes}

  notify_released-IsServed :
      (z : ℤ) (c : Controller S)
      → IsServed ops config fuel laws positive enough c
      → IsServed ops config fuel laws positive enough (notify_released z c)
  unfolding notify_released
  notify_released-IsServed (pos zero) c h = h
  notify_released-IsServed (pos (suc n)) c h = record { good = h.good; unstranded = h.unstranded }
  notify_released-IsServed (negsuc n) c h = h

  after_probe-IsServed :
      (r : Option (Released E)) (ctx : S → Bool) (now : ℕ) (w : Watch) (c : Controller S)
      → IsServed ops config fuel laws positive enough c
      → IsServed ops config fuel laws positive enough (after_probe ops config fuel r ctx now w c).0
  unfolding after_probe
  after_probe-IsServed none ctx now w c h = h
  after_probe-IsServed (some (release_error e)) ctx now w c h = h
  after_probe-IsServed (some (released n)) ctx now w c h =
      if_elim {A = Controller S × Watch × TurnEnd E}
        (λ r. IsServed ops config fuel laws positive enough r.0) (is_bad_release 1 n) (λ _. h)
        (λ _. notify_released-IsServed n c h)

  Takes-empty :
      (limit before after : ℕ) (r : Released E)
      → Takes limit before after r
      → before ≡ 0
      → after ≡ 0
  Takes-empty limit before after (released (pos n)) k e = omega (arith, k.0, e)
  Takes-empty limit before after (released (negsuc n)) k e = absurd k
  Takes-empty limit before after (release_error err) k e = sym k ∙ e

  released_store-IsServed :
      (b : Breaker) (c : Controller S)
      → IsServed ops config fuel laws positive enough c
      → (b.state ≡ closed → c.breaker.state ≡ closed)
      → IsServed ops config fuel laws positive enough
          (record c { breaker = b; store = (ops.release_waiting_dep 1 c.store).0 })
  released_store-IsServed b c h k = record {
    good = released-IsGood 1 c.store h.good;
    unstranded = λ e. elim (h.unstranded (k e)) [
      | inl empty ↦ inl (
          Takes-empty 1 (waiting_count c.store) _ (ops.release_waiting_dep 1 c.store).1
            (released-Takes 1 c.store (omega arith) h.good) empty)
      | inr pending ↦ inr pending
    ];
  }

  release_probe-IsServed :
      (snap : Snapshot) (ctx : S → Bool) (now : ℕ) (w : Watch) (c : Controller S)
      → IsServed ops config fuel laws positive enough c
      → IsServed ops config fuel laws positive enough
          (release_probe ops config fuel snap ctx now w c).0
  unfolding release_probe after_probe
  release_probe-IsServed snap ctx now w c h =
      with_half_open_idle-cases
        (λ r.
          IsServed ops config fuel laws positive enough
            (after_probe ops config fuel r.2 ctx now w (record c { breaker = r.0; store = r.1 })).0)
        now snap.epoch (ops.release_waiting_dep 1) c.breaker c.store
        (λ b k. breaker-IsServed ops config fuel laws positive enough b c h k)
        (λ b k.
          after_probe-IsServed (some (ops.release_waiting_dep 1 c.store).1) ctx now w _
            (released_store-IsServed b c h k))

  run_turn-IsServed :
      (ctx : S → Bool) (now : ℕ) (w : Watch) (c : Controller S)
      → IsServed ops config fuel laws positive enough c
      → IsServed ops config fuel laws positive enough (run_turn ops config fuel ctx now w c).0
  unfolding run_turn drained_turn probe_turn
  run_turn-IsServed ctx now w c h =
      rest (drain_if_closed ops config fuel snap.state ctx woken).1
        (drain_if_closed ops config fuel snap.state ctx woken).0 (drained snap.state)
    where
      snap : Snapshot
      snap = (snapshot now c.breaker).1

      woken : Controller S
      woken = record c { breaker = (snapshot now c.breaker).0; wake = false }

      served : IsServed ops config fuel laws positive enough woken
      served = record {
        good = h.good;
        unstranded = λ e.
            h.unstranded (snapshot-closed now c.breaker (sym (snapshot-state now c.breaker) ∙ e));
      }

      drained :
          (s : State)
          → IsServed ops config fuel laws positive enough
              (drain_if_closed ops config fuel s ctx woken).0
      drained closed = drain-IsServed ops config fuel laws positive enough ctx woken served
      drained half_open = served
      drained opened = served

      rest :
          (r : Option (ControlError E)) (d : Controller S)
          → IsServed ops config fuel laws positive enough d
          → IsServed ops config fuel laws positive enough
              (drained_turn ops config fuel r snap ctx now w d).0
      rest (some e) d k = k
      rest none d k =
          let w' = expire_watch snap now (reset_watch snap.epoch w) in
          if_elim {A = Controller S × Watch × TurnEnd E}
            (λ r. IsServed ops config fuel laws positive enough r.0)
            (wants_probe snap d.waiter_version w') (λ _. release_probe-IsServed snap ctx now w' d k)
            (λ _. k)

  control_step-IsServed :
      (call : ControlCall S E) (c : Controller S)
      → IsServed ops config fuel laws positive enough c
      → IsServed ops config fuel laws positive enough (control_step ops config fuel call c)
  unfolding control_step
  control_step-IsServed (acquires ctx ids now) c h =
      acquire_batch-IsServed ops config fuel laws positive enough ctx ids now c h
  control_step-IsServed (parks_tasks ctx ids cause now) c h =
      park-IsServed ops config fuel laws positive enough ctx ids cause now c h
  control_step-IsServed (finishes_batch ctx cause call now) c h =
      finish_batch-IsServed ops config fuel laws positive enough ctx cause now call c h
  control_step-IsServed (aborts_batch call now) c h =
      abort_batch-IsServed ops config fuel laws positive enough now call c h
  control_step-IsServed (acquires_unbound now) c h =
      breaker-IsServed ops config fuel laws positive enough (allow now c.breaker).0 c h
        (allow-closed now c.breaker)
  control_step-IsServed (finishes_unbound ctx cause p now) c h =
      conclude_unbound-IsServed ops config fuel laws positive enough _ ctx cause now p c h
  control_step-IsServed (turns ctx w now) c h = run_turn-IsServed ctx now w c h

  -- For a store that keeps its laws, a positive release batch and fuel for every waiting task: after any
  -- sequence of acquisitions, parkings, completions, aborts and turns of the loop, by any permits, of a
  -- new controller, nothing waits while the breaker is closed, or a drain is pending.
  pub control_run-IsServed :
      (calls : List (ControlCall S E)) (s : S) (b : Breaker)
      → IsGood s
      → IsServed ops config fuel laws positive enough
          (control_run ops config fuel calls (new_controller s b))
  unfolding new_controller control_run
  control_run-IsServed calls s b good =
      many calls (new_controller s b) (record { good = good; unstranded = λ e. inr refl })
    where
      many :
          (cs : List (ControlCall S E)) (c : Controller S)
          → IsServed ops config fuel laws positive enough c
          → IsServed ops config fuel laws positive enough (control_run ops config fuel cs c)
      many [] c h = h
      many (call ∷ cs) c h =
          many cs (control_step ops config fuel call c) (control_step-IsServed call c h)
