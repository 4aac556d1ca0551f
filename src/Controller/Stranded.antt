-- ===== src/Controller/Stranded.antt =====
-- No task waits behind a closed breaker without a pending drain (controller.go: requestDrain,
-- afterTransition, parkBatch, BatchCall.finish, UnboundCall.finish, Run).
use ferret_new.Controller.Closing.{finish_once-Closes, Closes, allow-closed, snapshot-state}
use ferret_new.Breaker.{
  refused, admitted, Admission, success, allow, failure, finish_once, opened, abort, Permit,
  Completion, half_open,
}
use ferret_new.Controller.Calls.{
  validated_task_ids, answer, failed, park_checked, admit_batch, Answer, acquire_checked, BatchCall,
  park, acquire_batch, reason_of, or_waiting, mark_waiting, parked, park_batch, redrive,
}
use ferret_new.Controller.Permits.{
  reachable, reachable, unhealthy, unhealthy, relinquish, relinquish, Verdict, abort_batch,
  finish_batch, conclude_unbound, conclude, or_dependency, complete_permit,
}
use ferret_new.Controller.Drained.{
  BatchParks, drain_loop-Ended, Parks, Ended, drain_waiting-Ended, WaitingLaws,
}
use ferret_new.Controller.{
  is_closed, refusal, Transition, snapshot, after_transition, drain_loop, park_failed,
  breaker_state, Cause, State, request_drain, ControlError, closed, Breaker, signal, drain_waiting,
  Controller, ControlConfig, WaitingOps,
}
use ferret_new.Base.{
  ◌+◌, u64, if◌then◌else◌, ℕ, ◌≡◌, ◌≤◌, ◌<◌, refl, ◌⊎◌, inl, inr, Bool, true, Option, none, some,
  List, [], ◌∷◌, if_elim, Bool-cases,
}

module _ {S E : Type 0} (ops : WaitingOps S E) (config : ControlConfig E) (fuel : S → ℕ)
    (laws : WaitingLaws ops) (positive : 1 ≤ config.release_batch)
    (enough : (s : S) → laws.waiting_count s < fuel s) where
  open laws use {
    IsGood, waiting_count, released-IsGood, released-Takes, marked-IsGood, batched-IsGood,
  }

  -- While the breaker is closed, nothing waits, or a drain is pending.
  pub record IsServed (c : Controller S) : Type 0 where
    pub good : IsGood c.store
    pub unstranded :
        c.breaker.state ≡ closed → (waiting_count c.store ≡ 0) ⊎ (c.drain_pending ≡ true)

  Ended-IsServed :
      (r : Controller S × Option (ControlError E)) → Ended ops config laws r → IsServed r.0
  Ended-IsServed (c, none) (good, empty, done) = record { good = good; unstranded = λ e. inl empty }
  Ended-IsServed (c, some err) (good, other, pending) = record {
    good = good;
    unstranded = λ e. inr pending;
  }

  pub drain-IsServed :
      (ctx : S → Bool) (c : Controller S)
      → IsServed c
      → IsServed (drain_waiting ops config (fuel c.store) ctx c).0
  unfolding drain_waiting
  drain-IsServed ctx c h =
      if_elim {A = Controller S × Option (ControlError E)} (λ r. IsServed r.0) c.drain_pending
        (λ pending. Ended-IsServed (drain_loop ops config (fuel c.store) ctx c) (
          drain_loop-Ended ops config laws (fuel c.store) ctx c positive h.good pending
            (enough c.store)))
        (λ _. h)

  signal-IsServed : (c : Controller S) → IsServed c → IsServed (signal c)
  unfolding signal
  signal-IsServed c h = record { good = h.good; unstranded = h.unstranded }

  -- The breaker after a step that closed nothing.
  pub breaker-IsServed :
      (b : Breaker) (c : Controller S)
      → IsServed c
      → (b.state ≡ closed → c.breaker.state ≡ closed)
      → IsServed (record c { breaker = b })
  breaker-IsServed b c h k = record { good = h.good; unstranded = λ e. h.unstranded (k e) }

  redrive-IsServed :
      (s : State) (ctx : S → Bool) (ids : List ℕ) (cause : Option (Cause E)) (c : Controller S)
      → IsGood c.store
      → c.breaker.state ≡ s
      → IsServed (redrive ops config fuel s ctx ids cause c).0
  unfolding redrive request_drain
  redrive-IsServed closed ctx ids cause c good e =
      at (drain_waiting ops config (fuel c.store) ctx (request_drain c)) (
        drain_waiting-Ended ops config laws (fuel c.store) ctx (request_drain c) positive good refl
          (enough c.store))
    where
      at :
          (r : Controller S × Option (ControlError E))
          → Ended ops config laws r
          → IsServed (or_waiting ops config fuel ids cause r).0
      at (d, none) k = Ended-IsServed (d, none) k
      at (d, some err) k = Ended-IsServed (d, some err) k
  redrive-IsServed half_open ctx ids cause c good e = record { good = good; unstranded = λ k. cc }
  redrive-IsServed opened ctx ids cause c good e = record { good = good; unstranded = λ k. cc }

  park_batch-IsServed :
      (ctx : S → Bool) (ids : List ℕ) (cause : Option (Cause E)) (now : ℕ) (c : Controller S)
      → IsServed c
      → IsServed (park_batch ops config fuel ctx ids cause now c).0
  unfolding park_batch parked mark_waiting breaker_state signal
  park_batch-IsServed ctx ids cause now c h =
      at
        (mark_waiting ops config fuel ops.mark_waiting_dep_batch ids
          (reason_of ops config fuel cause) c.store)
        (marks ops.mark_waiting_dep_batch batched-IsGood ids)
    where
      Marked : S × Option (ControlError E) → Type 0
      Marked (s, none) = IsGood s
      Marked (s, some e) = IsGood s × (waiting_count s ≡ waiting_count c.store)

      wrap :
          (js : List ℕ) (r : S × Option E)
          → Parks IsGood (waiting_count c.store) waiting_count r
          → Marked (r.0, elim r.1 [ none ↦ none | some e ↦ some (park_failed js e) ])
      wrap js (s, none) k = k
      wrap js (s, some e) k = k

      marks :
          (o : Option (List ℕ → Cause E → S → S × Option E))
          → BatchParks IsGood waiting_count o
          → (js : List ℕ)
          → Marked (mark_waiting ops config fuel o js (reason_of ops config fuel cause) c.store)
      marks (some batch) e js = wrap js _ (e js (reason_of ops config fuel cause) c.store h.good)
      marks none e [] = (h.good, refl)
      marks none e (id ∷ []) =
          wrap (id ∷ []) _ (marked-IsGood id (reason_of ops config fuel cause) c.store h.good)
      marks none e (id ∷ (j ∷ js)) = (h.good, refl)

      at :
          (r : S × Option (ControlError E))
          → Marked r
          → IsServed (parked ops config fuel r.1 ctx ids cause now (record c { store = r.0 })).0
      at (s, some e) (good, same) = record {
        good = good;
        unstranded = λ k. rw same (h.unstranded k);
      }
      at (s, none) good =
          redrive-IsServed (snapshot now c.breaker).1.state ctx ids cause
            (record c {
              store = s;
              breaker = (snapshot now c.breaker).0;
              wake = true;
              waiter_version = u64 (c.waiter_version + 1);
            })
            good (snapshot-state now c.breaker)

  after_transition-IsServed :
      (t : Transition) (b : Breaker) (c : Controller S)
      → IsServed c
      → Closes c.breaker (b, t)
      → IsServed (after_transition t (record c { breaker = b }))
  unfolding after_transition request_drain signal
  after_transition-IsServed t b c h closes = elim (Bool-cases t.changed) [
    | inl moved ↦ rw moved (at t.to (λ e. closes e))
    | inr stayed ↦ rw stayed (
        breaker-IsServed b c h
          (λ e. elim (closes e) [ inl was ↦ was | inr (moved, to) ↦ absurd cc ]))
  ]
    where
      at :
          (s : State)
          → (b.state ≡ closed → (c.breaker.state ≡ closed) ⊎ ((t.changed ≡ true) × (s ≡ closed)))
          → IsServed (
              signal (
                if is_closed s
                then request_drain (record c { breaker = b })
                else record c { breaker = b }))
      at closed k = record { good = h.good; unstranded = λ e. inr refl }
      at half_open k = record {
        good = h.good;
        unstranded = λ e. elim (k e) [ inl was ↦ h.unstranded was | inr (moved, to) ↦ absurd cc ];
      }
      at opened k = record {
        good = h.good;
        unstranded = λ e. elim (k e) [ inl was ↦ h.unstranded was | inr (moved, to) ↦ absurd cc ];
      }

  pub complete_permit-IsServed :
      (result : Completion) (now : ℕ) (p : Permit) (c : Controller S)
      → IsServed c
      → IsServed (complete_permit ops config fuel result now p c).1
  unfolding complete_permit
  complete_permit-IsServed result now p c h =
      after_transition-IsServed (finish_once result now p c.breaker).0.transition
        (finish_once result now p c.breaker).1 c h (finish_once-Closes result now p c.breaker)

  dependency-IsServed :
      (cause : Option E) (r : Controller S × Option (ControlError E))
      → IsServed r.0
      → IsServed (or_dependency ops config fuel cause r).0
  dependency-IsServed none r h = h
  dependency-IsServed (some e) (c, none) h = h
  dependency-IsServed (some e) (c, some err) h = h

  conclude-IsServed :
      (v : Verdict ops config fuel) (ctx : S → Bool) (cause : Option E) (now : ℕ) (ids : List ℕ)
      (p : Permit) (c : Controller S)
      → IsServed c
      → IsServed (conclude ops config fuel v ctx cause now ids p c).1.0
  unfolding conclude
  conclude-IsServed relinquish ctx cause now ids p c h =
      dependency-IsServed cause _ (complete_permit-IsServed abort now p c h)
  conclude-IsServed unhealthy ctx cause now ids p c h =
      park_batch-IsServed ctx ids _ now _ (complete_permit-IsServed failure now p c h)
  conclude-IsServed reachable ctx cause now ids p c h =
      dependency-IsServed cause _
        (drain-IsServed ctx _ (complete_permit-IsServed success now p c h))

  pub conclude_unbound-IsServed :
      (v : Verdict ops config fuel) (ctx : S → Bool) (cause : Option E) (now : ℕ) (p : Permit)
      (c : Controller S)
      → IsServed c
      → IsServed (conclude_unbound ops config fuel v ctx cause now p c).1.0
  unfolding conclude_unbound
  conclude_unbound-IsServed relinquish ctx cause now p c h =
      dependency-IsServed cause _ (complete_permit-IsServed abort now p c h)
  conclude_unbound-IsServed unhealthy ctx cause now p c h =
      dependency-IsServed cause _ (complete_permit-IsServed failure now p c h)
  conclude_unbound-IsServed reachable ctx cause now p c h =
      dependency-IsServed cause _
        (drain-IsServed ctx _ (complete_permit-IsServed success now p c h))

  pub finish_batch-IsServed :
      (ctx : S → Bool) (cause : Option E) (now : ℕ) (call : BatchCall E) (c : Controller S)
      → IsServed c
      → IsServed (finish_batch ops config fuel ctx cause now call c).1
  unfolding finish_batch
  finish_batch-IsServed ctx cause now call c h =
      if_elim {A = BatchCall E × Controller S × Option (ControlError E)} (λ r. IsServed r.1)
        call.finished (λ _. h)
        (λ _. conclude-IsServed _ ctx cause now call.task_ids call.permit c h)

  pub abort_batch-IsServed :
      (now : ℕ) (call : BatchCall E) (c : Controller S)
      → IsServed c
      → IsServed (abort_batch ops config fuel now call c).1
  unfolding abort_batch
  abort_batch-IsServed now call c h =
      if_elim {A = BatchCall E × Controller S} (λ r. IsServed r.1) call.finished (λ _. h)
        (λ _. complete_permit-IsServed abort now call.permit c h)

  pub acquire_batch-IsServed :
      (ctx : S → Bool) (ids : List ℕ) (now : ℕ) (c : Controller S)
      → IsServed c
      → IsServed (acquire_batch ops config fuel ctx ids now c).0
  unfolding acquire_batch acquire_checked admit_batch
  acquire_batch-IsServed ctx ids now c h = at (validated_task_ids ctx ids c.store)
    where
      allowed : IsServed (record c { breaker = (allow now c.breaker).0 })
      allowed = breaker-IsServed (allow now c.breaker).0 c h (allow-closed now c.breaker)

      enter :
          (js : List ℕ) (r : Admission)
          → IsServed
              (admit_batch ops config fuel r ctx js now
                (record c { breaker = (allow now c.breaker).0 })).0
      enter js (admitted p) = allowed
      enter js (refused e) = park_batch-IsServed ctx js (some (refusal e)) now _ allowed

      at : (r : Answer (List ℕ) E) → IsServed (acquire_checked ops config fuel r ctx now c).0
      at (failed e) = h
      at (answer js) = enter js (allow now c.breaker).1

  pub park-IsServed :
      (ctx : S → Bool) (ids : List ℕ) (cause : Option (Cause E)) (now : ℕ) (c : Controller S)
      → IsServed c
      → IsServed (park ops config fuel ctx ids cause now c).0
  unfolding park
  park-IsServed ctx ids cause now c h = at (validated_task_ids ctx ids c.store)
    where
      at : (r : Answer (List ℕ) E) → IsServed (park_checked ops config fuel r ctx cause now c).0
      at (failed e) = h
      at (answer js) = park_batch-IsServed ctx js cause now c h
