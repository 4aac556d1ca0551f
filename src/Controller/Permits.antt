-- ===== src/Controller/Permits.antt =====
-- Calls of the compute node under a permit of the breaker (controller.go: BatchCall, Execute,
-- ExecuteUnbound, UnboundCall). A Call is a BatchCall of one task.
use ferret_new.Controller.Calls.{answer, failed, Answer, acquire_batch, park_batch, BatchCall}
use ferret_new.Base.{ℕ, Bool, true, Option, none, some, List, [], ◌∷◌, if◌then◌else◌}
use ferret_new.Breaker.{
  Completion, success, failure, abort, Permit, Admission, admitted, refused, allow, finish_once,
}
use ferret_new.Controller.{
  breaker_refused, nil_call, drain_waiting, dependency, after_transition, context_done, Controller,
  ControlConfig, ControlError, failed_call, WaitingOps,
}

module _ {S E : Type 0} (ops : WaitingOps S E) (config : ControlConfig E) (fuel : S → ℕ) where
  -- A completion of the permit, and what follows from its transition.
  unfoldable pub complete_permit : Completion → ℕ → Permit → Controller S → Permit × Controller S
  complete_permit result now p c =
      let (p', b) = finish_once result now p c.breaker in
      (p', after_transition p'.transition (record c { breaker = b }))

  abbrev pub or_dependency :
      Option E → Controller S × Option (ControlError E) → Controller S × Option (ControlError E)
  or_dependency none r = r
  or_dependency (some cause) (c, none) = (c, some (dependency cause))
  or_dependency (some cause) (c, some e) = (c, some e)

  abbrev pub always_error : Controller S × ControlError E → Controller S × Option (ControlError E)
  always_error (c, e) = (c, some e)

  -- Whether the cause of a failure counts against the compute node, and what a done context makes of it.
  pub data Verdict : Type 0 where
    relinquish unhealthy reachable : Verdict

  unfoldable pub verdict_of : (S → Bool) → Option E → S → Verdict
  verdict_of ctx none s = reachable
  verdict_of ctx (some cause) s =
      if ctx s then relinquish else if config.is_failure cause then unhealthy else reachable

  -- The body of the once in BatchCall.finish.
  unfoldable pub conclude :
      Verdict
      → (S → Bool)
      → Option E
      → ℕ
      → List ℕ
      → Permit
      → Controller S
      → Permit × (Controller S × Option (ControlError E))
  conclude relinquish ctx cause now ids p c =
      let (p', c') = complete_permit abort now p c in (p', or_dependency cause (c', none))
  conclude unhealthy ctx cause now ids p c =
      let (p', c') = complete_permit failure now p c in
      (
        p',
        always_error (
            park_batch ops config fuel ctx ids
              (elim cause [ none ↦ none | some e ↦ some (failed_call e) ]) now c'),
      )
  conclude reachable ctx cause now ids p c =
      let (p', c') = complete_permit success now p c in
      (p', or_dependency cause (drain_waiting ops config (fuel c'.store) ctx c'))

  -- BatchCall.Success (no cause) and BatchCall.Failure
  unfoldable pub finish_batch :
      (S → Bool)
      → Option E
      → ℕ
      → BatchCall E
      → Controller S
      → BatchCall E × Controller S × Option (ControlError E)
  finish_batch ctx cause now call c =
      let (p, r) =
        conclude (verdict_of ctx cause c.store) ctx cause now call.task_ids call.permit c in
      if call.finished
      then (call, c, call.outcome)
      else (record call { permit = p; finished = true; outcome = r.1 }, r.0, r.1)

  -- BatchCall.Abort, and UnboundCall.Abort
  unfoldable pub abort_batch : ℕ → BatchCall E → Controller S → BatchCall E × Controller S
  abort_batch now call c =
      let (p, c') = complete_permit abort now call.permit c in
      if call.finished then (call, c) else (record call { permit = p; finished = true }, c')

  -- The body of the once in UnboundCall.finish: no task is parked.
  unfoldable pub conclude_unbound :
      Verdict
      → (S → Bool)
      → Option E
      → ℕ
      → Permit
      → Controller S
      → Permit × (Controller S × Option (ControlError E))
  conclude_unbound relinquish ctx cause now p c =
      let (p', c') = complete_permit abort now p c in (p', or_dependency cause (c', none))
  conclude_unbound unhealthy ctx cause now p c =
      let (p', c') = complete_permit failure now p c in (p', or_dependency cause (c', none))
  conclude_unbound reachable ctx cause now p c =
      let (p', c') = complete_permit success now p c in
      (p', or_dependency cause (drain_waiting ops config (fuel c'.store) ctx c'))

  abbrev pub settled :
      BatchCall E × Controller S × Option (ControlError E) → Controller S × Option (ControlError E)
  settled (call, c, e) = (c, e)

  -- The end of Execute, from what the operation returned; the deferred Abort then does nothing.
  unfoldable pub executed :
      Option E
      → (S → Bool)
      → ℕ
      → BatchCall E
      → Controller S
      → Controller S × Option (ControlError E)
  executed none ctx now call c = settled (finish_batch ctx none now call c)
  executed (some e) ctx now call c =
      if ctx c.store
      then ((abort_batch now call c).1, some (dependency e))
      else settled (finish_batch ctx (some e) now call c)

  unfoldable pub execute_acquired :
      Answer (BatchCall E) E
      → (S → S × Option E)
      → (S → Bool)
      → ℕ
      → Controller S
      → Controller S × Option (ControlError E)
  execute_acquired (failed e) operation ctx later c = (c, some e)
  execute_acquired (answer call) operation ctx later c =
      let (s, r) = operation c.store in executed r ctx later call (record c { store = s })

  -- Execute, for an operation that returns at the time `later`.
  unfoldable pub execute :
      Option (S → S × Option E)
      → (S → Bool)
      → ℕ
      → ℕ
      → ℕ
      → Controller S
      → Controller S × Option (ControlError E)
  execute none ctx id now later c = (c, some nil_call)
  execute (some operation) ctx id now later c =
      let (c', r) = acquire_batch ops config fuel ctx (id ∷ []) now c in
      execute_acquired r operation ctx later c'

  -- The end of ExecuteUnbound; a failure under a done context aborts the permit, as `relinquish` does.
  unfoldable pub execute_admitted :
      Admission
      → (S → S × Option E)
      → (S → Bool)
      → ℕ
      → Controller S
      → Controller S × Option (ControlError E)
  execute_admitted (refused e) operation ctx later c = (c, some (breaker_refused e))
  execute_admitted (admitted p) operation ctx later c =
      let (s, r) = operation c.store in
      (conclude_unbound (verdict_of ctx r s) ctx r later p (record c { store = s })).1

  -- ExecuteUnbound
  unfoldable pub execute_unbound :
      Option (S → S × Option E)
      → (S → Bool)
      → ℕ
      → ℕ
      → Controller S
      → Controller S × Option (ControlError E)
  execute_unbound none ctx now later c = (c, some nil_call)
  execute_unbound (some operation) ctx now later c =
      let (b, r) = allow now c.breaker in
      if ctx c.store
      then (c, some context_done)
      else execute_admitted r operation ctx later (record c { breaker = b })
