-- ===== src/Controller/Drained.antt =====
-- Draining the waiting tasks ends (controller.go: drainWaiting).
use Prim.Native.Nat.{zero}
use ferret_new.Base.{
  ◌+◌, ◌∙◌, ap, subst, ◌<◌, suc, ◌≢◌, ℕ, ◌≡◌, ◌≤◌, refl, sym, arith, Bool, true, false, Option,
  none, some, List, if_elim, ltb,
}
use ferret_new.Base.Int.{negsuc, ℤ, pos}
use ferret_new.Controller.{
  Cause, is_bad_release, drain_waiting, drain_loop, drain_step, notify_released, Controller,
  ControlConfig, ControlError, drain_unfinished, WaitingOps, Released, released, release_error,
}

-- What a release does: it fails and changes nothing that waits, or it takes as many waiting tasks as
-- there are, up to the limit.
abbrev pub Takes : {E : Type 0} → ℕ → ℕ → ℕ → Released E → Type 0
Takes limit before after (released (pos n)) =
    (before ≡ after + n) × (n ≤ limit) × (n < limit → after ≡ 0)
Takes limit before after (released (negsuc n)) = ⊥
Takes limit before after (release_error e) = before ≡ after

-- What a parking does: it may fail and change nothing that waits.
abbrev pub Parks : {S E : Type 0} → (S → Type 0) → ℕ → (S → ℕ) → S × Option E → Type 0
Parks good before count (s, none) = good s
Parks good before count (s, some e) = good s × (count s ≡ before)

-- What a parking of a batch does, if the store has it.
abbrev pub BatchParks :
    {S E : Type 0} → (S → Type 0) → (S → ℕ) → Option (List ℕ → Cause E → S → S × Option E) → Type 0
BatchParks {S} {E} good count none = Unit {0}
BatchParks {S} {E} good count (some batch) =
    (ids : List ℕ) (cause : Cause E) (s : S)
    → good s
    → Parks good (count s) count (batch ids cause s)

-- What the store promises, on the states that `IsGood` describes; `waiting_count` is the number of
-- waiting tasks.
pub record WaitingLaws {S E : Type 0} (ops : WaitingOps S E) : Type 1 where
  pub IsGood : S → Type 0
  pub waiting_count : S → ℕ
  pub released-IsGood : (limit : ℕ) (s : S) → IsGood s → IsGood (ops.release_waiting_dep limit s).0
  pub released-Takes :
      (limit : ℕ) (s : S)
      → 1 ≤ limit
      → IsGood s
      → Takes limit
          (waiting_count s)
          (waiting_count (ops.release_waiting_dep limit s).0)
          (ops.release_waiting_dep limit s).1
  pub marked-IsGood :
      (id : ℕ) (cause : Cause E) (s : S)
      → IsGood s
      → Parks IsGood (waiting_count s) waiting_count (ops.mark_waiting_dep id cause s)
  pub batched-IsGood : BatchParks IsGood waiting_count ops.mark_waiting_dep_batch

module _ {S E : Type 0} (ops : WaitingOps S E) (config : ControlConfig E)
    (laws : WaitingLaws ops) where
  open laws use {IsGood, waiting_count, released-IsGood, released-Takes}

  -- How a drain ends: nothing waits and no drain is pending, or it failed and one is still pending.
  abbrev pub Ended : Controller S × Option (ControlError E) → Type 0
  Ended (c, none) = IsGood c.store × (waiting_count c.store ≡ 0) × (c.drain_pending ≡ false)
  Ended (c, some e) = IsGood c.store × (e ≢ drain_unfinished) × (c.drain_pending ≡ true)

  notify_released-store : (z : ℤ) (c : Controller S) → (notify_released z c).store ≡ c.store
  unfolding notify_released
  notify_released-store (pos zero) c = refl
  notify_released-store (pos (suc n)) c = refl
  notify_released-store (negsuc n) c = refl

  notify_released-pending :
      (z : ℤ) (c : Controller S) → (notify_released z c).drain_pending ≡ c.drain_pending
  unfolding notify_released
  notify_released-pending (pos zero) c = refl
  notify_released-pending (pos (suc n)) c = refl
  notify_released-pending (negsuc n) c = refl

  drain_step-Ended :
      (again : Controller S → Controller S × Option (ControlError E)) (before : ℕ) (r : Released E)
      (c : Controller S)
      → IsGood c.store
      → c.drain_pending ≡ true
      → 1 ≤ config.release_batch
      → Takes config.release_batch before (waiting_count c.store) r
      → ((d : Controller S)
          → IsGood d.store
          → d.drain_pending ≡ true
          → waiting_count d.store < before
          → Ended (again d))
      → Ended (drain_step ops config again r c)
  unfolding drain_step
  drain_step-Ended again before (release_error e) c good pending positive takes k =
      (good, λ same. cc, pending)
  drain_step-Ended again before (released (negsuc n)) c good pending positive takes k = absurd takes
  drain_step-Ended again before (released (pos n)) c good pending positive (split, within, last) k =
      let d = notify_released (pos n) c in
      let same = notify_released-store (pos n) c in
      let kept : IsGood d.store = subst IsGood (sym same) good in
      let waits : waiting_count d.store ≡ waiting_count c.store = ap waiting_count same in
      if_elim Ended (is_bad_release config.release_batch (pos n)) (λ bad. absurd (ground arith))
        (λ _.
          if_elim Ended (ltb n config.release_batch)
            (λ less. (kept, waits ∙ last (ground arith), refl))
            (λ full.
              k d kept (notify_released-pending (pos n) c ∙ pending)
                (ground (arith, waits, split))))

  pub drain_loop-Ended :
      (fuel : ℕ) (ctx : S → Bool) (c : Controller S)
      → 1 ≤ config.release_batch
      → IsGood c.store
      → c.drain_pending ≡ true
      → waiting_count c.store < fuel
      → Ended (drain_loop ops config fuel ctx c)
  unfolding drain_loop
  drain_loop-Ended zero ctx c positive good pending enough = absurd (omega arith)
  drain_loop-Ended (suc fuel) ctx c positive good pending enough =
      if_elim Ended (ctx c.store) (λ _. (good, λ same. cc, pending))
        (λ _.
          let limit = config.release_batch in
          drain_step-Ended (drain_loop ops config fuel ctx) (waiting_count c.store)
            (ops.release_waiting_dep limit c.store).1
            (record c { store = (ops.release_waiting_dep limit c.store).0 })
            (released-IsGood limit c.store good) pending positive
            (released-Takes limit c.store positive good)
            (λ d g p less. drain_loop-Ended fuel ctx d positive g p (omega (arith, less, enough))))

  -- When the release batch is positive, the store keeps its laws, a drain is pending and the fuel is
  -- more than the number of waiting tasks, a drain does not run out of fuel. If it returns no error,
  -- then nothing waits and no drain is pending; if it does, a drain is still pending.
  pub drain_waiting-Ended :
      (fuel : ℕ) (ctx : S → Bool) (c : Controller S)
      → 1 ≤ config.release_batch
      → IsGood c.store
      → c.drain_pending ≡ true
      → waiting_count c.store < fuel
      → Ended (drain_waiting ops config fuel ctx c)
  unfolding drain_waiting
  drain_waiting-Ended fuel ctx c positive good pending enough =
      if_elim Ended c.drain_pending (λ _. drain_loop-Ended fuel ctx c positive good pending enough)
        (λ idle. absurd cc)
