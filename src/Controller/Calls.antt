-- ===== src/Controller/Calls.antt =====
-- Parking tasks, and acquiring a permit for a call (controller.go: Acquire, AcquireBatch, Park,
-- ParkBatch, parkBatch, validatedTaskIDs). A Call is a BatchCall of one task.
use ferret_new.Base.{
  ◌+◌, ℕ, Bool, false, Option, none, some, List, [], ◌∷◌, ◌==◌, if◌then◌else◌, u64, any,
}
use ferret_new.Breaker.{closed, State, err_open, Permit, Admission, admitted, refused, allow}
use ferret_new.Controller.{
  breaker_state, request_drain, no_batch_parking, drain_waiting, signal, waiting, park_failed,
  context_done, invalid_task_id, Controller, ControlConfig, ControlError, Cause, refusal,
  WaitingOps,
}

-- A result of a fallible step of the controller.
pub data Answer (A E : Type 0) : Type 0 where
  answer : A → Answer A E
  failed : ControlError E → Answer A E

-- The loop over the ids; an id that was seen is left out, and seeing it again changes nothing.
unfoldable pub unique_ids : List ℕ → List ℕ → Option (List ℕ)
unique_ids seen [] = some []
unique_ids seen (id ∷ ids) =
    let rest = unique_ids (id ∷ seen) ids in
    if id == 0
    then none
    else if any (λ j. j == id) seen
    then rest
    else elim rest [ none ↦ none | some more ↦ some (id ∷ more) ]

abbrev checked_ids : {E : Type 0} → Option (List ℕ) → Answer (List ℕ) E
checked_ids none = failed invalid_task_id
checked_ids (some ids) = answer ids

-- validatedTaskIDs
unfoldable pub validated_task_ids : {S E : Type 0} → (S → Bool) → List ℕ → S → Answer (List ℕ) E
validated_task_ids ctx [] s = failed (if ctx s then context_done else invalid_task_id)
validated_task_ids ctx (id ∷ ids) s =
    if ctx s then failed context_done else checked_ids (unique_ids [] (id ∷ ids))

-- BatchCall: the tasks of one call, and its permit. `finished` and `outcome` are its sync.Once and err.
pub record BatchCall (E : Type 0) : Type 0 where
  pub task_ids : List ℕ
  pub permit : Permit
  pub finished : Bool
  pub outcome : Option (ControlError E)

module _ {S E : Type 0} (ops : WaitingOps S E) (config : ControlConfig E) (fuel : S → ℕ) where
  -- The statement that parks the tasks: all of them or none.
  unfoldable pub mark_waiting :
      Option (List ℕ → Cause E → S → S × Option E)
      → List ℕ
      → Cause E
      → S
      → S × Option (ControlError E)
  mark_waiting (some batch) ids cause s =
      let (s', r) = batch ids cause s in
      (s', elim r [ none ↦ none | some e ↦ some (park_failed ids e) ])
  mark_waiting none (id ∷ []) cause s =
      let (s', r) = ops.mark_waiting_dep id cause s in
      (s', elim r [ none ↦ none | some e ↦ some (park_failed (id ∷ []) e) ])
  mark_waiting none ids cause s = (s, some no_batch_parking)

  abbrev pub reason_of : Option (Cause E) → Cause E
  reason_of none = refusal err_open
  reason_of (some cause) = cause

  abbrev pub or_waiting :
      List ℕ
      → Option (Cause E)
      → Controller S × Option (ControlError E)
      → Controller S × ControlError E
  or_waiting ids cause (c, none) = (c, waiting ids cause)
  or_waiting ids cause (c, some e) = (c, e)

  -- After the tasks are parked: if the breaker is closed, they are released again.
  unfoldable pub redrive :
      State → (S → Bool) → List ℕ → Option (Cause E) → Controller S → Controller S × ControlError E
  redrive closed ctx ids cause c =
      or_waiting ids cause (drain_waiting ops config (fuel c.store) ctx (request_drain c))
  redrive _ ctx ids cause c = (c, waiting ids cause)

  unfoldable pub parked :
      Option (ControlError E)
      → (S → Bool)
      → List ℕ
      → Option (Cause E)
      → ℕ
      → Controller S
      → Controller S × ControlError E
  parked (some e) ctx ids cause now c = (c, e)
  parked none ctx ids cause now c =
      let c1 = signal (record c { waiter_version = u64 (c.waiter_version + 1) }) in
      let (c2, state) = breaker_state now c1 in redrive state ctx ids cause c2

  -- parkBatch
  unfoldable pub park_batch :
      (S → Bool) → List ℕ → Option (Cause E) → ℕ → Controller S → Controller S × ControlError E
  park_batch ctx ids cause now c =
      let (s, r) = mark_waiting ops.mark_waiting_dep_batch ids (reason_of cause) c.store in
      parked r ctx ids cause now (record c { store = s })

  abbrev pub failing : {A : Type 0} → Controller S × ControlError E → Controller S × Answer A E
  failing (c, e) = (c, failed e)

  abbrev pub park_checked :
      Answer (List ℕ) E
      → (S → Bool)
      → Option (Cause E)
      → ℕ
      → Controller S
      → Controller S × ControlError E
  park_checked (failed e) ctx cause now c = (c, e)
  park_checked (answer ids) ctx cause now c = park_batch ctx ids cause now c

  -- ParkBatch, and Park
  unfoldable pub park :
      (S → Bool) → List ℕ → Option (Cause E) → ℕ → Controller S → Controller S × ControlError E
  park ctx ids cause now c = park_checked (validated_task_ids ctx ids c.store) ctx cause now c

  unfoldable pub admit_batch :
      Admission → (S → Bool) → List ℕ → ℕ → Controller S → Controller S × Answer (BatchCall E) E
  admit_batch (refused e) ctx ids now c = failing (park_batch ctx ids (some (refusal e)) now c)
  admit_batch (admitted p) ctx ids now c =
      (c, answer (record { task_ids = ids; permit = p; finished = false; outcome = none }))

  unfoldable pub acquire_checked :
      Answer (List ℕ) E → (S → Bool) → ℕ → Controller S → Controller S × Answer (BatchCall E) E
  acquire_checked (failed e) ctx now c = (c, failed e)
  acquire_checked (answer ids) ctx now c =
      let (b, r) = allow now c.breaker in admit_batch r ctx ids now (record c { breaker = b })

  -- AcquireBatch
  unfoldable pub acquire_batch :
      (S → Bool) → List ℕ → ℕ → Controller S → Controller S × Answer (BatchCall E) E
  acquire_batch ctx ids now c = acquire_checked (validated_task_ids ctx ids c.store) ctx now c
