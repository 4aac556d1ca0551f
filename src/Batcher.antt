-- ===== src/Batcher.antt =====
-- The batcher of the embedding stage, packages/index-node/internal/pipeline/embed/batcher.go: the loop of
-- Run that gathers requests into batches, and the order of the models that responses name. A request is
-- its identity with the number of its frames. What a context, a semaphore or a callback answers is part
-- of the event.
pub mod Tallies
pub mod Whole
pub mod Models
mod Tests
use ferret_new.Base.{
  ◌*◌, ◌-◌, ◌/◌, ◌^◌, ℕ, ◌+◌, Bool, true, false, not, ◌&&◌, Option, none, some, List, [], ◌∷◌, ◌++◌,
  ltb, leb, ◌==◌, if◌then◌else◌,
}
use ferret_new.Base.Int.{ℤ, is_nonpos, is_neg, to_nat, pos}
use ferret_new.Base.Bytes.{Text, text_eq}

pub record BatcherConfig : Type 0 where
  pub batch_size : ℤ
  pub batch_linger : ℤ
  pub inflight_batches : ℤ
  pub queue_capacity : ℤ

abbrev pub max_int : ℕ
max_int = 2 ^ 63 - 1

-- The capacity that stands for 0, unless it overflows.
abbrev default_capacity : BatcherConfig → Option BatcherConfig
default_capacity c =
    if ltb (max_int / to_nat c.inflight_batches) (to_nat c.batch_size)
    then none
    else some (record c { queue_capacity = pos (to_nat c.batch_size * to_nat c.inflight_batches) })

-- normalizeBatcherConfig; every error is ErrInvalidBatcherConfig.
unfoldable pub normalize_batcher_config : BatcherConfig → Option BatcherConfig
normalize_batcher_config c =
    if is_nonpos c.batch_size
    then none
    else if is_nonpos c.batch_linger
    then none
    else if is_nonpos c.inflight_batches
    then none
    else if is_neg c.queue_capacity
    then none
    else if is_nonpos c.queue_capacity
    then default_capacity c
    else some c

pub record ImageRequest : Type 0 where
  pub id : ℕ
  pub task_id : ℕ
  pub images : ℕ

-- The variables of the loop; `batches` are those handed to processBatch, and `failed` the requests that
-- the loop completed with an error.
pub record BatchLoop : Type 0 where
  pub pending : List ImageRequest
  pub pending_images : ℕ
  pub timer_armed : Bool
  pub batches : List (List ImageRequest)
  pub failed : List ImageRequest

abbrev pub new_loop : BatchLoop
new_loop = record {
  pending = [];
  pending_images = 0;
  timer_armed = false;
  batches = [];
  failed = [];
}

abbrev is_empty_batch : List ImageRequest → Bool
is_empty_batch [] = true
is_empty_batch (_ ∷ _) = false

-- dispatch, for what the semaphore answers; the second component says whether it failed.
unfoldable pub dispatch_from : List ImageRequest → Bool → BatchLoop → BatchLoop × Bool
dispatch_from [] acquired l = (l, false)
dispatch_from (r ∷ rs) acquired l =
    let l' = record l { pending = []; pending_images = 0; timer_armed = false } in
    if acquired
    then (record l' { batches = l.batches ++ ((r ∷ rs) ∷ []) }, false)
    else (record l' { failed = l.failed ++ (r ∷ rs) }, true)

unfoldable pub dispatch : Bool → BatchLoop → BatchLoop × Bool
dispatch acquired l = dispatch_from l.pending acquired l

abbrev pub reject : ImageRequest → BatchLoop → BatchLoop
reject r l = record l { failed = l.failed ++ (r ∷ []) }

-- The end of a receipt: the request is pending.
unfoldable pub enqueue_request : ℕ → ImageRequest → Bool → BatchLoop → BatchLoop
enqueue_request size r acquired l =
    let l' = record l {
      pending = l.pending ++ (r ∷ []);
      pending_images = l.pending_images + r.images;
    } in
    if leb size (l.pending_images + r.images)
    then (dispatch acquired l').0
    else record l' { timer_armed = true }

abbrev pub make_room : ℕ → ImageRequest → Bool → BatchLoop × Bool → BatchLoop
make_room size r acquired (l, true) = reject r l
make_room size r acquired (l, false) = enqueue_request size r acquired l

-- A request is received; `cancelled` is its context, `first` and `second` the semaphore.
unfoldable pub receive : ℕ → ImageRequest → Bool → Bool → Bool → BatchLoop → BatchLoop
receive size r cancelled first second l =
    if cancelled
    then reject r l
    else if not (is_empty_batch l.pending) && ltb size (l.pending_images + r.images)
    then make_room size r second (dispatch first l)
    else enqueue_request size r second l

-- One round of the select of Run, up to the end of its context.
pub data BatchEvent : Type 0 where
  receives : ImageRequest → Bool → Bool → Bool → BatchEvent
  expires : Bool → BatchEvent

unfoldable pub batch_step : ℕ → BatchEvent → BatchLoop → BatchLoop
batch_step size (receives r cancelled first second) l = receive size r cancelled first second l
batch_step size (expires acquired) l =
    if l.timer_armed then (dispatch acquired (record l { timer_armed = false })).0 else l

unfoldable pub batch_run : ℕ → List BatchEvent → BatchLoop → BatchLoop
batch_run size [] l = l
batch_run size (e ∷ es) l = batch_run size es (batch_step size e l)

-- The context of Run is done.
unfoldable pub stop_loop : BatchLoop → BatchLoop
stop_loop l = record l { timer_armed = false; failed = l.failed ++ l.pending }

pub record ModelInfo : Type 0 where
  pub version : Text
  pub dims : ℕ

-- The adopted model with the epoch of its dispatch.
pub record Adoption : Type 0 where
  pub model : ModelInfo
  pub epoch : ℕ

pub data Observation : Type 0 where
  accepted changed_dims stale_model callback_failed : Observation

abbrev pub adopt : ModelInfo → ℕ → Option Adoption → Option Adoption
adopt info epoch none = some (record { model = info; epoch = epoch })
adopt info epoch (some a) =
    if leb a.epoch epoch then some (record { model = info; epoch = epoch }) else some a

abbrev call_back : Bool → ModelInfo → ℕ → Option Adoption → Option Adoption × Observation
call_back true info epoch a = (adopt info epoch a, accepted)
call_back false info epoch a = (a, callback_failed)

-- observeModel; `adopts` is what the callback OnModel answers.
unfoldable pub observe_model :
    Bool → ℕ → ModelInfo → Option Adoption → Option Adoption × Observation
observe_model adopts epoch info none = call_back adopts info epoch none
observe_model adopts epoch info (some a) =
    if text_eq info.version a.model.version && not (info.dims == a.model.dims)
    then (some a, changed_dims)
    else if ltb epoch a.epoch && not (text_eq info.version a.model.version)
    then (some a, stale_model)
    else call_back adopts info epoch (some a)

-- nextDispatchEpoch, on a 64-bit counter.
unfoldable pub next_dispatch_epoch : ℕ → Option ℕ
next_dispatch_epoch current = if current == 2 ^ 64 - 1 then none else some (current + 1)
