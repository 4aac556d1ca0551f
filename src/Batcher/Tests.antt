-- ===== src/Batcher/Tests.antt =====
-- Runs of the batcher (batcher.go), and the theorems at concrete inputs.
use ferret_new.Base.{ℕ, ◌≡◌, ◌≤◌, refl, arith, true, false, none, List, [], ◌∷◌}
use ferret_new.Batcher.{
  ImageRequest, BatchEvent, receives, expires, new_loop, batch_run, batch_step, receive,
  enqueue_request, dispatch, dispatch_from,
}
use ferret_new.Batcher.Tallies.{tally}
use ferret_new.Batcher.Whole.{received_by, IsGathered, batch_run-IsGathered}
use ferret_new.Batcher.Models.{Response, IsLatest, observe_all, observe_all-IsLatest}

abbrev request : ℕ → ℕ → ImageRequest
request n images = record { id = n; task_id = n; images = images }

-- Two requests that do not fit together, and then one alone.
abbrev events : List BatchEvent
events =
    receives (request 1 2) false true true
    ∷ receives (request 2 3) false true true
    ∷ expires true
    ∷ receives (request 3 9) false true true
    ∷ []

events_batches :
    (batch_run 4 events new_loop).batches
    ≡ (request 1 2 ∷ []) ∷ (request 2 3 ∷ []) ∷ (request 3 9 ∷ []) ∷ []
unfolding batch_run batch_step receive enqueue_request dispatch dispatch_from
events_batches = refl

positive : 1 ≤ 4
positive = omega arith

batch_run-IsGathered_example :
    IsGathered 4 (λ p. tally p (received_by 4 positive events)) (batch_run 4 events new_loop)
batch_run-IsGathered_example = batch_run-IsGathered 4 positive events

abbrev responses : List Response
responses =
    record { adopts = true; epoch = 2; info = record { version = []; dims = 3 } }
    ∷ record { adopts = true; epoch = 1; info = record { version = b'a' ∷ []; dims = 3 } }
    ∷ []

observe_all-IsLatest_example : IsLatest (observe_all responses (none, []))
observe_all-IsLatest_example = observe_all-IsLatest responses
