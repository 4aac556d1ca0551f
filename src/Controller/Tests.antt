-- ===== src/Controller/Tests.antt =====
-- Runs of the controller (controller.go), and the theorems at a concrete input: a store that counts its
-- waiting tasks.
use ferret_new.TaskQueue.Release.{release_waiting_dep}
use ferret_new.Controller.Queue.{queue_run-IsServed, queue_fuel, queue_ops}
use ferret_new.Base.Bytes.{Text}
use ferret_new.TaskQueue.Enqueue.{new_row}
use ferret_new.TaskQueue.Slots.Released.{release_waiting_dep-count, waits_dep}
use ferret_new.TaskQueue.Slots.{IsUnique}
use ferret_new.TaskQueue.Slots.Waiting.{count_where}
use ferret_new.Task.{waiting_dep, TaskOp, Task}
use ferret_new.TaskQueue.{Db, StoreError}
use ferret_new.Controller.Calls.{
  redrive, mark_waiting, parked, park_batch, admit_batch, unique_ids, validated_task_ids,
  acquire_checked, acquire_batch,
}
use ferret_new.Controller.Permits.{complete_permit, verdict_of, conclude_unbound}
use ferret_new.Controller.Served.{
  turns, acquires, finishes_unbound, control_run-IsServed, control_step, acquires_unbound,
  ControlCall, control_run,
}
use ferret_new.Controller.Stranded.{IsServed}
use ferret_new.Controller.Turn.{run_turn, new_watch, Watch}
use ferret_new.Controller.Quiet.{run_turn-Quiet, QuietTurn}
use ferret_new.Breaker.{
  closed, settle, open_locked, made, complete_in, closed_result, advance_locked, admit, snapshot,
  finish_once, allow, complete, new_permit, breaker_of, Breaker,
}
use ferret_new.Controller.Drained.{drain_waiting-Ended, Ended, WaitingLaws, Takes}
use ferret_new.Controller.{
  Cause, request_drain, signal, breaker_state, after_transition, drain_waiting, new_controller,
  released, WaitingOps, Released, ControlConfig,
}
use ferret_new.Base.{
  ◌⊎◌, inr, if◌then◌else◌, ltb, if_elim, ℕ, ◌+◌, ◌-◌, ◌≡◌, ◌≤◌, ◌<◌, refl, arith, Bool, true, false,
  none, some, List, [], ◌∷◌, length,
}
use ferret_new.Base.Int.{pos}

abbrev take_waiting : ℕ → ℕ → ℕ × Released ℕ
take_waiting limit s =
    if ltb s limit then (0, released (pos s)) else (s - limit, released (pos limit))

abbrev ops : WaitingOps ℕ ℕ
ops = record {
  mark_waiting_dep = λ id cause s. (s + 1, none);
  mark_waiting_dep_batch = some (λ ids cause s. (s + length ids, none));
  release_waiting_dep = take_waiting;
}

abbrev config : ControlConfig ℕ
config = record { release_batch = 2; open_for = 5; is_failure = λ e. true }

abbrev breaker : Breaker
breaker =
    breaker_of
      (record { failures = pos 1; open_for = pos 5; release_batch = pos 2; on_transition = false })

abbrev live : ℕ → Bool
live s = false

take_waiting-Takes : (limit s : ℕ) → Takes limit s (take_waiting limit s).0 (take_waiting limit s).1
take_waiting-Takes limit s =
    if_elim {A = ℕ × Released ℕ} (λ r. Takes limit s r.0 r.1) (ltb s limit)
      (λ less. (omega arith, ground arith, λ _. refl))
      (λ full. (ground arith, omega arith, λ below. absurd (omega (arith, below))))

abbrev laws : WaitingLaws ops
laws = record {
  IsGood = λ s. Unit {0};
  waiting_count = λ s. s;
  released-IsGood = λ limit s g. tt;
  released-Takes = λ limit s positive g. take_waiting-Takes limit s;
  marked-IsGood = λ id cause s g. tt;
  batched-IsGood = λ ids cause s g. tt;
}

enough : (s : ℕ) → s < s + 1
enough s = omega arith

positive : 1 ≤ config.release_batch
positive = omega arith

abbrev idle_watch : Watch
idle_watch = new_watch 0

-- A refused batch of two is parked, and a probe closes the breaker.
abbrev calls : List (ControlCall ℕ ℕ)
calls =
    acquires_unbound 0
    ∷ finishes_unbound live (some 7) (new_permit 0 false) 1
    ∷ acquires live (4 ∷ 5 ∷ []) 2
    ∷ []

-- The failure opens the breaker, so the batch waits.
calls_wait : (control_run ops config (λ s. s + 1) calls (new_controller 0 breaker)).store ≡ 2
unfolding control_run control_step new_controller acquire_batch acquire_checked validated_task_ids
    unique_ids admit_batch allow conclude_unbound verdict_of complete_permit after_transition
    finish_once breaker_of park_batch parked mark_waiting redrive breaker_state snapshot admit
    advance_locked closed_result complete complete_in new_permit made open_locked settle signal
    request_drain
calls_wait = refl

drain_waiting-Ended_example :
    Ended ops config laws (drain_waiting ops config 6 live (new_controller 5 breaker))
unfolding new_controller
drain_waiting-Ended_example =
    drain_waiting-Ended ops config laws 6 live (new_controller 5 breaker) (omega arith) tt refl
      (omega arith)

control_run-IsServed_example :
    IsServed ops config
      (λ s. s + 1)
      laws
      positive
      enough
      (control_run ops config (λ s. s + 1) calls (new_controller 3 breaker))
control_run-IsServed_example =
    control_run-IsServed ops config (λ s. s + 1) laws positive enough calls 3 breaker tt

run_turn-Quiet_example :
    QuietTurn ops config
      (λ s. s + 1)
      laws
      positive
      enough
      (run_turn ops config (λ s. s + 1) live 3 idle_watch (new_controller 3 breaker))
unfolding new_controller breaker_of
run_turn-Quiet_example =
    run_turn-Quiet ops config (λ s. s + 1) laws positive enough live 3 idle_watch
      (new_controller 3 breaker) (record { good = tt; unstranded = λ e. inr refl }) refl

abbrev waiting_row : Task
waiting_row =
    record (new_row
      (record {
        file_id = none;
        path = b'/' ∷ b'a' ∷ [];
        op = TaskOp.upsert;
        old_path = none;
        generation = pos 1;
        priority = pos 5;
        next_attempt_at_ms = 0;
      })
      1 0) { state = waiting_dep }

abbrev queue : Db
queue = record { tasks = waiting_row ∷ []; files = []; dead_letters = []; audit = [] }

abbrev queue_config : ControlConfig StoreError
queue_config = record { release_batch = 2; open_for = 5; is_failure = λ e. true }

abbrev show_cause : Cause StoreError → Text
show_cause cause = []

abbrev queue_calls : List (ControlCall Db StoreError)
queue_calls = turns (λ db. false) idle_watch 3 ∷ []

release_waiting_dep-count_example :
    (count_where waits_dep queue.tasks
      ≡ count_where waits_dep (release_waiting_dep (pos 2) 9 queue).0.tasks
        + (release_waiting_dep (pos 2) 9 queue).1)
    × ((release_waiting_dep (pos 2) 9 queue).1 ≤ 2)
    × ((release_waiting_dep (pos 2) 9 queue).1 < 2
        → count_where waits_dep (release_waiting_dep (pos 2) 9 queue).0.tasks ≡ 0)
release_waiting_dep-count_example = release_waiting_dep-count 2 9 queue (tt, tt) (omega arith)

queue_run-IsServed_example :
    IsUnique
      (control_run
        (queue_ops show_cause 9)
        queue_config
        queue_fuel
        queue_calls
        (new_controller queue breaker)).store.tasks
    × ((control_run
            (queue_ops show_cause 9)
            queue_config
            queue_fuel
            queue_calls
            (new_controller queue breaker)).breaker.state
          ≡ closed
        → (count_where waits_dep
              (control_run
                (queue_ops show_cause 9)
                queue_config
                queue_fuel
                queue_calls
                (new_controller queue breaker)).store.tasks
            ≡ 0)
          ⊎ ((control_run
                (queue_ops show_cause 9)
                queue_config
                queue_fuel
                queue_calls
                (new_controller queue breaker)).drain_pending
              ≡ true))
queue_run-IsServed_example =
    queue_run-IsServed show_cause 9 queue_config queue_calls queue breaker (omega arith) (tt, tt)
