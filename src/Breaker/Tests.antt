-- ===== src/Breaker/Tests.antt =====
-- Runs of the breaker (breaker.go), and the theorems at concrete inputs.
use ferret_new.Base.{
  ℕ, ◌+◌, ◌≤◌, ◌<◌, ◌≢◌, ◌≡◌, refl, ◌↔◌, Bool, true, some, List, [], ◌∷◌, if◌then◌else◌, u64, arith,
}
use ferret_new.Base.Int.{pos}
use ferret_new.Breaker.{
  closed, half_open, opened, Completion, success, failure, abort, Breaker, Config, admitted,
  refused, err_open, err_probe_in_flight, stay, new_permit, new_breaker, breaker_of, allow,
  complete, finish_once,
}
use ferret_new.Breaker.System.{Call, allows, finishes, start, run, step, live_probes}
use ferret_new.Breaker.Probe.{one_live_probe, cooldown, probe_decides}
use ferret_new.Breaker.Trip.{completions, HasStreak, opened_iff_HasStreak}
use ferret_new.Breaker.Diagram.{LeadsTo, transitions-LeadsTo}

abbrev config : Config
config = record { failures = pos 2; open_for = pos 30; release_batch = pos 0; on_transition = true }

abbrev fresh : Breaker
unfolding breaker_of
fresh = breaker_of config

new_breaker-fresh : new_breaker config ≡ some fresh
unfolding new_breaker fresh
new_breaker-fresh = refl

-- Two failures trip the breaker, the cooldown passes, and one probe is in flight.
abbrev outage : List Call
outage =
    allows 0
    ∷ finishes 0 failure 1
    ∷ allows 2
    ∷ finishes 1 failure 3
    ∷ allows 4
    ∷ allows 40
    ∷ allows 41
    ∷ []

outage_half_open : (run (start fresh) outage).breaker.state ≡ half_open
unfolding run step allow finish_once fresh
outage_half_open = refl

outage_probe : live_probes 2 (run (start fresh) outage).permits ≡ 1
unfolding run step allow finish_once fresh live_probes
outage_probe = refl

one_live_probe_example :
    let s = run (start fresh) outage in
    (live_probes s.breaker.epoch s.permits ≡ (if s.breaker.probe_in_flight then 1 else 0))
    × (0 < live_probes s.breaker.epoch s.permits → s.breaker.state ≡ half_open)
one_live_probe_example = one_live_probe config fresh outage new_breaker-fresh (omega arith)

abbrev tripped : Breaker
unfolding breaker_of
tripped = record fresh { state = opened; open_until = 33; epoch = 1; consecutive_failures = 2 }

cooldown_example :
    (20 < tripped.open_until → allow 20 tripped ≡ (tripped, refused err_open))
    × (tripped.open_until ≤ 20
        → ((allow 20 tripped).1 ≡ admitted (new_permit (u64 (tripped.epoch + 1)) true))
          × ((later : ℕ)
              → allow later (allow 20 tripped).0
                ≡ ((allow 20 tripped).0, refused err_probe_in_flight)))
unfolding tripped
cooldown_example = cooldown tripped 20 refl

abbrev probing : Breaker
unfolding breaker_of
probing = record tripped { state = half_open; epoch = 2; probe_in_flight = true }

probe_decides_example :
    let b' = (complete probing.epoch true success 50 probing).0 in
    (success ≡ success → (b'.state ≡ closed) × (b'.consecutive_failures ≡ 0))
    × (success ≢ success → (b'.state ≡ opened) × (b'.open_until ≡ 50 + probing.open_for))
    × ((probe : Bool) (late : Completion) (later : ℕ)
        → complete probing.epoch probe late later b' ≡ (b', stay b'.state))
unfolding probing
probe_decides_example = probe_decides probing success 50 refl refl (omega arith)

abbrev flaky : List (Completion × ℕ)
flaky = (failure, 1) ∷ (success, 2) ∷ (failure, 3) ∷ (abort, 4) ∷ (failure, 5) ∷ []

flaky_opens : (completions 0 flaky fresh).state ≡ opened
unfolding completions complete fresh
flaky_opens = refl

opened_iff_HasStreak_example :
    ((completions fresh.epoch flaky fresh).state ≡ opened) ↔ HasStreak fresh.failures flaky
unfolding fresh
opened_iff_HasStreak_example = opened_iff_HasStreak fresh flaky refl refl (omega arith)

transitions-LeadsTo_example :
    LeadsTo (run (start fresh) outage).breaker.transitions (run (start fresh) outage).breaker.state
transitions-LeadsTo_example = transitions-LeadsTo config fresh outage new_breaker-fresh
