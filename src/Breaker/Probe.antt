-- ===== src/Breaker/Probe.antt =====
-- Half-open probes and the cooldown of the breaker (breaker.go: Allow, complete, Permit.finish).
use ferret_new.Base.{
  ℕ, ◌+◌, ◌^◌, ◌≤◌, ◌<◌, ◌≡◌, ◌≢◌, Bool, true, some, List, length, if◌then◌else◌, u64, arith,
}
use ferret_new.Breaker.{
  closed, half_open, opened, Completion, success, failure, abort, Breaker, Config, admitted,
  refused, err_open, err_probe_in_flight, stay, new_permit, new_breaker, allow, complete,
}
use ferret_new.Breaker.System.{Call, start, run, live_probes}
use ferret_new.Breaker.Invariant.{IsCoherent, Inv, start-Inv, run-Inv}

new_breaker-IsCoherent : (c : Config) {b : Breaker} → new_breaker c ≡ some b → IsCoherent b
unfolding new_breaker
new_breaker-IsCoherent c h = ground arith

pub new_breaker-Inv : (c : Config) (b : Breaker) → new_breaker c ≡ some b → Inv 0 (start b)
unfolding new_breaker
new_breaker-Inv c b h = start-Inv b (new_breaker-IsCoherent c h) (ground arith) (ground arith)

-- After any sequence of fewer than 2^64 calls on a new breaker, the number of uncompleted probe
-- permits of the present epoch is one if the breaker counts a probe as in flight, and otherwise
-- none; and there is one only while the breaker is half-open.
pub one_live_probe :
    (c : Config) (b : Breaker) (cs : List Call)
    → new_breaker c ≡ some b
    → length cs < 2 ^ 64
    → let s = run (start b) cs in
      (live_probes s.breaker.epoch s.permits ≡ (if s.breaker.probe_in_flight then 1 else 0))
      × (0 < live_probes s.breaker.epoch s.permits → s.breaker.state ≡ half_open)
one_live_probe c b cs h room =
    let inv = run-Inv 0 (start b) cs (new_breaker-Inv c b h) (omega arith) in
    (inv.counted, ground (arith, inv.counted, inv.coherent))

-- An open breaker refuses every call before its deadline and does not change. From the deadline on
-- the first call is admitted as the probe of the next epoch, and until that probe is completed
-- every further call, at any time, is refused.
pub cooldown :
    (b : Breaker) (now : ℕ)
    → b.state ≡ opened
    → (now < b.open_until → allow now b ≡ (b, refused err_open))
      × (b.open_until ≤ now
          → ((allow now b).1 ≡ admitted (new_permit (u64 (b.epoch + 1)) true))
            × ((later : ℕ)
                → allow later (allow now b).0 ≡ ((allow now b).0, refused err_probe_in_flight)))
unfolding allow
cooldown b now o = (λ h. ground arith, λ h. (ground arith, λ later. ground arith))

-- The probe decides: its success closes the breaker with no failure counted, and its failure or its
-- abandonment opens it for a full cooldown from then on. In each case the epoch changes, so a
-- permit of the half-open epoch that is completed later changes nothing.
pub probe_decides :
    (b : Breaker) (r : Completion) (now : ℕ)
    → b.state ≡ half_open
    → b.probe_in_flight ≡ true
    → b.epoch < 2 ^ 64
    → let b' = (complete b.epoch true r now b).0 in
      (r ≡ success → (b'.state ≡ closed) × (b'.consecutive_failures ≡ 0))
      × (r ≢ success → (b'.state ≡ opened) × (b'.open_until ≡ now + b.open_for))
      × ((probe : Bool) (late : Completion) (later : ℕ)
          → complete b.epoch probe late later b' ≡ (b', stay b'.state))
unfolding complete
probe_decides b success now h p e = (ground arith, ground arith, λ probe late later. ground arith)
probe_decides b failure now h p e = (ground arith, ground arith, λ probe late later. ground arith)
probe_decides b abort now h p e = (ground arith, ground arith, λ probe late later. ground arith)
