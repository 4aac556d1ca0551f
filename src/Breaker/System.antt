-- ===== src/Breaker/System.antt =====
-- A breaker (breaker.go) with every permit that it ever gave out, under any sequence of calls. A
-- call holds the mutex throughout, so the calls of concurrent callers are such a sequence.
use ferret_new.Base.{
  ℕ, ◌+◌, Bool, not, ◌&&◌, Option, none, some, List, [], ◌∷◌, ◌++◌, get_elem?, set, ◌==◌,
  if◌then◌else◌,
}
use ferret_new.Breaker.{
  Completion, Breaker, Permit, Admission, admitted, refused, allow, snapshot, with_half_open_idle,
  finish_once,
}

pub record System : Type 0 where
  pub breaker : Breaker
  pub permits : List Permit

-- `finishes i r now` is Success, Failure or Abort on the i-th permit; `releases` is
-- withHalfOpenIdle, whose callback leaves the breaker alone.
pub data Call : Type 0 where
  allows : ℕ → Call
  snapshots : ℕ → Call
  releases : ℕ → ℕ → Call
  finishes : ℕ → Completion → ℕ → Call

abbrev pub issue : Admission → List Permit → List Permit
issue (admitted p) ps = ps ++ p ∷ []
issue (refused e) ps = ps

unfoldable pub finish_at : Option Permit → ℕ → Completion → ℕ → System → System
finish_at none i r now s = s
finish_at (some p) i r now s =
    let (p', b') = finish_once r now p s.breaker in
    record { breaker = b'; permits = set s.permits i p' }

abbrev pub no_release : Unit {0} → Unit {0} × Unit {0}
no_release u = (u, u)

unfoldable pub step : System → Call → System
unfolding finish_at
step s (allows now) =
    let (b', r) = allow now s.breaker in record { breaker = b'; permits = issue r s.permits }
step s (snapshots now) = record s { breaker = (snapshot now s.breaker).0 }
step s (releases now epoch) = record s {
  breaker = (with_half_open_idle now epoch no_release s.breaker tt).0;
}
step s (finishes i r now) = finish_at (get_elem? s.permits i) i r now s

unfoldable pub run : System → List Call → System
run s [] = s
run s (c ∷ cs) = run (step s c) cs

abbrev pub start : Breaker → System
start b = record { breaker = b; permits = [] }

-- A half-open probe of the present epoch that has not been completed.
abbrev pub is_live_probe : ℕ → Permit → Bool
is_live_probe epoch p = p.probe && not p.finished && p.epoch == epoch

unfoldable pub live_probes : ℕ → List Permit → ℕ
live_probes epoch [] = 0
live_probes epoch (p ∷ ps) = (if is_live_probe epoch p then 1 else 0) + live_probes epoch ps
