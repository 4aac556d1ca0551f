-- ===== src/Breaker/Diagram.antt =====
-- The transitions of a breaker follow its state diagram (breaker.go).
use ferret_new.Base.{ℕ, ◌≡◌, Bool, Option, none, some, List, [], ◌∷◌, arith}
use ferret_new.Breaker.{
  State, closed, half_open, opened, Completion, Transition, Breaker, Permit, Config, new_breaker,
  allow, snapshot, with_half_open_idle, complete, finish_once,
}
use ferret_new.Breaker.System.{
  System, Call, allows, snapshots, releases, finishes, finish_at, no_release, step, run, start,
}

-- The state diagram.
pub data Edge : State → State → Type 0 where
  trip : Edge closed opened
  cool : Edge opened half_open
  recover : Edge half_open closed
  relapse : Edge half_open opened

-- A history of transitions, newest first, leads from the closed state to the given one.
abbrev pub LeadsTo : List Transition → State → Type 0
LeadsTo [] s = s ≡ closed
LeadsTo (t ∷ ts) s = (t.to ≡ s) × Edge t.from t.to × LeadsTo ts t.from

abbrev IsTraced : Breaker → Type 0
IsTraced b = LeadsTo b.transitions b.state

allow-IsTraced : (now : ℕ) (b : Breaker) → IsTraced b → IsTraced (allow now b).0
unfolding allow
allow-IsTraced now b h = grind (arith, cool)

snapshot-IsTraced : (now : ℕ) (b : Breaker) → IsTraced b → IsTraced (snapshot now b).0
unfolding snapshot
snapshot-IsTraced now b h = grind (arith, cool)

release-IsTraced :
    (now e : ℕ) (b : Breaker) → IsTraced b → IsTraced (with_half_open_idle now e no_release b tt).0
unfolding with_half_open_idle
release-IsTraced now e b h = grind (arith, cool)

complete-IsTraced :
    (e : ℕ) (p : Bool) (r : Completion) (now : ℕ) (b : Breaker)
    → IsTraced b
    → IsTraced (complete e p r now b).0
unfolding complete
complete-IsTraced e p r now b h = grind (arith, trip, recover, relapse)

finish_at-IsTraced :
    (o : Option Permit) (i : ℕ) (r : Completion) (now : ℕ) (s : System)
    → IsTraced s.breaker
    → IsTraced (finish_at o i r now s).breaker
unfolding finish_at finish_once
finish_at-IsTraced none i r now s h = h
finish_at-IsTraced (some p) i r now s h =
    ground (arith, complete-IsTraced p.epoch p.probe r now s.breaker h)

step-IsTraced : (s : System) (c : Call) → IsTraced s.breaker → IsTraced (step s c).breaker
unfolding step
step-IsTraced s (allows now) h = allow-IsTraced now s.breaker h
step-IsTraced s (snapshots now) h = snapshot-IsTraced now s.breaker h
step-IsTraced s (releases now e) h = release-IsTraced now e s.breaker h
step-IsTraced s (finishes i r now) h = finish_at-IsTraced _ i r now s h

run-IsTraced : (s : System) (cs : List Call) → IsTraced s.breaker → IsTraced (run s cs).breaker
unfolding run
run-IsTraced s [] h = h
run-IsTraced s (c ∷ cs) h = run-IsTraced (step s c) cs (step-IsTraced s c h)

-- Over any sequence of calls on a new breaker, the transitions that are made under its mutex, in their
-- order, start at closed, each begins where the one before ended, the last ends in the present state,
-- and each is an edge of the diagram (closed to open, open to half-open, half-open to closed or open).
pub transitions-LeadsTo :
    (c : Config) (b : Breaker) (cs : List Call)
    → new_breaker c ≡ some b
    → LeadsTo (run (start b) cs).breaker.transitions (run (start b) cs).breaker.state
unfolding new_breaker
transitions-LeadsTo c b cs h = run-IsTraced (start b) cs (ground arith)
