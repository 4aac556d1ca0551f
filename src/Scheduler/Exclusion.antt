-- ===== src/Scheduler/Exclusion.antt =====
-- Tasks whose paths overlap are never leased at once (scheduler.go: dispatchClaimed, Run).
use mathlib.Core.List.{Memᴰ}
use ferret_new.Scheduler.Budget.{can_retry}
use ferret_new.Base.{
  if◌then◌else◌, ◌≢◌, ==_iff, sym, ap, subst, ◌∙◌, All-mem, Bool-cases, inl, inr, refl, some, none,
  not, ◌&&◌, Option, ℕ, ◌≡◌, Bool, false, List, [], ◌∷◌, All, arith, ◌==◌, if_elim,
}
use ferret_new.Scheduler.Scope.{PathScope, InFlight, scope_for, scopes_overlap, conflicts}
use ferret_new.Scheduler.Scope.Overlap.{scopes_overlap_symm}
use ferret_new.Scheduler.Store.{
  conflict_cleanup, SchedulerError, path_in_flight, budget_cleanup, budget_exhausted, Reason,
  StoreOps,
}
use ferret_new.Scheduler.Order.{ClaimedTask}
use ferret_new.Scheduler.Dispatch.{
  Lease, Signal, sent, full, completed, next_send, follow, is_retry, Route, put, delete, Loop,
  Round, go_on, return, give_back, send, offer, dispatch_one, dispatch_claimed, route_for,
}

abbrev pub Apart : PathScope → ℕ × PathScope → Type 0
Apart scope entry = scopes_overlap scope entry.1 ≡ false

-- No two entries overlap.
abbrev pub NoOverlap : InFlight → Type 0
NoOverlap [] = Unit {0}
NoOverlap (e ∷ m) = All (Apart e.1) m × NoOverlap m

apart_symm : (l r : PathScope) → scopes_overlap l r ≡ false → scopes_overlap r l ≡ false
apart_symm l r h = ground (arith, scopes_overlap_symm r l)

conflicts-Apart :
    (scope : PathScope) (m : InFlight) → conflicts scope m ≡ false → All (Apart scope) m
unfolding conflicts
conflicts-Apart scope [] h = tt
conflicts-Apart scope (e ∷ m) h = (ground arith, conflicts-Apart scope m (ground arith))

All-put :
    (P : ℕ × PathScope → Type 0) (id : ℕ) (scope : PathScope) (m : InFlight)
    → P (id, scope)
    → All P m
    → All P (put id scope m)
unfolding put
All-put P id scope [] p h = (p, tt)
All-put P id scope ((j, other) ∷ m) p h =
    if_elim (All P) (j == id) (λ _. (p, h.1)) (λ _. (h.0, All-put P id scope m p h.1))

put-NoOverlap :
    (id : ℕ) (scope : PathScope) (m : InFlight)
    → All (Apart scope) m
    → NoOverlap m
    → NoOverlap (put id scope m)
unfolding put
put-NoOverlap id scope [] a h = (tt, tt)
put-NoOverlap id scope ((j, other) ∷ m) a h =
    if_elim NoOverlap (j == id) (λ _. (a.1, h.1))
      (λ _. (
        All-put (Apart other) id scope m (apart_symm scope other a.0) h.0,
        put-NoOverlap id scope m a.1 h.1,
      ))

All-delete : (P : ℕ × PathScope → Type 0) (id : ℕ) (m : InFlight) → All P m → All P (delete id m)
unfolding delete
All-delete P id [] h = tt
All-delete P id ((j, other) ∷ m) h =
    if_elim (All P) (j == id) (λ _. h.1) (λ _. (h.0, All-delete P id m h.1))

pub delete-NoOverlap : (id : ℕ) (m : InFlight) → NoOverlap m → NoOverlap (delete id m)
unfolding delete
delete-NoOverlap id [] h = tt
delete-NoOverlap id ((j, other) ∷ m) h =
    if_elim NoOverlap (j == id) (λ _. h.1)
      (λ _. (All-delete (Apart other) id m h.0, delete-NoOverlap id m h.1))

abbrev pub without : ℕ → List Lease → List Lease
without id [] = []
without id (a ∷ out) = let rest = without id out in if a.task.id == id then rest else a ∷ rest

-- The leases that are out: of each task the last one sent, unless its completion was received, or a
-- lease of the same task found the channel full, since then. This is read off the channels alone.
abbrev pub outstanding : List Signal → List Lease
outstanding [] = []
outstanding (sent a ∷ signals) = a ∷ without a.task.id (outstanding signals)
outstanding (full id ∷ signals) = without id (outstanding signals)
outstanding (completed id ∷ signals) = without id (outstanding signals)

abbrev entry_of : Lease → ℕ × PathScope
entry_of a = (a.task.id, scope_for a.task)

-- The map has the scope of every lease.
abbrev Covers : InFlight → List Lease → Type 0
Covers m out = All (λ a. Memᴰ (entry_of a) m) out

without-Covers :
    (id : ℕ) (m m' : InFlight) (out : List Lease)
    → ((e : ℕ × PathScope) → e.0 ≢ id → Memᴰ e m → Memᴰ e m')
    → Covers m out
    → Covers m' (without id out)
without-Covers id m m' [] k h = tt
without-Covers id m m' (a ∷ out) k h = elim (Bool-cases (a.task.id == id)) [
  | inl hit ↦ rw hit (without-Covers id m m' out k h.1)
  | inr miss ↦ rw miss (k (entry_of a) (λ e. ground arith) h.0, without-Covers id m m' out k h.1)
]

mem-put : (id : ℕ) (scope : PathScope) (m : InFlight) → Memᴰ (id, scope) (put id scope m)
unfolding put
mem-put id scope [] = Memᴰ.head refl
mem-put id scope ((j, other) ∷ m) =
    if_elim (Memᴰ (id, scope)) (j == id) (λ _. Memᴰ.head refl) (λ _. Memᴰ.tail (mem-put id scope m))

put-other :
    (id : ℕ) (scope : PathScope) (m : InFlight) (e : ℕ × PathScope)
    → e.0 ≢ id
    → Memᴰ e m
    → Memᴰ e (put id scope m)
unfolding put
put-other id scope [] e differ h = elim h [ ]
put-other id scope ((j, other) ∷ m) e differ (Memᴰ.head x) =
    if_elim (Memᴰ e) (j == id) (λ hit. absurd (differ (ap (λ p. p.0) x ∙ (==_iff j id).0 hit)))
      (λ _. Memᴰ.head x)
put-other id scope ((j, other) ∷ m) e differ (Memᴰ.tail h) =
    if_elim (Memᴰ e) (j == id) (λ _. Memᴰ.tail h) (λ _. Memᴰ.tail (put-other id scope m e differ h))

delete-other :
    (id : ℕ) (m : InFlight) (e : ℕ × PathScope) → e.0 ≢ id → Memᴰ e m → Memᴰ e (delete id m)
unfolding delete
delete-other id [] e differ h = elim h [ ]
delete-other id ((j, other) ∷ m) e differ (Memᴰ.head x) =
    if_elim (Memᴰ e) (j == id) (λ hit. absurd (differ (ap (λ p. p.0) x ∙ (==_iff j id).0 hit)))
      (λ _. Memᴰ.head x)
delete-other id ((j, other) ∷ m) e differ (Memᴰ.tail h) =
    if_elim (Memᴰ e) (j == id) (λ _. h) (λ _. Memᴰ.tail (delete-other id m e differ h))

put-Covers :
    (a : Lease) (m : InFlight) (out : List Lease)
    → Covers m out
    → Covers (put a.task.id (scope_for a.task) m) (a ∷ without a.task.id out)
put-Covers a m out h = (
  mem-put a.task.id (scope_for a.task) m,
  without-Covers a.task.id m _ out (put-other a.task.id (scope_for a.task) m) h,
)

delete-Covers :
    (id : ℕ) (m : InFlight) (out : List Lease)
    → Covers m out
    → Covers (delete id m) (without id out)
delete-Covers id m out h = without-Covers id m (delete id m) out (delete-other id m) h

-- A lease that is refused leaves the map without its task.
refused-Covers :
    (id : ℕ) (scope : PathScope) (m : InFlight) (out : List Lease)
    → Covers m out
    → Covers (delete id (put id scope m)) (without id out)
refused-Covers id scope m out h =
    without-Covers id m _ out
      (λ e differ k. delete-other id (put id scope m) e differ (put-other id scope m e differ k)) h

-- The scopes of different tasks of the map, and of their leases, do not overlap.
NoOverlap-Apart :
    (m : InFlight) (d e : ℕ × PathScope)
    → NoOverlap m
    → Memᴰ d m
    → Memᴰ e m
    → d.0 ≢ e.0
    → scopes_overlap d.1 e.1 ≡ false
NoOverlap-Apart [] d e h k l differ = elim k [ ]
NoOverlap-Apart (x ∷ m) d e h (Memᴰ.head a) (Memᴰ.head b) differ =
    absurd (differ (ap (λ p. p.0) (a ∙ sym b)))
NoOverlap-Apart (x ∷ m) d e h (Memᴰ.head a) (Memᴰ.tail l) differ =
    subst (λ p. scopes_overlap p.1 e.1 ≡ false) (sym a) (All-mem (Apart x.1) e m h.0 l)
NoOverlap-Apart (x ∷ m) d e h (Memᴰ.tail k) (Memᴰ.head b) differ =
    subst (λ p. scopes_overlap d.1 p.1 ≡ false) (sym b)
      (apart_symm x.1 d.1 (All-mem (Apart x.1) d m h.0 k))
NoOverlap-Apart (x ∷ m) d e h (Memᴰ.tail k) (Memᴰ.tail l) differ =
    NoOverlap-Apart m d e h.1 k l differ

-- No two tasks in flight overlap, and every lease that is out is in flight.
abbrev pub IsSafe : {S : Type 0} → Loop S → Type 0
IsSafe l = NoOverlap l.in_flight × Covers l.in_flight (outstanding l.signals)

-- The scopes of the leases that are out are disjoint.
abbrev pub AreDisjoint : List Lease → Type 0
AreDisjoint out =
    (a b : Lease)
    → Memᴰ a out
    → Memᴰ b out
    → a.task.id ≢ b.task.id
    → scopes_overlap (scope_for a.task) (scope_for b.task) ≡ false

pub IsSafe-disjoint : {S : Type 0} → (l : Loop S) → IsSafe l → AreDisjoint (outstanding l.signals)
IsSafe-disjoint l h a b k m differ =
    NoOverlap-Apart l.in_flight (entry_of a) (entry_of b) h.0
      (All-mem (λ a. Memᴰ (entry_of a) l.in_flight) a _ h.1 k)
      (All-mem (λ a. Memᴰ (entry_of a) l.in_flight) b _ h.1 m) differ

pub completed-IsSafe :
    (id : ℕ) (m : InFlight) (signals : List Signal)
    → NoOverlap m × Covers m (outstanding signals)
    → NoOverlap (delete id m) × Covers (delete id m) (outstanding (completed id ∷ signals))
completed-IsSafe id m signals h =
    (delete-NoOverlap id m h.0, delete-Covers id m (outstanding signals) h.1)

abbrev LeavesSafe : {S E : Type 0} → Round S E → Type 0
LeavesSafe (go_on l) = IsSafe l
LeavesSafe (return l errs) = IsSafe l

follow-IsSafe :
    {S E : Type 0} (r : Round S E) (rest : Loop S → Loop S × List (SchedulerError E))
    → LeavesSafe r
    → ((l : Loop S) → IsSafe l → IsSafe (rest l).0)
    → IsSafe (follow r rest).0
follow-IsSafe (go_on l) rest h k = k l h
follow-IsSafe (return l errs) rest h k = h

module _ {S E : Type 0} (ops : StoreOps S E) (conflict_delay now : ℕ) where
  give_back-LeavesSafe :
      (r r' : Reason) (c : ClaimedTask) (rest : List ClaimedTask) (l : Loop S)
      → IsSafe l
      → LeavesSafe (give_back ops conflict_delay now r r' c rest l)
  unfolding give_back
  give_back-LeavesSafe r r' c rest l h = ground arith

  send-LeavesSafe :
      (budgeted : Bool) (route : Route) (c : ClaimedTask) (rest : List ClaimedTask) (l : Loop S)
      → conflicts (scope_for c.task) l.in_flight ≡ false
      → IsSafe l
      → LeavesSafe (send ops conflict_delay now budgeted route c rest l)
  unfolding send
  send-LeavesSafe budgeted route c rest l free h =
      let put_safe =
        put-NoOverlap c.task.id (scope_for c.task) l.in_flight
          (conflicts-Apart (scope_for c.task) l.in_flight free) h.0 in
      let leased = outstanding l.signals in
      if_elim (LeavesSafe {S = S} {E = E}) (next_send l.sends)
        (λ _.
          (put_safe, put-Covers (record { task = c.task; route = route }) l.in_flight leased h.1))
        (λ _. (
          delete-NoOverlap c.task.id _ put_safe,
          refused-Covers c.task.id (scope_for c.task) l.in_flight leased h.1,
        ))

  offer-LeavesSafe :
      (budgeted : Bool) (route : Option Route) (c : ClaimedTask) (rest : List ClaimedTask)
      (l : Loop S)
      → IsSafe l
      → LeavesSafe (offer ops conflict_delay now budgeted route c rest l)
  unfolding offer
  offer-LeavesSafe budgeted none c rest l h = h
  offer-LeavesSafe budgeted (some route) c rest l h =
      if_elim (LeavesSafe {S = S} {E = E}) (conflicts (scope_for c.task) l.in_flight)
        (λ _. give_back-LeavesSafe path_in_flight conflict_cleanup c rest l h)
        (λ free. send-LeavesSafe budgeted route c rest l free h)

  dispatch_one-LeavesSafe :
      (fresh_exhausted : Bool) (c : ClaimedTask) (rest : List ClaimedTask) (l : Loop S)
      → IsSafe l
      → LeavesSafe (dispatch_one ops conflict_delay now fresh_exhausted c rest l)
  unfolding dispatch_one
  dispatch_one-LeavesSafe fresh_exhausted c rest l h =
      let budgeted = is_retry c.source && can_retry l.budget in
      if_elim (LeavesSafe {S = S} {E = E})
        (is_retry c.source && not budgeted && not fresh_exhausted)
        (λ _. give_back-LeavesSafe budget_exhausted budget_cleanup c rest l h)
        (λ _. offer-LeavesSafe budgeted (route_for c.task.op) c rest l h)

  -- If no two tasks in flight overlap, and every lease that is out is in flight, then so it is after a
  -- batch was dispatched.
  pub dispatch_claimed-IsSafe :
      (fresh_exhausted : Bool) (cs : List ClaimedTask) (l : Loop S)
      → IsSafe l
      → IsSafe (dispatch_claimed ops conflict_delay now fresh_exhausted cs l).0
  unfolding dispatch_claimed
  dispatch_claimed-IsSafe fresh_exhausted [] l h = h
  dispatch_claimed-IsSafe fresh_exhausted (c ∷ rest) l h =
      follow-IsSafe (dispatch_one ops conflict_delay now fresh_exhausted c rest l)
        (dispatch_claimed ops conflict_delay now fresh_exhausted rest)
        (dispatch_one-LeavesSafe fresh_exhausted c rest l h)
        (dispatch_claimed-IsSafe fresh_exhausted rest)
