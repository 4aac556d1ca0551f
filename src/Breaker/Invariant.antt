-- ===== src/Breaker/Invariant.antt =====
-- What holds of a breaker (breaker.go) and its permits between two calls.
use ferret_new.Base.{
  subst, ℕ, zero, suc, ◌+◌, ◌^◌, ◌≤◌, ◌<◌, ◌≡◌, refl, Bool, true, false, ◌⊎◌, inl, inr, Option,
  none, some, List, [], ◌∷◌, ◌++◌, get_elem?, set, length, All, All-append, All-map, All-set,
  All-get_elem?, set_self, if◌then◌else◌, if_elim, arith, Bool-cases,
}
use native.Mathlib.Nat.{add-zero}
use ferret_new.Breaker.{
  State, closed, half_open, opened, Transition, Completion, Breaker, Permit, Admission, allow,
  snapshot, with_half_open_idle, finish_once, advance_locked, admit, made, complete,
}
use ferret_new.Breaker.System.{
  System, Call, allows, snapshots, releases, finishes, issue, finish_at, step, run, start,
  is_live_probe, live_probes,
}

-- The fields of a breaker fit its state.
pub record IsCoherent (b : Breaker) : Type 0 where
  pub positive : 0 < b.failures
  pub probe_half_open : b.probe_in_flight ≡ true → b.state ≡ half_open
  pub below_threshold : b.state ≡ closed → b.consecutive_failures < b.failures

pub advance_locked-IsCoherent :
    (now : ℕ) (b : Breaker) → IsCoherent b → IsCoherent (advance_locked now b).0
unfolding advance_locked
advance_locked-IsCoherent now b h = ground arith

pub allow-IsCoherent : (now : ℕ) (b : Breaker) → IsCoherent b → IsCoherent (allow now b).0
unfolding allow
allow-IsCoherent now b h = ground arith

pub complete-IsCoherent :
    (e : ℕ) (p : Bool) (r : Completion) (now : ℕ) (b : Breaker)
    → IsCoherent b
    → IsCoherent (complete e p r now b).0
unfolding complete
complete-IsCoherent e p r now b h = ground arith

-- No permit is of a later epoch than the breaker.
abbrev pub NotAfter : ℕ → Permit → Type 0
NotAfter e p = p.epoch ≤ e

-- Permits of earlier epochs are not live.
live_probes_later :
    (e f : ℕ) (ps : List Permit) → All (NotAfter e) ps → e < f → live_probes f ps ≡ 0
unfolding live_probes
live_probes_later e f [] h lt = refl
live_probes_later e f (p ∷ ps) h lt = ground (arith, live_probes_later e f ps h.1 lt)

live_probes-append :
    (e : ℕ) (ps : List Permit) (p : Permit)
    → live_probes e (ps ++ p ∷ []) ≡ live_probes e ps + (if is_live_probe e p then 1 else 0)
unfolding live_probes
live_probes-append e [] p = omega arith
live_probes-append e (q ∷ ps) p = omega (arith, live_probes-append e ps p)

-- A write to one place changes the count by what stood there.
live_probes-set :
    (e : ℕ) (ps : List Permit) (i : ℕ) (p q : Permit)
    → get_elem? ps i ≡ some p
    → live_probes e (set ps i q) + (if is_live_probe e p then 1 else 0)
      ≡ live_probes e ps + (if is_live_probe e q then 1 else 0)
unfolding live_probes
live_probes-set e [] i p q h = cc
live_probes-set e (x ∷ ps) zero p q h = ground arith
live_probes-set e (x ∷ ps) (suc i) p q h = omega (arith, live_probes-set e ps i p q h)

-- The invariant of a system after n calls: the only live probes are the one that the breaker
-- counts as in flight.
pub record Inv (n : ℕ) (s : System) : Type 0 where
  pub coherent : IsCoherent s.breaker
  pub epoch_le : s.breaker.epoch ≤ n
  pub not_after : All (NotAfter s.breaker.epoch) s.permits
  pub counted : live_probes s.breaker.epoch s.permits ≡ (if s.breaker.probe_in_flight then 1 else 0)

NotAfter-mono : {e f : ℕ} (ps : List Permit) → e ≤ f → All (NotAfter e) ps → All (NotAfter f) ps
NotAfter-mono {e} {f} ps h = All-map (NotAfter e) (NotAfter f) (λ p k. omega arith) ps

-- The count after the breaker moved to the next epoch, or stayed.
live_probes_moved :
    (b b' : Breaker) (ps : List Permit)
    → All (NotAfter b.epoch) ps
    → live_probes b.epoch ps ≡ (if b.probe_in_flight then 1 else 0)
    → ((b'.epoch ≡ b.epoch) × (b'.probe_in_flight ≡ b.probe_in_flight))
      ⊎ ((b'.epoch ≡ b.epoch + 1) × (b'.probe_in_flight ≡ false))
    → live_probes b'.epoch ps ≡ (if b'.probe_in_flight then 1 else 0)
live_probes_moved b b' ps h k (inl (e, p)) = rw (e, p) k
live_probes_moved b b' ps h k (inr (e, p)) =
    rw (e, p) (live_probes_later b.epoch (b.epoch + 1) ps h (omega arith))

abbrev Moved : Breaker → Breaker → Type 0
Moved b b' =
    ((b'.epoch ≡ b.epoch) × (b'.probe_in_flight ≡ b.probe_in_flight))
    ⊎ ((b'.epoch ≡ b.epoch + 1) × (b'.probe_in_flight ≡ false))

-- A new permit, not counted before, is counted if it is a probe.
issue-Inv :
    (m : ℕ) (b : Breaker) (ps : List Permit) (p : Permit)
    (inv : Inv m (record { breaker = b; permits = ps }))
    → p.epoch ≡ b.epoch
    → p.finished ≡ false
    → (b' : Breaker) → IsCoherent b'
    → b'.epoch ≡ b.epoch
    → (if b'.probe_in_flight then 1 else 0)
      ≡ (if b.probe_in_flight then 1 else 0) + (if p.probe then 1 else 0)
    → Inv m (record { breaker = b'; permits = ps ++ p ∷ [] })
issue-Inv m b ps p inv pe pf b' c e k = record {
  coherent = c;
  epoch_le = omega (arith, inv.epoch_le);
  not_after = rw e (All-append (NotAfter b.epoch) ps (p ∷ []) inv.not_after (omega arith, tt));
  counted = ground (arith, live_probes-append b.epoch ps p, inv.counted);
}

admit-Inv :
    (m : ℕ) (b : Breaker) (ps : List Permit) (st : State)
    → b.state ≡ st
    → Inv m (record { breaker = b; permits = ps })
    → Inv m (record { breaker = (admit st b).0; permits = issue (admit st b).1 ps })
unfolding admit
admit-Inv m b ps closed e inv = issue-Inv m b ps _ inv refl refl b inv.coherent refl (omega arith)
admit-Inv m b ps opened e inv = inv
admit-Inv m b ps half_open e inv =
    if_elim (λ (r : Breaker × Admission). Inv m (record { breaker = r.0; permits = issue r.1 ps }))
      b.probe_in_flight (λ _. inv)
      (λ free.
        issue-Inv m b ps _ inv refl refl _ (ground (arith, inv.coherent)) refl (ground arith))

made-Inv :
    (m : ℕ) (t : Transition) (b : Breaker) (ps : List Permit)
    → Inv m (record { breaker = b; permits = ps })
    → Inv m (record { breaker = made t b; permits = ps })
unfolding made
made-Inv m t b ps inv = elim (Bool-cases t.changed) [
  | inl told ↦ rw told (record {
    coherent = ground (arith, inv.coherent);
    epoch_le = inv.epoch_le;
    not_after = inv.not_after;
    counted = inv.counted;
  })
  | inr quiet ↦ rw quiet inv
]

module _ (n : ℕ) (s : System) (inv : Inv n s) (room : n + 1 < 2 ^ 64) where
  -- Calls that leave the permits alone.
  move-Inv :
      (b' : Breaker)
      → IsCoherent b'
      → Moved s.breaker b'
      → Inv (n + 1) (record { breaker = b'; permits = s.permits })
  move-Inv b' c m = record {
    coherent = c;
    epoch_le = ground (arith, inv.epoch_le);
    not_after = NotAfter-mono s.permits (ground arith) inv.not_after;
    counted = live_probes_moved s.breaker b' s.permits inv.not_after inv.counted m;
  }

  advance_locked-Moved : (now : ℕ) → Moved s.breaker (advance_locked now s.breaker).0
  unfolding advance_locked
  advance_locked-Moved now = ground (arith, inv.epoch_le)

  snapshots-Inv : (now : ℕ) → Inv (n + 1) (step s (snapshots now))
  unfolding step snapshot
  snapshots-Inv now = move-Inv _ (ground (arith, inv.coherent)) (ground (arith, inv.epoch_le))

  releases-Inv : (now e : ℕ) → Inv (n + 1) (step s (releases now e))
  unfolding step with_half_open_idle
  releases-Inv now e = move-Inv _ (ground (arith, inv.coherent)) (ground (arith, inv.epoch_le))

  allows-Inv : (now : ℕ) → Inv (n + 1) (step s (allows now))
  unfolding step allow
  allows-Inv now = made-Inv (n + 1) _ _ _ (
      admit-Inv (n + 1) _ s.permits _ refl (
        move-Inv _ (advance_locked-IsCoherent now s.breaker inv.coherent)
          (advance_locked-Moved now)))

  complete-Moved :
      (e : ℕ) (probe : Bool) (r : Completion) (now : ℕ)
      → Moved s.breaker (complete e probe r now s.breaker).0
  unfolding complete
  complete-Moved e probe r now = ground (arith, inv.epoch_le, inv.coherent)

  -- A live probe is the one in flight, and so completing it moves the epoch.
  live_probe_moves :
      (i : ℕ) (p : Permit) (r : Completion) (now : ℕ)
      → get_elem? s.permits i ≡ some p
      → is_live_probe s.breaker.epoch p ≡ true
      → (complete p.epoch p.probe r now s.breaker).0.epoch ≡ s.breaker.epoch + 1
  unfolding complete
  live_probe_moves i p r now e live = ground (
    arith,
    inv.counted,
    inv.coherent,
    inv.epoch_le,
    live_probes-set s.breaker.epoch s.permits i p (record p { finished = true }) e,
  )

  completed-Inv :
      (i : ℕ) (p : Permit) (r : Completion) (now : ℕ) (t : Transition)
      → get_elem? s.permits i ≡ some p
      → Inv (n + 1) (record {
        breaker = (complete p.epoch p.probe r now s.breaker).0;
        permits = set s.permits i (record p { finished = true; transition = t });
      })
  completed-Inv i p r now t e = record {
    coherent = complete-IsCoherent p.epoch p.probe r now s.breaker inv.coherent;
    epoch_le = ground (arith, inv.epoch_le, complete-Moved p.epoch p.probe r now);
    not_after = NotAfter-mono _ (ground (arith, complete-Moved p.epoch p.probe r now)) kept;
    counted = counted_after (complete-Moved p.epoch p.probe r now);
  }
    where
      kept :
          All
            (NotAfter s.breaker.epoch)
            (set s.permits i (record p { finished = true; transition = t }))
      kept =
          All-set (NotAfter s.breaker.epoch) s.permits i _ inv.not_after
            (All-get_elem? (NotAfter s.breaker.epoch) s.permits i p inv.not_after e)

      counted_after :
          Moved s.breaker (complete p.epoch p.probe r now s.breaker).0
          → live_probes
              (complete p.epoch p.probe r now s.breaker).0.epoch
              (set s.permits i (record p { finished = true; transition = t }))
            ≡ (if (complete p.epoch p.probe r now s.breaker).0.probe_in_flight then 1 else 0)
      counted_after (inl (same, kept_flag)) =
          rw (same, kept_flag)
            (ground (
              arith,
              inv.counted,
              same,
              live_probe_moves i p r now e,
              live_probes-set s.breaker.epoch s.permits i p
                  (record p { finished = true; transition = t }) e,
            ))
      counted_after (inr (next, cleared)) =
          rw (next, cleared) (live_probes_later s.breaker.epoch _ _ kept (omega arith))

  finish_at-Inv :
      (o : Option Permit) (i : ℕ) (r : Completion) (now : ℕ)
      → get_elem? s.permits i ≡ o
      → Inv (n + 1) (finish_at o i r now s)
  unfolding finish_at finish_once
  finish_at-Inv none i r now e = move-Inv s.breaker inv.coherent (inl (refl, refl))
  finish_at-Inv (some p) i r now e =
      if_elim
        (λ (q : Permit × Breaker).
          Inv (n + 1) (record { breaker = q.1; permits = set s.permits i q.0 }))
        p.finished
        (λ _. rw (set_self s.permits i p e) (move-Inv s.breaker inv.coherent (inl (refl, refl))))
        (λ _. completed-Inv i p r now _ e)

  step-Inv : (c : Call) → Inv (n + 1) (step s c)
  unfolding step
  step-Inv (allows now) = allows-Inv now
  step-Inv (snapshots now) = snapshots-Inv now
  step-Inv (releases now e) = releases-Inv now e
  step-Inv (finishes i r now) = finish_at-Inv (get_elem? s.permits i) i r now refl

pub start-Inv :
    (b : Breaker) → IsCoherent b → b.epoch ≡ 0 → b.probe_in_flight ≡ false → Inv 0 (start b)
unfolding live_probes
start-Inv b c e p = record {
  coherent = c;
  epoch_le = omega arith;
  not_after = tt;
  counted = ground arith;
}

pub run-Inv :
    (n : ℕ) (s : System) (cs : List Call)
    → Inv n s
    → n + length cs < 2 ^ 64
    → Inv (n + length cs) (run s cs)
unfolding run
run-Inv n s [] inv room = rw add-zero inv
run-Inv n s (c ∷ cs) inv room =
    subst (λ k. Inv k (run (step s c) cs)) (omega arith)
      (run-Inv (n + 1) (step s c) cs (step-Inv n s inv (omega arith) c) (omega arith))
