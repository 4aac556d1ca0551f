-- ===== src/Controller/Closing.antt =====
-- What closes the breaker: a completion whose transition says so (breaker.go, as controller.go uses it).
use ferret_new.Breaker.{
  complete, half_open, opened, is_half_open, Permit, half_open_result, state_eq, Admission,
  is_opened, Completion, complete, State, closed, Transition, complete_in, Breaker,
  with_half_open_idle, advance_locked, made, allow, admit, finish_once, settle, snapshot,
}
use ferret_new.Base.{
  ltb, ◌==◌, ℕ, ◌≡◌, refl, sym, ◌∙◌, ◌⊎◌, inl, inr, Bool, true, not, ◌||◌, Option, none, some,
  if_elim,
}

made-state : (t : Transition) (b : Breaker) → (made t b).state ≡ b.state
unfolding made
made-state t b = if_elim {A = Breaker} (λ d. d.state ≡ b.state) t.changed (λ _. refl) (λ _. refl)

-- Time does not close a breaker.
advance_locked-closed :
    (now : ℕ) (b : Breaker) → (advance_locked now b).0.state ≡ closed → b.state ≡ closed
unfolding advance_locked
advance_locked-closed now b =
    if_elim {A = Breaker × Transition} (λ r. r.0.state ≡ closed → b.state ≡ closed)
      (not (is_opened b.state) || ltb now b.open_until) (λ _ e. e) (λ _ e. cc)

admit-state : (s : State) (b : Breaker) → (admit s b).0.state ≡ b.state
unfolding admit
admit-state closed b = refl
admit-state opened b = refl
admit-state half_open b =
    if_elim {A = Breaker × Admission} (λ r. r.0.state ≡ b.state) b.probe_in_flight (λ _. refl)
      (λ _. refl)

pub allow-closed : (now : ℕ) (b : Breaker) → (allow now b).0.state ≡ closed → b.state ≡ closed
unfolding allow
allow-closed now b e =
    let (b', t) = advance_locked now b in
    advance_locked-closed now b (
      sym (admit-state (advance_locked now b).0.state (advance_locked now b).0)
      ∙ (sym (
            made-state (advance_locked now b).1
              (admit (advance_locked now b).0.state (advance_locked now b).0).0)
          ∙ e))

pub snapshot-state : (now : ℕ) (b : Breaker) → (snapshot now b).0.state ≡ (snapshot now b).1.state
unfolding snapshot
snapshot-state now b = made-state (advance_locked now b).1 (advance_locked now b).0

pub closed-snapshot : (now : ℕ) (b : Breaker) → b.state ≡ closed → (snapshot now b).1.state ≡ closed
unfolding snapshot advance_locked
closed-snapshot now b e = rw e refl

pub snapshot-closed : (now : ℕ) (b : Breaker) → (snapshot now b).1.state ≡ closed → b.state ≡ closed
unfolding snapshot
snapshot-closed now b e = advance_locked-closed now b e

-- A completion closes the breaker only with a transition that says so.
abbrev pub Closes : Breaker → Breaker × Transition → Type 0
Closes b (b', t) = b'.state ≡ closed → (b.state ≡ closed) ⊎ ((t.changed ≡ true) × (t.to ≡ closed))

settle-Closes : (from : State) (b b' : Breaker) → (from ≡ b.state) → Closes b (settle from b')
unfolding settle
settle-Closes closed b b' e c = inl (sym e)
settle-Closes half_open b b' e c = inr (at b'.state (closes c), closes c)
  where
    closes :
        (made
            (record {
              from = half_open;
              to = b'.state;
              changed = not (state_eq half_open b'.state);
              accepted = true;
            })
            b').state
          ≡ closed
        → b'.state ≡ closed
    closes c = sym (made-state _ b') ∙ c

    at : (s : State) → s ≡ closed → not (state_eq half_open s) ≡ true
    at closed e = refl
    at half_open e = cc
    at opened e = refl
settle-Closes opened b b' e c = inr (at b'.state (closes c), closes c)
  where
    closes :
        (made
            (record {
              from = opened;
              to = b'.state;
              changed = not (state_eq opened b'.state);
              accepted = true;
            })
            b').state
          ≡ closed
        → b'.state ≡ closed
    closes c = sym (made-state _ b') ∙ c

    at : (s : State) → s ≡ closed → not (state_eq opened s) ≡ true
    at closed e = refl
    at half_open e = refl
    at opened e = cc

complete_in-Closes :
    (s : State) (probe : Bool) (result : Completion) (now : ℕ) (b : Breaker)
    → s ≡ b.state
    → Closes b (complete_in s probe result now b)
unfolding complete_in
complete_in-Closes closed probe result now b e c = inl (sym e)
complete_in-Closes opened probe result now b e c = inl c
complete_in-Closes half_open probe result now b e c =
    if_elim (Closes b) (not probe || not b.probe_in_flight) (λ _ c. inl c)
      (λ _. settle-Closes half_open b (half_open_result result now b) e) c

complete-Closes :
    (epoch : ℕ) (probe : Bool) (result : Completion) (now : ℕ) (b : Breaker)
    → Closes b (complete epoch probe result now b)
unfolding complete
complete-Closes epoch probe result now b =
    if_elim (Closes b) (epoch == b.epoch) (λ _. complete_in-Closes b.state probe result now b refl)
      (λ _ c. inl c)

pub finish_once-Closes :
    (result : Completion) (now : ℕ) (p : Permit) (b : Breaker)
    → Closes b ((finish_once result now p b).1, (finish_once result now p b).0.transition)
unfolding finish_once
finish_once-Closes result now p b =
    if_elim {A = Permit × Breaker} (λ r. Closes b (r.1, r.0.transition)) p.finished (λ _ c. inl c)
      (λ _. complete-Closes p.epoch p.probe result now b)

-- The two ways in which a release of a probe candidate ends; neither closes the breaker.
pub with_half_open_idle-cases :
    {S R : Type 0}
    → (P : Breaker × S × Option R → Type 0) (now epoch : ℕ) (release : S → S × R) (b : Breaker)
      (s : S)
    → ((b' : Breaker) → (b'.state ≡ closed → b.state ≡ closed) → P (b', s, none))
    → ((b' : Breaker)
        → (b'.state ≡ closed → b.state ≡ closed)
        → P (b', (release s).0, some (release s).1))
    → P (with_half_open_idle now epoch release b s)
unfolding with_half_open_idle
with_half_open_idle-cases {S} {R} P now epoch release b s busy idle =
    let b' = (advance_locked now b).0 in
    let t = (advance_locked now b).1 in
    let opens : (made t b').state ≡ closed → b.state ≡ closed =
      λ e. advance_locked-closed now b (sym (made-state t b') ∙ e) in
    if_elim {A = Breaker × S × Option R} P
      (not (is_half_open b'.state) || not (b'.epoch == epoch) || b'.probe_in_flight)
      (λ _. busy (made t b') opens) (λ _. idle (made t b') opens)
