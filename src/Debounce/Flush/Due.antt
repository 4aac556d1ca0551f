-- ===== src/Debounce/Flush/Due.antt =====
-- What a flush leaves pending (debounce.go: flushDue, flushAll, peek, remove).
use ferret_new.Base.{
  ap, ◌∙◌, Bool-cases, ◌⊎◌, sym, ℕ, zero, suc, ◌<◌, ◌≡◌, refl, inl, inr, Bool, true, false, Option,
  none, some, List, [], ◌∷◌, arith, subst, if_elim, Option-cases, length, ltb, if◌then◌else◌,
}
use ferret_new.Base.Bytes.{text_eq_iff, text_eq, Text}
use ferret_new.Base.TextMap.{lookup, delete, lookup-delete, length-delete-lt}
use ferret_new.Debounce.Pending.{
  PendingChange, DeadlineEntry, PendingState, discard_stale, peek, peek_top, remove, forget,
}
use ferret_new.Debounce.Pending.Deadlines.{Inv, forget-Inv, discard_stale-Inv, drop_stale_head}
use ferret_new.Debounce.Pending.Exact.{nothing_listed, Top-Top}
use ferret_new.Debounce.Flush.{
  flush_after, flush_round, FlushOps, persist, FlushEnd, flushed, failed, out_of_fuel, flush_loop,
  flush_due, flush_all,
}

-- Whether a flush takes a change.
abbrev pub is_due : Bool → ℕ → PendingChange → Bool
is_due true now p = true
is_due false now p = if ltb now p.deadline then false else true

-- What a flush leaves of a pending change.
abbrev pub keep_later : Bool → ℕ → Option PendingChange → Option PendingChange
keep_later all now none = none
keep_later all now (some p) = if is_due all now p then none else some p

-- What peek gives: a due change of the map, or none when no change is due.
abbrev Peeked : Bool → ℕ → PendingState → Option PendingChange → Type 0
Peeked all now s none = (k : Text) → lookup k s.by_path ≡ keep_later all now (lookup k s.by_path)
Peeked all now s (some p) = (lookup p.key s.by_path ≡ some p) × (is_due all now p ≡ true)

none_kept : (all : Bool) (now : ℕ) (o : Option PendingChange) → o ≡ none → o ≡ keep_later all now o
none_kept all now none h = refl
none_kept all now (some p) h = cc

later_kept :
    (now : ℕ) (o : Option PendingChange)
    → ((p : PendingChange) → o ≡ some p → now < p.deadline)
    → o ≡ keep_later false now o
later_kept now none h = refl
later_kept now (some p) h = ground (arith, h p refl)

module _ (n : ℕ) (s : PendingState) (inv : Inv n s) (now : ℕ) where
  peek_top-Peeked :
      (all : Bool) (ds : List DeadlineEntry)
      → (discard_stale s).deadlines ≡ ds
      → Peeked all now s (peek_top all now s.by_path ds)
  unfolding peek_top discard_stale
  peek_top-Peeked all [] e = λ k.
      none_kept all now (lookup k s.by_path)
        (nothing_listed n (discard_stale s) (discard_stale-Inv n s inv) e k)
  peek_top-Peeked true (d ∷ ds) e =
      let (p, top) =
        Top-Top n (discard_stale s) d ds (discard_stale-Inv n s inv) e
          (drop_stale_head n s inv s.deadlines ds d e) in
      subst (Peeked true now s) (sym top.found) (rw top.its_key (top.found), refl)
  peek_top-Peeked false (d ∷ ds) e =
      let (p, top) =
        Top-Top n (discard_stale s) d ds (discard_stale-Inv n s inv) e
          (drop_stale_head n s inv s.deadlines ds d e) in
      if_elim (Peeked false now s) (ltb now d.deadline)
        (λ t k. later_kept now (lookup k s.by_path) (λ q l. ground (arith, top.least k q l)))
        (λ f.
          subst (Peeked false now s) (sym top.found)
            (rw top.its_key (top.found), ground (arith, top.its_deadline)))

  peek-Peeked : (all : Bool) → Peeked all now s (peek all now s).1
  unfolding peek discard_stale
  peek-Peeked all = peek_top-Peeked all (discard_stale s).deadlines refl

remove_found :
    (s : PendingState) (p : PendingChange)
    → lookup p.key s.by_path ≡ some p
    → remove p s ≡ discard_stale (forget p.key s)
unfolding remove forget
remove_found s p found = ground (arith)

delete_cases :
    (key k : Text) (m : List (Text × PendingChange))
    → ((key ≡ k) × (lookup k (delete key m) ≡ none)) ⊎ (lookup k (delete key m) ≡ lookup k m)
delete_cases key k m = elim (Bool-cases (text_eq key k)) [
  | inl same ↦ inl ((text_eq_iff key k).0 same, ground (arith, lookup-delete key k m))
  | inr other ↦ inr (ground (arith, lookup-delete key k m))
]

module _ (all : Bool) (now : ℕ) (p : PendingChange) (k : Text) (m : List (Text × PendingChange))
    (found : lookup p.key m ≡ some p) (due : is_due all now p ≡ true) where
  due_gone : p.key ≡ k → keep_later all now (lookup k m) ≡ none
  due_gone same = rw (subst (λ j. lookup j m ≡ some p) same found, due) refl

  keep-delete :
      {o : Option PendingChange}
      → o ≡ keep_later all now (lookup k (delete p.key m))
      → o ≡ keep_later all now (lookup k m)
  keep-delete h = elim (delete_cases p.key k m) [
    | inl (same, gone) ↦ h ∙ ap (keep_later all now) gone ∙ sym (due_gone same)
    | inr same ↦ h ∙ ap (keep_later all now) same
  ]

  kept_or_gone :
      (o : Option PendingChange)
      → o ≡ lookup k (delete p.key m)
      → (o ≡ lookup k m) ⊎ (o ≡ keep_later all now (lookup k m))
  kept_or_gone o h = elim (delete_cases p.key k m) [
    | inl (same, gone) ↦ inr (h ∙ gone ∙ sym (due_gone same))
    | inr same ↦ inl (h ∙ same)
  ]

module _ {W E : Type 0} (ops : FlushOps W E) where
  -- The flush succeeds and leaves what is not due; or persisting a due change fails, the change stays
  -- pending, and so does everything that is not due. It does not run out of fuel.
  abbrev pub Outcome :
      Bool → ℕ → List (Text × PendingChange) → List (Text × PendingChange) → FlushEnd ops → Type 0
  Outcome all now m m' flushed = (k : Text) → lookup k m' ≡ keep_later all now (lookup k m)
  Outcome all now m m' (failed e) =
      (p : PendingChange) × (w : W) × ((persist ops p.change w).1 ≡ some e)
      × (is_due all now p ≡ true)
      × (lookup p.key m' ≡ some p)
      × ((k : Text) → (lookup k m' ≡ lookup k m) ⊎ (lookup k m' ≡ keep_later all now (lookup k m)))
  Outcome all now m m' out_of_fuel = ⊥

  -- Taking out a due change before a flush changes nothing of its outcome.
  Outcome-delete :
      (all : Bool) (now : ℕ) (m m' : List (Text × PendingChange)) (p : PendingChange)
      (r : FlushEnd ops)
      → lookup p.key m ≡ some p
      → is_due all now p ≡ true
      → Outcome all now (delete p.key m) m' r
      → Outcome all now m m' r
  Outcome-delete all now m m' p flushed found due h = λ k. keep-delete all now p k m found due (h k)
  Outcome-delete all now m m' p (failed e) found due (q, w, fails, d, l, rest) = (
    q,
    w,
    fails,
    d,
    l,
    λ k. elim (rest k) [
      | inl same ↦ kept_or_gone all now p k m found due (lookup k m') same
      | inr later ↦ inr (keep-delete all now p k m found due later)
    ],
  )
  Outcome-delete all now m m' p out_of_fuel found due h = h

  module _ (again : PendingState → W → PendingState × W × FlushEnd ops) (w : W) where
    flush_round-none :
        (r : PendingState × Option PendingChange)
        → r.1 ≡ none
        → flush_round ops again r w ≡ (r.0, w, flushed)
    unfolding flush_round
    flush_round-none (s, none) h = refl
    flush_round-none (s, some p) h = cc

    flush_after-failed :
        (p : PendingChange) (s : PendingState) (r : W × Option E) (e : E)
        → r.1 ≡ some e
        → flush_after ops again p s r ≡ (s, r.0, failed e)
    unfolding flush_after
    flush_after-failed p s (v, none) e h = cc
    flush_after-failed p s (v, some d) e h = cc

    flush_after-persisted :
        (p : PendingChange) (s : PendingState) (r : W × Option E)
        → r.1 ≡ none
        → flush_after ops again p s r ≡ again (remove p s) r.0
    unfolding flush_after
    flush_after-persisted p s (v, none) h = refl
    flush_after-persisted p s (v, some d) h = cc

    flush_round-some :
        (r : PendingState × Option PendingChange) (p : PendingChange)
        → r.1 ≡ some p
        → flush_round ops again r w ≡ flush_after ops again p r.0 (persist ops p.change w)
    unfolding flush_round
    flush_round-some (s, none) p h = cc
    flush_round-some (s, some q) p h = cc

  -- The outcome of a flush that started with the pending changes m.
  abbrev Ends : Bool → ℕ → List (Text × PendingChange) → PendingState × W × FlushEnd ops → Type 0
  Ends all now m r = Outcome all now m r.0.by_path r.2

  -- Enough fuel for one round per pending change, and one more, gives an outcome.
  flush_loop-Outcome :
      (fuel : ℕ) (all : Bool) (now n : ℕ) (s : PendingState) (w : W)
      → Inv n s
      → length s.by_path < fuel
      → Ends all now s.by_path (flush_loop ops fuel all now s w)
  unfolding flush_loop peek discard_stale forget
  flush_loop-Outcome zero all now n s w inv enough = absurd (omega arith)
  flush_loop-Outcome (suc fuel) all now n s w inv enough = elim (Option-cases (peek all now s).1) [
    | inl nothing ↦
        ends (flush_round-none again w (peek all now s) nothing)
          (subst (Peeked all now s) nothing (peek-Peeked n s inv now all))
    | inr (p, top) ↦
        let (l, due) = subst (Peeked all now s) top (peek-Peeked n s inv now all) in
        let round = flush_round-some again w (peek all now s) p top in
        let r = persist ops p.change w in
        let left = discard_stale (forget p.key (discard_stale s)) in
        elim (Option-cases r.1) [
          | inl ok ↦
              ends
                (round
                  ∙ flush_after-persisted again w p (discard_stale s) r ok
                  ∙ ap (λ t. again t r.0) (remove_found (discard_stale s) p l))
                (Outcome-delete all now s.by_path _ p _ l due (
                  flush_loop-Outcome fuel all now n left r.0
                    (discard_stale-Inv n _ (forget-Inv n _ (discard_stale-Inv n s inv) p.key))
                    (omega (arith, length-delete-lt p.key p s.by_path l))))
          | inr (e, fails) ↦
              ends (round ∙ flush_after-failed again w p (discard_stale s) r e fails)
                (p, w, fails, due, l, λ k. inl refl)
        ]
  ]
    where
      again : PendingState → W → PendingState × W × FlushEnd ops
      again s' w' = flush_loop ops fuel all now s' w'

      ends :
          {r q : PendingState × W × FlushEnd ops}
          → r ≡ q
          → Ends all now s.by_path q
          → Ends all now s.by_path r
      ends same h = subst (Ends all now s.by_path) (sym same) h

  -- A flush of due changes ends without running out of fuel. If it succeeds, exactly the changes with
  -- a later deadline stay pending. If persisting a due change fails, that change stays pending, and
  -- every other is either still pending as it was, or it was due and is gone.
  pub flush_due-Outcome :
      (now n : ℕ) (s : PendingState) (w : W)
      → Inv n s
      → Outcome false now s.by_path (flush_due ops now s w).0.by_path (flush_due ops now s w).2
  unfolding flush_due
  flush_due-Outcome now n s w inv =
      flush_loop-Outcome (suc (length s.by_path)) false now n s w inv (omega arith)

  -- A flush of everything ends without running out of fuel. If it succeeds, nothing stays pending. If
  -- persisting a change fails, that change stays pending, and every other is either still pending as
  -- it was, or gone.
  pub flush_all-Outcome :
      (n : ℕ) (s : PendingState) (w : W)
      → Inv n s
      → Outcome true 0 s.by_path (flush_all ops s w).0.by_path (flush_all ops s w).2
  unfolding flush_all
  flush_all-Outcome n s w inv =
      flush_loop-Outcome (suc (length s.by_path)) true 0 n s w inv (omega arith)
