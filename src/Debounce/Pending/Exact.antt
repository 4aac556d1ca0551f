-- ===== src/Debounce/Pending/Exact.antt =====
-- Adding a change keeps the heap and the map in agreement, and the next deadline is the least one
-- (debounce.go: add, nextDeadline).
use mathlib.Core.List.{Memᴰ}
use mathlib.Core.List.Memᴰ
use native.Mathlib.Nat.{add-zero}
use ferret_new.Base.{
  All-mem, ◌&&◌, All, inr, true, inl, Option-cases, [], subst, length, ◌∷◌, List, if_elim, Option,
  ℕ, ◌+◌, ◌^◌, ◌≤◌, ◌<◌, ◌≡◌, refl, none, some, arith,
}
use ferret_new.Base.Bytes.{Text}
use ferret_new.Base.TextMap.{lookup}
use ferret_new.Debounce.{clean, merge_same_path, RawChange, path_key}
use ferret_new.Debounce.Pending.{
  is_some, is_removed, first_deadline, discard_stale, is_current, DeadlineEntry, clean_nonempty,
  is_move, PendingChange, PendingState, add, add_move, add_plain, put, forget, next_deadline,
  new_pending_state,
}
use ferret_new.Debounce.Pending.Deadlines.{
  drop_stale_head, Upto, entry_of, Fits, IsSorted, Inv, put-Inv, forget-Inv, discard_stale-Inv,
}

Inv-weaken : (n : ℕ) (s : PendingState) → Inv n s → Inv (n + 1) s
Inv-weaken n s inv = record {
  counter_le = omega (arith, inv.counter_le);
  sorted = inv.sorted;
  fits = inv.fits;
  listed = inv.listed;
}

pub new_pending_state-Inv : (window : ℕ) → Inv 0 (new_pending_state window)
unfolding new_pending_state lookup
new_pending_state-Inv window = record {
  counter_le = omega arith;
  sorted = tt;
  fits = tt;
  listed = λ k p l. cc;
}

module _ (n : ℕ) (s : PendingState) (inv : Inv n s) (room : n + 1 < 2 ^ 64) where
  put-forget-Inv :
      (c : RawChange) (deadline : ℕ) (key : Text) → Inv (n + 1) (put c deadline (forget key s))
  put-forget-Inv c deadline key = put-Inv n (forget key s) (forget-Inv n s inv key) c deadline room

  add_move-Inv : (o : Option PendingChange) (c : RawChange) → Inv (n + 1) (add_move o c s)
  unfolding add_move
  add_move-Inv none c = put-forget-Inv c _ _
  add_move-Inv (some p) c = put-Inv n _ (forget-Inv n _ (forget-Inv n s inv _) _) _ _ room

  add_plain-Inv : (o : Option PendingChange) (c : RawChange) → Inv (n + 1) (add_plain o c s)
  unfolding add_plain
  add_plain-Inv none c = put-Inv n s inv c _ room
  add_plain-Inv (some p) c =
      let left = forget (path_key c.path) s in
      let forgotten = Inv-weaken n left (forget-Inv n s inv (path_key c.path)) in
      let (merged, keep) = merge_same_path p.change c in
      if_elim (Inv (n + 1))
        (is_move p.change.op
          && (is_removed c.op && is_some (lookup (path_key p.change.old_path) left.by_path)))
        (λ _. forgotten)
        (λ _.
          if_elim (Inv (n + 1)) keep
            (λ _. put-forget-Inv merged (merged.at + s.window) (path_key c.path)) (λ _. forgotten))

  add-Inv : (c : RawChange) → Inv (n + 1) (add c s)
  unfolding add
  add-Inv c =
      let incoming : RawChange = record c {
        path = clean c.path;
        old_path = clean_nonempty c.old_path;
      } in
      if_elim (Inv (n + 1)) (is_move incoming.op)
        (λ _. add_move-Inv (lookup (path_key incoming.old_path) s.by_path) incoming)
        (λ _. add_plain-Inv (lookup (path_key incoming.path) s.by_path) incoming)

-- All changes of a list, in order.
unfoldable pub add_all : List RawChange → PendingState → PendingState
add_all [] s = s
add_all (c ∷ cs) s = add_all cs (add c s)

add_all-Inv :
    (n : ℕ) (cs : List RawChange) (s : PendingState)
    → Inv n s
    → n + length cs < 2 ^ 64
    → Inv (n + length cs) (add_all cs s)
unfolding add_all
add_all-Inv n [] s inv room = rw add-zero inv
add_all-Inv n (c ∷ cs) s inv room =
    subst (λ k. Inv k (add_all cs (add c s))) (omega arith)
      (add_all-Inv (n + 1) cs (add c s) (add-Inv n s inv (omega arith) c) (omega arith))

-- The heap and the map agree after any fewer than 2^64 changes.
pub added-Inv :
    (window : ℕ) (cs : List RawChange)
    → length cs < 2 ^ 64
    → Inv (length cs) (add_all cs (new_pending_state window))
added-Inv window cs room =
    subst (λ k. Inv k (add_all cs (new_pending_state window))) (omega arith)
      (add_all-Inv 0 cs (new_pending_state window) (new_pending_state-Inv window) (omega arith))

pub nothing_listed :
    (n : ℕ) (s : PendingState) (inv : Inv n s)
    → s.deadlines ≡ []
    → (k : Text) → lookup k s.by_path ≡ none
nothing_listed n s inv e k = elim (Option-cases (lookup k s.by_path)) [
  | inl absent ↦ absent
  | inr (p, found) ↦ absurd (Memᴰ.not-nil (subst (Memᴰ (entry_of p)) e (inv.listed k p found).2))
]

-- Nothing in a sorted list comes before its first entry.
first_least :
    (e d : DeadlineEntry) (es : List DeadlineEntry)
    → IsSorted (e ∷ es)
    → Memᴰ d (e ∷ es)
    → e.deadline ≤ d.deadline
first_least e d es h (Memᴰ.head same) = ground arith
first_least e d es h (Memᴰ.tail m) = ground (arith, All-mem (Upto e) d es h.0 m)

-- The change of the first entry, once stale entries are gone.
pub record Top (s : PendingState) (e : DeadlineEntry) (p : PendingChange) : Type 0 where
  pub found : lookup e.key s.by_path ≡ some p
  pub its_key : p.key ≡ e.key
  pub its_version : p.version ≡ e.version
  pub its_deadline : p.deadline ≡ e.deadline
  pub least : (k : Text) (q : PendingChange) → lookup k s.by_path ≡ some q → e.deadline ≤ q.deadline

is_current-some :
    (m : List (Text × PendingChange)) (e : DeadlineEntry)
    → is_current m e ≡ true
    → (p : PendingChange) × (lookup e.key m ≡ some p) × (p.version ≡ e.version)
unfolding is_current
is_current-some m e h = elim (Option-cases (lookup e.key m)) [
  | inl absent ↦ absurd (ground arith)
  | inr (p, found) ↦ (p, found, ground arith)
]

pub Top-Top :
    (n : ℕ) (s : PendingState) (e : DeadlineEntry) (es : List DeadlineEntry)
    → Inv n s
    → s.deadlines ≡ e ∷ es
    → is_current s.by_path e ≡ true
    → (p : PendingChange) × Top s e p
Top-Top n s e es inv shape c =
    let (p, found, v) = is_current-some s.by_path e c in
    let fit = subst (All (Fits s.by_path s.sequence)) shape inv.fits in
    let sorted = subst IsSorted shape inv.sorted in
    (
      p,
      record {
        found = found;
        its_key = (inv.listed e.key p found).0;
        its_version = v;
        its_deadline = fit.0.1 p found v;
        least = λ k q l.
            first_least e (entry_of q) es sorted
              (subst (Memᴰ (entry_of q)) shape (inv.listed k q l).2);
      },
    )

-- The next deadline is none exactly when nothing is pending, and otherwise it is the deadline of a
-- pending change and no pending change has an earlier one.
pub next_deadline_exact :
    (n : ℕ) (s : PendingState)
    → Inv n s
    → ((next_deadline s).1 ≡ none → (k : Text) → lookup k s.by_path ≡ none)
      × ((t : ℕ)
          → (next_deadline s).1 ≡ some t
          → ((k : Text) × (p : PendingChange) × (lookup k s.by_path ≡ some p) × (p.deadline ≡ t))
            × ((k : Text) (p : PendingChange) → lookup k s.by_path ≡ some p → t ≤ p.deadline))
unfolding next_deadline
next_deadline_exact n s inv = at (discard_stale s).deadlines refl
  where
    clean_inv : Inv n (discard_stale s)
    clean_inv = discard_stale-Inv n s inv

    at :
        (ds : List DeadlineEntry)
        → (discard_stale s).deadlines ≡ ds
        → (first_deadline ds ≡ none → (k : Text) → lookup k s.by_path ≡ none)
          × ((t : ℕ)
              → first_deadline ds ≡ some t
              → ((k : Text) × (p : PendingChange) × (lookup k s.by_path ≡ some p)
                  × (p.deadline ≡ t))
                × ((k : Text) (p : PendingChange) → lookup k s.by_path ≡ some p → t ≤ p.deadline))
    at [] e = (λ _ k. nothing_listed n (discard_stale s) clean_inv e k, λ t h. cc)
    at (d ∷ ds) e =
        let (p, top) =
          Top-Top n (discard_stale s) d ds clean_inv e
            (drop_stale_head n s inv s.deadlines ds d e) in
        (
          λ h. cc,
          λ t h. (
            (d.key, p, top.found, ground (arith, top.its_deadline)),
            λ k q l. ground (arith, top.least k q l),
          ),
        )
