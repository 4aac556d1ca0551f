-- ===== src/Debounce/Pending/Deadlines.antt =====
-- The deadline heap agrees with the map of pending changes (debounce.go: pendingState).
use mathlib.Core.List.{Memᴰ}
use ferret_new.Base.{
  subst, ℕ, ◌+◌, ◌^◌, ◌≤◌, ◌<◌, ◌≡◌, refl, ◌⊎◌, inl, inr, true, false, some, List, [], ◌∷◌, All,
  All-map, arith, if_elim, u64, Bool-cases,
}
use ferret_new.Base.Bytes.{text_eq_refl, Text, text_eq, text_eq_iff}
use ferret_new.Base.TextMap.{lookup, delete, insert, lookup-delete, lookup-insert}
use ferret_new.Debounce.{RawChange, path_key}
use ferret_new.Debounce.Pending.{
  PendingChange, DeadlineEntry, PendingState, less, push, put, is_current, drop_stale,
  discard_stale, forget,
}

-- Not after, in the order of the heap.
abbrev pub Upto : DeadlineEntry → DeadlineEntry → Type 0
Upto a b = (a.deadline < b.deadline) ⊎ ((a.deadline ≡ b.deadline) × (a.sequence ≤ b.sequence))

abbrev pub IsSorted : List DeadlineEntry → Type 0
IsSorted [] = Unit {0}
IsSorted (e ∷ es) = All (Upto e) es × IsSorted es

Upto-trans : (a b c : DeadlineEntry) → Upto a b → Upto b c → Upto a c
Upto-trans a b c h k = ground arith

All-push :
    (P : DeadlineEntry → Type 0) (e : DeadlineEntry) (xs : List DeadlineEntry)
    → P e
    → All P xs
    → All P (push e xs)
unfolding push
All-push P e [] p h = (p, tt)
All-push P e (x ∷ xs) p h =
    if_elim (All P) (less e x) (λ _. (p, h)) (λ _. (h.0, All-push P e xs p h.1))

less-Upto : (a b : DeadlineEntry) → less a b ≡ true → Upto a b
unfolding less
less-Upto a b h = ground arith

not_less-Upto : (a b : DeadlineEntry) → less a b ≡ false → Upto b a
unfolding less
not_less-Upto a b h = ground arith

push-IsSorted : (e : DeadlineEntry) (xs : List DeadlineEntry) → IsSorted xs → IsSorted (push e xs)
unfolding push
push-IsSorted e [] h = (tt, tt)
push-IsSorted e (x ∷ xs) h =
    if_elim IsSorted (less e x)
      (λ l. (
        (
          less-Upto e x l,
          All-map (Upto x) (Upto e) (λ y k. Upto-trans e x y (less-Upto e x l) k) xs h.0,
        ),
        h,
      ))
      (λ l. (All-push (Upto x) e xs (not_less-Upto e x l) h.0, push-IsSorted e xs h.1))

mem-push_self : (e : DeadlineEntry) (xs : List DeadlineEntry) → Memᴰ e (push e xs)
unfolding push
mem-push_self e [] = Memᴰ.head refl
mem-push_self e (x ∷ xs) =
    if_elim (Memᴰ e) (less e x) (λ _. Memᴰ.head refl) (λ _. Memᴰ.tail (mem-push_self e xs))

mem-push : (e d : DeadlineEntry) (xs : List DeadlineEntry) → Memᴰ d xs → Memᴰ d (push e xs)
unfolding push
mem-push e d [] m = elim m [ ]
mem-push e d (x ∷ xs) (Memᴰ.head h) =
    if_elim (Memᴰ d) (less e x) (λ _. Memᴰ.tail (Memᴰ.head h)) (λ _. Memᴰ.head h)
mem-push e d (x ∷ xs) (Memᴰ.tail h) =
    if_elim (Memᴰ d) (less e x) (λ _. Memᴰ.tail (Memᴰ.tail h)) (λ _. Memᴰ.tail (mem-push e d xs h))

-- The entry of a pending change.
abbrev pub entry_of : PendingChange → DeadlineEntry
entry_of p = record {
  key = p.key;
  deadline = p.deadline;
  version = p.version;
  sequence = p.version;
}

-- An entry that is no later than the counter, and says the deadline of the change that it is for.
abbrev pub Fits : List (Text × PendingChange) → ℕ → DeadlineEntry → Type 0
Fits m n e =
    (e.version ≤ n)
    × ((p : PendingChange)
        → lookup e.key m ≡ some p
        → p.version ≡ e.version
        → p.deadline ≡ e.deadline)

-- Every pending change stands in the heap; n bounds the versions.
pub record Inv (n : ℕ) (s : PendingState) : Type 0 where
  pub counter_le : s.sequence ≤ n
  pub sorted : IsSorted s.deadlines
  pub fits : All (Fits s.by_path s.sequence) s.deadlines
  pub listed :
      (k : Text) (p : PendingChange)
      → lookup k s.by_path ≡ some p
      → (p.key ≡ k) × (p.version ≤ s.sequence) × Memᴰ (entry_of p) s.deadlines

-- What `Inv.listed` says of one change.
abbrev Listed : List DeadlineEntry → ℕ → Text → PendingChange → Type 0
Listed es n k p = (p.key ≡ k) × (p.version ≤ n) × Memᴰ (entry_of p) es

insert-Listed :
    (m : List (Text × PendingChange)) (es : List DeadlineEntry) (n : ℕ) (new : PendingChange)
    → new.version ≤ n + 1
    → ((k : Text) (p : PendingChange) → lookup k m ≡ some p → Listed es n k p)
    → (k : Text) (p : PendingChange) → lookup k (insert new.key new m) ≡ some p
    → Listed (push (entry_of new) es) (n + 1) k p
insert-Listed m es n new v old k p l = elim (Bool-cases (text_eq new.key k)) [
  | inl same ↦
      let it : new ≡ p = ground (arith, lookup-insert new.key k new m) in
      subst (Listed (push (entry_of new) es) (n + 1) k) it
        ((text_eq_iff new.key k).0 same, v, mem-push_self (entry_of new) es)
  | inr other ↦
      let (e, le, mem) = old k p (ground (arith, lookup-insert new.key k new m)) in
      (e, omega arith, mem-push (entry_of new) (entry_of p) es mem)
]

module _ (n : ℕ) (s : PendingState) (inv : Inv n s) where
  pub forget-Inv : (key : Text) → Inv n (forget key s)
  unfolding forget
  forget-Inv key = record {
    counter_le = inv.counter_le;
    sorted = inv.sorted;
    fits =
        All-map (Fits s.by_path s.sequence) (Fits (delete key s.by_path) s.sequence)
          (λ e h. (h.0, λ p l v. ground (arith, lookup-delete key e.key s.by_path, h.1 p)))
          s.deadlines inv.fits;
    listed = λ k p l. inv.listed k p (ground (arith, lookup-delete key k s.by_path));
  }

  -- A new change takes the next version.
  pub put-Inv : (c : RawChange) (deadline : ℕ) → n + 1 < 2 ^ 64 → Inv (n + 1) (put c deadline s)
  unfolding put
  put-Inv c deadline room = rw next (record {
    counter_le = omega (arith, inv.counter_le);
    sorted = push-IsSorted entry s.deadlines inv.sorted;
    fits =
        All-push (Fits (insert key new s.by_path) (s.sequence + 1)) entry s.deadlines
          (
            omega arith,
            λ p l v. ground (arith, lookup-insert key key new s.by_path, text_eq_refl key),
          )
          (All-map (Fits s.by_path s.sequence) (Fits (insert key new s.by_path) (s.sequence + 1))
            (λ e h. (
              omega (arith, h.0),
              λ p l v. ground (arith, h.0, lookup-insert key e.key new s.by_path, h.1 p),
            ))
            s.deadlines inv.fits);
    listed = insert-Listed s.by_path s.deadlines s.sequence new (omega arith) inv.listed;
  })
    where
      key : Text
      key = path_key c.path

      next : u64 (s.sequence + 1) ≡ s.sequence + 1
      next = omega (arith, inv.counter_le)

      new : PendingChange
      new = record { key = key; change = c; deadline = deadline; version = s.sequence + 1 }

      entry : DeadlineEntry
      entry = entry_of new

  abbrev Kept : List DeadlineEntry → Type 0
  Kept es = (IsSorted es) × All (Fits s.by_path s.sequence) es

  drop_stale-Kept : (es : List DeadlineEntry) → Kept es → Kept (drop_stale s.by_path es)
  unfolding drop_stale
  drop_stale-Kept [] h = h
  drop_stale-Kept (e ∷ es) h =
      if_elim Kept (is_current s.by_path e) (λ _. h) (λ _. drop_stale-Kept es (h.0.1, h.1.1))

  -- The entry of a pending change is current.
  entry_of_current :
      (k : Text) (p : PendingChange)
      → lookup k s.by_path ≡ some p
      → is_current s.by_path (entry_of p) ≡ true
  unfolding is_current
  entry_of_current k p l = ground (arith, (inv.listed k p l).0)

  mem-drop_stale :
      (e : DeadlineEntry) (es : List DeadlineEntry)
      → is_current s.by_path e ≡ true
      → Memᴰ e es
      → Memᴰ e (drop_stale s.by_path es)
  unfolding drop_stale
  mem-drop_stale e [] c m = elim m [ ]
  mem-drop_stale e (x ∷ es) c (Memᴰ.head h) =
      rw (subst (λ d. is_current s.by_path d ≡ true) h c) (Memᴰ.head h)
  mem-drop_stale e (x ∷ es) c (Memᴰ.tail h) =
      if_elim (Memᴰ e) (is_current s.by_path x) (λ _. Memᴰ.tail h) (λ _. mem-drop_stale e es c h)

  pub discard_stale-Inv : Inv n (discard_stale s)
  unfolding discard_stale
  discard_stale-Inv =
      let (sorted, fits) = drop_stale-Kept s.deadlines (inv.sorted, inv.fits) in
      record {
        counter_le = inv.counter_le;
        sorted = sorted;
        fits = fits;
        listed = λ k p l.
            let (e, le, m) = inv.listed k p l in
            (e, le, mem-drop_stale (entry_of p) s.deadlines (entry_of_current k p l) m);
      }

  pub drop_stale_head :
      (es r : List DeadlineEntry) (e : DeadlineEntry)
      → drop_stale s.by_path es ≡ e ∷ r
      → is_current s.by_path e ≡ true
  unfolding drop_stale
  drop_stale_head [] r e h = cc
  drop_stale_head (x ∷ es) r e h = elim (Bool-cases (is_current s.by_path x)) [
    | inl c ↦ let same : x ≡ e = ground arith in subst (λ d. is_current s.by_path d ≡ true) same c
    | inr stale ↦ drop_stale_head es r e (ground arith)
  ]
