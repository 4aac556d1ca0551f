-- ===== src/TaskQueue/Slots/Claim.antt =====
-- Claiming keeps the unique index (taskqueue.go: claim).
use mathlib.Core.List.{Memᴰ}
use ferret_new.Base.{
  ℕ, zero, suc, ◌≡◌, ◌≢◌, refl, sym, ap, subst, ◌∙◌, arith, Bool, true, false, List, [], ◌∷◌,
  Bool-cases, inl, inr, ◌⊎◌, ◌==◌, if◌then◌else◌, if_elim, any_sound, any_complete, take,
}
use ferret_new.Base.Int.{ℤ, is_nonpos, to_nat}
use ferret_new.Task.{Task, pending, in_flight}
use ferret_new.TaskQueue.{Db, path_key, in_slot, update_where}
use ferret_new.TaskQueue.Slots.{
  IsUnique, Apart, Apart-symm, state_eq_sound, in_slot_complete, same_row, update_where-IsUnique,
  updated,
}
use ferret_new.TaskQueue.Claim.{
  Source, is_ready, select, comes_before, insert_task, sort_tasks, claim_row, chosen, among, claim,
}

mem_selected :
    (b : Bool) (x t : Task) (rest : List Task)
    → Memᴰ t (if b then x ∷ rest else rest)
    → Memᴰ t rest ⊎ ((t ≡ x) × (b ≡ true))
mem_selected false x t rest m = inl m
mem_selected true x t rest (Memᴰ.head e) = inr (e, refl)
mem_selected true x t rest (Memᴰ.tail m) = inl m

pub mem-select :
    (p : Task → Bool) (ts : List Task) (t : Task) → Memᴰ t (select p ts) → Memᴰ t ts × (p t ≡ true)
mem-select p [] t m = elim m [ ]
mem-select p (x ∷ ts) t m = elim (mem_selected (p x) x t (select p ts) m) [
  | inl k ↦ let (l, h) = mem-select p ts t k in (Memᴰ.tail l, h)
  | inr (e, h) ↦ (Memᴰ.head e, ap p e ∙ h)
]

pub mem-take : (n : ℕ) (ts : List Task) (t : Task) → Memᴰ t (take n ts) → Memᴰ t ts
mem-take zero ts t m = elim m [ ]
mem-take (suc n) [] t m = elim m [ ]
mem-take (suc n) (x ∷ ts) t (Memᴰ.head e) = Memᴰ.head e
mem-take (suc n) (x ∷ ts) t (Memᴰ.tail m) = Memᴰ.tail (mem-take n ts t m)

mem_under : (x y t : Task) (ts : List Task) → Memᴰ t (x ∷ ts) → Memᴰ t (x ∷ (y ∷ ts))
mem_under x y t ts (Memᴰ.head e) = Memᴰ.head e
mem_under x y t ts (Memᴰ.tail k) = Memᴰ.tail (Memᴰ.tail k)

mem_inserted :
    (b : Bool) (x y t : Task) (ts rest : List Task)
    → (Memᴰ t rest → Memᴰ t (x ∷ ts))
    → Memᴰ t (if b then y ∷ rest else x ∷ (y ∷ ts))
    → Memᴰ t (x ∷ (y ∷ ts))
mem_inserted false x y t ts rest k m = m
mem_inserted true x y t ts rest k (Memᴰ.head e) = Memᴰ.tail (Memᴰ.head e)
mem_inserted true x y t ts rest k (Memᴰ.tail m) = mem_under x y t ts (k m)

mem-insert_task :
    (x : Task) (ts : List Task) (t : Task) → Memᴰ t (insert_task x ts) → Memᴰ t (x ∷ ts)
unfolding insert_task
mem-insert_task x [] t m = m
mem-insert_task x (y ∷ ts) t m =
    mem_inserted (comes_before y x) x y t ts (insert_task x ts) (mem-insert_task x ts t) m

pub mem-sort_tasks : (ts : List Task) (t : Task) → Memᴰ t (sort_tasks ts) → Memᴰ t ts
unfolding sort_tasks
mem-sort_tasks [] t m = m
mem-sort_tasks (x ∷ ts) t m = elim (mem-insert_task x (sort_tasks ts) t m) [
  | Memᴰ.head e ↦ Memᴰ.head e
  | Memᴰ.tail k ↦ Memᴰ.tail (mem-sort_tasks ts t k)
]

module _ (source : Source) (n now : ℕ) (ts : List Task) (h : IsUnique ts) where
  -- A row that the statement updates is ready.
  among_ready :
      (t : Task)
      → Memᴰ t ts
      → among (chosen source n now ts) t ≡ true
      → is_ready source now ts t ≡ true
  unfolding chosen
  among_ready t m hit =
      let (c, k, same) = any_sound (λ c. c.id == t.id) (chosen source n now ts) hit in
      let (l, ready) = mem-select (is_ready source now ts) ts c (
        mem-sort_tasks (select (is_ready source now ts) ts) c
          (mem-take n (sort_tasks (select (is_ready source now ts) ts)) c k)) in
      subst (λ r. is_ready source now ts r ≡ true) (same_row ts c t h l m (ground arith)) ready

  ready_free :
      (t u : Task)
      → is_ready source now ts t ≡ true
      → Memᴰ u ts
      → path_key u.path ≡ path_key t.path
      → (t.state ≡ pending) × (u.state ≢ in_flight)
  unfolding is_ready
  ready_free t u ready m key = (
    state_eq_sound t.state pending (ground arith),
    λ flying.
        let taken =
          any_complete (in_slot (path_key t.path) in_flight) ts u m
            (in_slot_complete (path_key t.path) in_flight u key flying) in
        absurd (ground arith),
  )

  claimed-IsUnique : IsUnique (update_where (among (chosen source n now ts)) (claim_row now) ts)
  unfolding claim_row
  claimed-IsUnique =
      update_where-IsUnique p (claim_row now) ts
        (λ t u m l a. apart t u m l a (Bool-cases (p t)) (Bool-cases (p u))) h
    where
      p : Task → Bool
      p t = among (chosen source n now ts) t

      one_claimed :
          (t u : Task) → Memᴰ t ts → Memᴰ u ts → Apart t u → p t ≡ true → Apart (claim_row now t) u
      one_claimed t u m l a x =
          (a.0, λ key s. (ready_free t u (among_ready t m x) l (sym key)).1 (sym s))

      apart :
          (t u : Task)
          → Memᴰ t ts
          → Memᴰ u ts
          → Apart t u
          → (p t ≡ true) ⊎ (p t ≡ false)
          → (p u ≡ true) ⊎ (p u ≡ false)
          → Apart (updated p (claim_row now) t) (updated p (claim_row now) u)
      apart t u m l a (inl x) (inl y) =
          let free = ready_free t t (among_ready t m x) m refl in
          let also = ready_free u u (among_ready u l y) l refl in
          rw (x, y) (a.0, λ key s. a.1 key (free.0 ∙ sym also.0))
      apart t u m l a (inl x) (inr y) = rw (x, y) (one_claimed t u m l a x)
      apart t u m l a (inr x) (inl y) =
          rw (x, y) (Apart-symm (claim_row now u) t (one_claimed u t l m (Apart-symm t u a) y))
      apart t u m l a (inr x) (inr y) = rw (x, y) a

pub claim-IsUnique :
    (source : Source) (n : ℤ) (now : ℕ) (db : Db)
    → IsUnique db.tasks
    → IsUnique (claim source n now db).0.tasks
unfolding claim
claim-IsUnique source n now db h =
    if_elim (λ (r : Db × List Task). IsUnique r.0.tasks) (is_nonpos n) (λ _. h)
      (λ _. claimed-IsUnique source (to_nat n) now db.tasks h)
