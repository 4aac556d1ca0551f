-- ===== src/TaskQueue/Slots/Released.antt =====
-- A release takes as many rows out of waiting_dep as it reports (taskqueue.go: releaseToPending,
-- ReleaseWaitingDep).
use ferret_new.TaskQueue.Slots.Claim.{mem-take, mem-sort_tasks, mem-select}
use ferret_new.Base.Int.{pos}
use Prim.Native.Nat.{zero, zero, zero}
use ferret_new.TaskQueue.Slots.Waiting.{
  mem-kept_delete, count_where-same, count_where-delete_where, mem-kept_update, count_where-ext,
  count_where-update_where, count_where-one, count_where,
}
use ferret_new.TaskQueue.{path_key, Db, find_slot, update_where, delete_where, has_id}
use ferret_new.TaskQueue.Slots.Release.{find_slot-some, release_into-IsUnique}
use mathlib.Core.List.{Memᴰ}
use ferret_new.TaskQueue.Slots.{Apart, same_row, IsUnique}
use ferret_new.Task.{pending, waiting_dep, state_eq, Task}
use ferret_new.TaskQueue.Release.{
  release_waiting_dep, release_to_pending, candidates, coalesced_row, released_row, release_into,
  release_all,
}
use ferret_new.TaskQueue.Claim.{select, comes_before, insert_task, sort_tasks}
use ferret_new.Base.{
  ltb, All-mem, suc, All, ℕ, ◌+◌, ◌≡◌, ◌≢◌, ◌≤◌, ◌<◌, refl, sym, ap, arith, Bool, true, false, ◌&&◌,
  Option, none, some, List, [], ◌∷◌, ◌==◌, length, take, if_elim, Bool-cases, inl, inr,
}
use ferret_new.Base.Pairwise.{Pairwise}

abbrev pub waits_dep : Task → Bool
waits_dep t = state_eq t.state waiting_dep

-- A row that waits, and is not one of those with this id.
abbrev Other : Task → List Task → Task → Type 0
Other t ts c = Memᴰ c ts × (waits_dep c ≡ true) × (c.id ≢ t.id)

module _ (now : ℕ) (t : Task) (ts : List Task) (h : IsUnique ts) (m : Memᴰ t ts)
    (w : waits_dep t ≡ true) where
  -- A waiting row is taken out of waiting_dep, and the others wait on.
  release_into-Taken :
      (count_where waits_dep
            (release_into waiting_dep t now (find_slot (path_key t.path) pending ts) ts)
          + 1
        ≡ count_where waits_dep ts)
      × ((c : Task)
          → Other t ts c
          → Memᴰ c (release_into waiting_dep t now (find_slot (path_key t.path) pending ts) ts))
  unfolding release_into
  release_into-Taken = at (find_slot (path_key t.path) pending ts) refl
    where
      p : Task → Bool
      p u = u.id == t.id && state_eq u.state waiting_dep

      one : count_where (λ u. has_id t.id u && waits_dep u) ts ≡ 1
      one = count_where-one waits_dep ts t h m w

      at :
          (o : Option Task)
          → find_slot (path_key t.path) pending ts ≡ o
          → (count_where waits_dep (release_into waiting_dep t now o ts) + 1
              ≡ count_where waits_dep ts)
            × ((c : Task) → Other t ts c → Memᴰ c (release_into waiting_dep t now o ts))
      at none e = (
        let split = count_where-update_where p waits_dep (released_row now) ts (λ u. refl) in
            let same =
              count_where-ext (λ u. p u && waits_dep u) (λ u. has_id t.id u && waits_dep u) ts
                (λ u. ground arith) in
            omega (arith, split, same, one),
        λ c (k, wc, differ). mem-kept_update p (released_row now) ts c k (ground (arith, differ)),
      )
      at (some q) e =
          let (mq, key, st) = find_slot-some (path_key t.path) pending ts q e in
          if_elim
            (λ us.
              (count_where waits_dep (delete_where (has_id t.id) us) + 1 ≡ count_where waits_dep ts)
              × ((c : Task) → Other t ts c → Memᴰ c (delete_where (has_id t.id) us)))
            (ltb q.generation t.generation)
            (λ _.
              let us = update_where (has_id q.id) (coalesced_row t now) ts in
              (
                let split = count_where-delete_where (has_id t.id) waits_dep us in
                    let kept =
                      count_where-same (has_id q.id) waits_dep (coalesced_row t now) ts
                        (λ u. refl) in
                    let same =
                      count_where-same (has_id q.id) (λ u. has_id t.id u && waits_dep u)
                        (coalesced_row t now) ts (λ u. refl) in
                    omega (arith, split, kept, same, one),
                λ c (k, wc, differ).
                    let apart : c.id ≢ q.id = λ i.
                      let it = ap (λ r. waits_dep r) (same_row ts c q h k mq i) in
                      let no : waits_dep q ≡ false = ap (λ s. state_eq s waiting_dep) st in cc in
                    mem-kept_delete (has_id t.id) us c
                      (mem-kept_update (has_id q.id) (coalesced_row t now) ts c k
                        (ground (arith, apart)))
                      (ground (arith, differ)),
              ))
            (λ _. (
              let split = count_where-delete_where (has_id t.id) waits_dep ts in
                  omega (arith, split, one),
              λ c (k, wc, differ). mem-kept_delete (has_id t.id) ts c k (ground (arith, differ)),
            ))

-- Rows with different ids.
abbrev Differ : Task → Task → Type 0
Differ t u = t.id ≢ u.id

release_all-count_where :
    (now : ℕ) (cs ts : List Task)
    → IsUnique ts
    → ((c : Task) → Memᴰ c cs → Memᴰ c ts × (waits_dep c ≡ true))
    → Pairwise Differ cs
    → count_where waits_dep (release_all waiting_dep now cs ts) + length cs
      ≡ count_where waits_dep ts
unfolding release_all
release_all-count_where now [] ts h members d = omega arith
release_all-count_where now (t ∷ cs) ts h members d =
    let (m, w) = members t (Memᴰ.head refl) in
    let (split, others) = release_into-Taken now t ts h m w in
    let ts' = release_into waiting_dep t now (find_slot (path_key t.path) pending ts) ts in
    let ih =
      release_all-count_where now cs ts'
        (release_into-IsUnique waiting_dep now t ts
          (λ u l i. ap (λ r. path_key r.path) (same_row ts u t h l m i)) h)
        (λ c k.
          let (l, wc) = members c (Memᴰ.tail k) in
          (others c (l, wc, λ e. All-mem (Differ t) c cs d.0 k (sym e)), wc))
        d.1 in
    omega (arith, ih, split)

insert_task-All :
    (P : Task → Type 0) (t : Task) (ts : List Task) → P t → All P ts → All P (insert_task t ts)
unfolding insert_task
insert_task-All P t [] k h = (k, tt)
insert_task-All P t (u ∷ us) k h =
    if_elim (All P) (comes_before u t) (λ _. (h.0, insert_task-All P t us k h.1)) (λ _. (k, h))

insert_task-Differ :
    (t : Task) (ts : List Task)
    → All (Differ t) ts
    → Pairwise Differ ts
    → Pairwise Differ (insert_task t ts)
unfolding insert_task
insert_task-Differ t [] k h = (tt, tt)
insert_task-Differ t (u ∷ us) k h =
    if_elim (Pairwise Differ) (comes_before u t)
      (λ _.
        (insert_task-All (Differ u) t us (λ e. k.0 (sym e)) h.0, insert_task-Differ t us k.1 h.1))
      (λ _. (k, h))

sort_tasks-All : (P : Task → Type 0) (ts : List Task) → All P ts → All P (sort_tasks ts)
unfolding sort_tasks
sort_tasks-All P [] h = tt
sort_tasks-All P (t ∷ ts) h = insert_task-All P t (sort_tasks ts) h.0 (sort_tasks-All P ts h.1)

sort_tasks-Differ : (ts : List Task) → Pairwise Differ ts → Pairwise Differ (sort_tasks ts)
unfolding sort_tasks
sort_tasks-Differ [] h = tt
sort_tasks-Differ (t ∷ ts) h =
    insert_task-Differ t (sort_tasks ts) (sort_tasks-All (Differ t) ts h.0)
      (sort_tasks-Differ ts h.1)

length-insert_task : (t : Task) (ts : List Task) → length (insert_task t ts) ≡ length ts + 1
unfolding insert_task
length-insert_task t [] = refl
length-insert_task t (u ∷ us) = elim (Bool-cases (comes_before u t)) [
  | inl hit ↦ let ih = length-insert_task t us in rw hit (omega (arith, ih))
  | inr miss ↦ rw miss (omega arith)
]

length-sort_tasks : (ts : List Task) → length (sort_tasks ts) ≡ length ts
unfolding sort_tasks
length-sort_tasks [] = refl
length-sort_tasks (t ∷ ts) =
    let one = length-insert_task t (sort_tasks ts) in
    let ih = length-sort_tasks ts in omega (arith, one, ih)

length-select : (p : Task → Bool) (ts : List Task) → length (select p ts) ≡ count_where p ts
length-select p [] = refl
length-select p (t ∷ ts) = let ih = length-select p ts in ground (arith, ih)

All-select : (P : Task → Type 0) (p : Task → Bool) (ts : List Task) → All P ts → All P (select p ts)
All-select P p [] h = tt
All-select P p (t ∷ ts) h =
    if_elim (All P) (p t) (λ _. (h.0, All-select P p ts h.1)) (λ _. All-select P p ts h.1)

All-Differ : (t : Task) (ts : List Task) → All (Apart t) ts → All (Differ t) ts
All-Differ t [] h = tt
All-Differ t (u ∷ us) h = (h.0.0, All-Differ t us h.1)

select-Differ : (p : Task → Bool) (ts : List Task) → IsUnique ts → Pairwise Differ (select p ts)
select-Differ p [] h = tt
select-Differ p (t ∷ ts) h =
    if_elim (Pairwise Differ) (p t)
      (λ _. (All-select (Differ t) p ts (All-Differ t ts h.0), select-Differ p ts h.1))
      (λ _. select-Differ p ts h.1)

All-take : (P : Task → Type 0) (n : ℕ) (ts : List Task) → All P ts → All P (take n ts)
All-take P zero ts h = tt
All-take P (suc n) [] h = tt
All-take P (suc n) (t ∷ ts) h = (h.0, All-take P n ts h.1)

take-Differ : (n : ℕ) (ts : List Task) → Pairwise Differ ts → Pairwise Differ (take n ts)
take-Differ zero ts h = tt
take-Differ (suc n) [] h = tt
take-Differ (suc n) (t ∷ ts) h = (All-take (Differ t) n ts h.0, take-Differ n ts h.1)

-- Taking from a list: at most as many as asked for, and all of it if it has fewer.
length-take_cases :
    (n : ℕ) (ts : List Task)
    → (length (take n ts) ≤ n) × (length (take n ts) < n → length (take n ts) ≡ length ts)
length-take_cases zero ts = (omega arith, λ k. absurd (omega (arith, k)))
length-take_cases (suc n) [] = (omega arith, λ k. refl)
length-take_cases (suc n) (t ∷ ts) =
    let (le, all) = length-take_cases n ts in
    (omega (arith, le), λ k. let rest = all (omega (arith, k)) in omega (arith, rest))

-- A release for a positive limit takes out of waiting_dep as many rows as it reports, at most the limit,
-- and all of them if it reports fewer.
pub release_waiting_dep-count :
    (limit now : ℕ) (db : Db)
    → IsUnique db.tasks
    → 1 ≤ limit
    → (count_where waits_dep db.tasks
        ≡ count_where waits_dep (release_waiting_dep (pos limit) now db).0.tasks
          + (release_waiting_dep (pos limit) now db).1)
      × ((release_waiting_dep (pos limit) now db).1 ≤ limit)
      × ((release_waiting_dep (pos limit) now db).1 < limit
          → count_where waits_dep (release_waiting_dep (pos limit) now db).0.tasks ≡ 0)
unfolding release_waiting_dep release_to_pending candidates
release_waiting_dep-count zero now db h positive = absurd (omega (arith, positive))
release_waiting_dep-count (suc n) now db h positive =
    let p : Task → Bool = λ t. state_eq t.state waiting_dep && true in
    let sorted = sort_tasks (select p db.tasks) in
    let cs = take (suc n) sorted in
    let split =
      release_all-count_where now cs db.tasks h
        (λ c m.
          let (l, w) =
            mem-select p db.tasks c
              (mem-sort_tasks (select p db.tasks) c (mem-take (suc n) sorted c m)) in
          (l, ground arith))
        (take-Differ (suc n) sorted
          (sort_tasks-Differ (select p db.tasks) (select-Differ p db.tasks h))) in
    let (le, all) = length-take_cases (suc n) sorted in
    let total = length-sort_tasks (select p db.tasks) in
    let chosen = length-select p db.tasks in
    let same = count_where-ext p waits_dep db.tasks (λ t. ground arith) in
    (
      omega (arith, split),
      le,
      λ fewer. let every = all fewer in omega (arith, split, every, total, chosen, same),
    )
