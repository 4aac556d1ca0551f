-- ===== src/TaskQueue/Slots/Release.antt =====
-- Releasing keeps the unique index (taskqueue.go: releaseToPending).
use mathlib.Core.List.{Memᴰ}
use ferret_new.Base.{
  All-map, ℕ, ◌≡◌, ◌≢◌, refl, sym, ap, subst, ◌∙◌, arith, Bool, true, ◌&&◌, Option, none, some,
  List, [], ◌∷◌, All, Bool-cases, inl, inr, ◌==◌, if_elim, ltb,
}
use ferret_new.Base.Int.{ℤ}
use ferret_new.Base.Bytes.{Text}
use ferret_new.Task.{Task, TaskState, pending, state_eq}
use ferret_new.TaskQueue.{Db, path_key, find_slot, in_slot, update_where, has_id}
use ferret_new.TaskQueue.Slots.{
  IsUnique, in_slot_sound, in_slot_complete, same_row, same_slot, mem-delete_where,
  delete_where-IsUnique, mem-update_where, retarget-IsUnique,
}
use ferret_new.TaskQueue.Slots.Claim.{mem-select, mem-take, mem-sort_tasks}
use ferret_new.TaskQueue.Claim.{select, sort_tasks}
use ferret_new.TaskQueue.Release.{
  released_row, coalesced_row, release_into, release_all, candidates, is_due, release_to_pending,
}

pub find_slot-none :
    (key : Text) (st : TaskState) (ts : List Task) (v : Task)
    → find_slot key st ts ≡ none
    → Memᴰ v ts
    → path_key v.path ≡ key
    → v.state ≢ st
unfolding find_slot
find_slot-none key st [] v h m k s = elim m [ ]
find_slot-none key st (x ∷ ts) v h (Memᴰ.head e) k s =
    let there =
      in_slot_complete key st x (ap (λ r. path_key r.path) (sym e) ∙ k)
        (ap (λ r. r.state) (sym e) ∙ s) in
    absurd (ground arith)
find_slot-none key st (x ∷ ts) v h (Memᴰ.tail m) k s =
    find_slot-none key st ts v (ground arith) m k s

pub find_slot-some :
    (key : Text) (st : TaskState) (ts : List Task) (t : Task)
    → find_slot key st ts ≡ some t
    → Memᴰ t ts × (path_key t.path ≡ key) × (t.state ≡ st)
unfolding find_slot
find_slot-some key st [] t h = cc
find_slot-some key st (x ∷ ts) t h = elim (Bool-cases (in_slot key st x)) [
  | inl hit ↦
      let it : x ≡ t = ground arith in
      let (k, s) = in_slot_sound key st x hit in
      (Memᴰ.head (sym it), ap (λ r. path_key r.path) (sym it) ∙ k, ap (λ r. r.state) (sym it) ∙ s)
  | inr miss ↦ let (m, k, s) = find_slot-some key st ts t (ground arith) in (Memᴰ.tail m, k, s)
]

-- An update of the row that has a slot, which stays in the slot.
pub replaced-IsUnique :
    (key : Text) (st : TaskState) (f : Task → Task) (ts : List Task) (p : Task)
    → Memᴰ p ts
    → path_key p.path ≡ key
    → p.state ≡ st
    → ((f p).id ≡ p.id) × (path_key (f p).path ≡ key) × ((f p).state ≡ st)
    → IsUnique ts
    → IsUnique (update_where (has_id p.id) f ts)
replaced-IsUnique key st f ts p m k s kept h =
    retarget-IsUnique (has_id p.id) f p.id key st ts
      (λ t l hit.
        let i : t.id ≡ p.id = ground arith in
        let (ki, kk, ks) =
          subst (λ r. ((f r).id ≡ p.id) × (path_key (f r).path ≡ key) × ((f r).state ≡ st))
            (sym (same_row ts t p h l m i)) kept in
        (i, ki, kk, ks))
      (λ u l other ku su. other (same_slot ts u p h l m (ku ∙ sym k) (su ∙ sym s))) h

-- The rows of a candidate's id have its path key.
abbrev pub KeyOf : List Task → Task → Type 0
KeyOf ts c = (u : Task) → Memᴰ u ts → u.id ≡ c.id → path_key u.path ≡ path_key c.path

module _ (state : TaskState) (now : ℕ) (t : Task) where
  pub release_into-IsUnique :
      (ts : List Task)
      → KeyOf ts t
      → IsUnique ts
      → IsUnique (release_into state t now (find_slot (path_key t.path) pending ts) ts)
  unfolding release_into
  release_into-IsUnique ts keys h = at (find_slot (path_key t.path) pending ts) refl
    where
      at :
          (o : Option Task)
          → find_slot (path_key t.path) pending ts ≡ o
          → IsUnique (release_into state t now o ts)
      at none e =
          retarget-IsUnique (λ u. u.id == t.id && state_eq u.state state) (released_row now) t.id
            (path_key t.path) pending ts
            (λ u m hit. let i : u.id ≡ t.id = ground arith in (i, i, keys u m i, refl))
            (λ u m other key. find_slot-none (path_key t.path) pending ts u e m key) h
      at (some p) e =
          let (m, k, s) = find_slot-some (path_key t.path) pending ts p e in
          delete_where-IsUnique (has_id t.id) _ (
            if_elim IsUnique (ltb p.generation t.generation)
              (λ _.
                replaced-IsUnique (path_key t.path) pending (coalesced_row t now) ts p m k s
                  (refl, refl, s) h)
              (λ _. h))

  -- A row of another candidate keeps its key.
  release_into-KeyOf :
      (ts : List Task) (c : Task)
      → IsUnique ts
      → KeyOf ts c
      → KeyOf (release_into state t now (find_slot (path_key t.path) pending ts) ts) c
  unfolding release_into
  release_into-KeyOf ts c h keys = at (find_slot (path_key t.path) pending ts) refl
    where
      moved :
          (p : Task → Bool) (f : Task → Task)
          → ((u : Task)
              → Memᴰ u ts
              → p u ≡ true
              → ((f u).id ≡ u.id) × (path_key (f u).path ≡ path_key u.path))
          → KeyOf (update_where p f ts) c
      moved p f keep u m i =
          let (v, l, e) = mem-update_where p f ts u m in
          elim (Bool-cases (p v)) [
            | inl hit ↦
                let it : u ≡ f v = e ∙ rw hit refl in
                let (iv, kv) = keep v l hit in
                ap (λ r. path_key r.path) it ∙ kv ∙ keys v l (sym iv ∙ ap (λ r. r.id) (sym it) ∙ i)
            | inr miss ↦
                let it : u ≡ v = e ∙ rw miss refl in
                ap (λ r. path_key r.path) it ∙ keys v l (ap (λ r. r.id) (sym it) ∙ i)
          ]

      at :
          (o : Option Task)
          → find_slot (path_key t.path) pending ts ≡ o
          → KeyOf (release_into state t now o ts) c
      at none e =
          moved (λ u. u.id == t.id && state_eq u.state state) (released_row now)
            (λ u m hit. (refl, refl))
      at (some p) e = λ u m i.
          let (mp, k, s) = find_slot-some (path_key t.path) pending ts p e in
          let (l, _) = mem-delete_where (has_id t.id) _ u m in
          if_elim (λ r. Memᴰ u r → path_key u.path ≡ path_key c.path)
            (ltb p.generation t.generation)
            (λ _ a.
              moved (has_id p.id) (coalesced_row t now)
                (λ v mv hit. (
                  refl,
                  sym k ∙ ap (λ r. path_key r.path) (same_row ts p v h mp mv (ground arith)),
                ))
                u a i)
            (λ _ a. keys u a i) l

release_all-IsUnique :
    (state : TaskState) (now : ℕ) (cs ts : List Task)
    → All (KeyOf ts) cs
    → IsUnique ts
    → IsUnique (release_all state now cs ts)
unfolding release_all
release_all-IsUnique state now [] ts keys h = h
release_all-IsUnique state now (t ∷ cs) ts keys h =
    release_all-IsUnique state now cs _
      (All-map (KeyOf ts) _ (λ c k. release_into-KeyOf state now t ts c h k) cs keys.1)
      (release_into-IsUnique state now t ts keys.0 h)

All-of-mem : (P : Task → Type 0) (cs : List Task) → ((c : Task) → Memᴰ c cs → P c) → All P cs
All-of-mem P [] k = tt
All-of-mem P (c ∷ cs) k = (k c (Memᴰ.head refl), All-of-mem P cs (λ d m. k d (Memᴰ.tail m)))

pub release_to_pending-IsUnique :
    (state : TaskState) (due : ℕ) (limit : ℤ) (now : ℕ) (db : Db)
    → IsUnique db.tasks
    → IsUnique (release_to_pending state due limit now db).0.tasks
unfolding release_to_pending candidates
release_to_pending-IsUnique state due limit now db h =
    let p : Task → Bool = λ t. state_eq t.state state && is_due state due t in
    release_all-IsUnique state now (candidates state due limit db.tasks) db.tasks
      (All-of-mem (KeyOf db.tasks) (candidates state due limit db.tasks) (λ c m u l i.
        let (mc, _) = mem-select p db.tasks c (
          mem-sort_tasks (select p db.tasks) c (mem-take _ (sort_tasks (select p db.tasks)) c m)) in
        ap (λ r. path_key r.path) (same_row db.tasks u c h l mc i)))
      h
