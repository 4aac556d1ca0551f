-- ===== src/TaskQueue/Slots/Recovery.antt =====
-- Crash recovery keeps the unique indexes and the generation fence, and leaves no task in flight
-- (store.go: recoverInFlightTx).
use mathlib.Core.List.{Memᴰ}
use ferret_new.Base.{
  ℕ, ◌≡◌, refl, sym, ap, ◌∙◌, Bool, true, false, Option, none, some, List, [], ◌∷◌, if◌then◌else◌,
  if_elim, inl, inr, ltb, arith,
}
use ferret_new.Base.Bytes.{codes, text_eq, Text}
use ferret_new.Task.{Task, in_flight, state_eq}
use ferret_new.TaskQueue.{
  stale_generation, Db, ok, err, path_key, find_other, clear_found, clear_older_state_slot,
  delete_where, has_id,
}
use ferret_new.TaskQueue.Slots.{IsUnique, mem-delete_where, delete_where-IsUnique}
use ferret_new.TaskQueue.Slots.Step.{Holds, and_then-Holds, weaken-Holds}
use ferret_new.TaskQueue.Slots.Finish.{clear_older_state_slot-Cleared, Cleared}
use ferret_new.TaskQueue.Slots.Whole.{
  same_files-SoundAfter, IsSound, SoundAfter, SoundAfter-refl, SoundAfter-trans,
}
use ferret_new.TaskQueue.Recovery.{
  begin_startup, insert_by_id, flying, target_of, requeue, recover_from, recover_all,
  recover_in_flight, Versions,
}
use ferret_new.TaskQueue.Slots.Grounded.{
  FlyingIn, Recovers, target_of-ne, mem-cases, requeue-Recovers,
}

-- The tasks to be recovered are among rows with distinct ids.
abbrev Among : List Task → List Task → Type 0
Among rest all = (v : Task) → Memᴰ v rest → Memᴰ v all

fewer-FlyingIn :
    (rest ts : List Task) (p : Task → Bool) → FlyingIn rest ts → FlyingIn rest (delete_where p ts)
fewer-FlyingIn rest ts p h v m s = h v (mem-delete_where p ts v m).0 s

own-FlyingIn :
    (t : Task) (rest ts : List Task)
    → FlyingIn (t ∷ rest) ts
    → FlyingIn rest (delete_where (has_id t.id) ts)
own-FlyingIn t rest ts h v m s =
    let (k, other) = mem-delete_where (has_id t.id) ts v m in
    elim (mem-cases t v rest (h v k s)) [
      | inl e ↦ let same = ap (λ r. r.id) e in absurd (ground arith)
      | inr l ↦ l
    ]

recover_from-Recovers :
    (versions : Versions) (now : ℕ) (t : Task) (rest all : List Task) (db : Db)
    → IsUnique all
    → Among (t ∷ rest) all
    → IsSound db
    → FlyingIn (t ∷ rest) db.tasks
    → Holds
        (Recovers rest db)
        (recover_from (find_other t.id (path_key t.path) (target_of t) db.tasks) versions now t db)
unfolding recover_from clear_older_state_slot
recover_from-Recovers versions now t rest all db ha among s h =
    at (find_other t.id (path_key t.path) (target_of t) db.tasks) (
      clear_older_state_slot-Cleared all t (target_of t) db.tasks (target_of-ne t) ha
        (among t (Memᴰ.head refl)) (λ v m flying. among v (h v m flying)) s.tasks_unique)
  where
    without : ℕ → Db
    without id = record db { tasks = delete_where (has_id id) db.tasks }

    fewer : (id : ℕ) → SoundAfter db (without id)
    fewer id =
        same_files-SoundAfter db (without id) s
          (delete_where-IsUnique (has_id id) db.tasks s.tasks_unique) refl

    switch :
        (occupant : Task) (newer : Bool)
        → Holds (Cleared (target_of t) t.id db.tasks) (
            if newer then err stale_generation else ok (delete_where (has_id occupant.id) db.tasks))
        → Holds
            (Recovers rest db)
            (if newer then ok (without t.id) else requeue versions now t (without occupant.id))
    switch occupant true c = (fewer t.id, own-FlyingIn t rest db.tasks h)
    switch occupant false c =
        weaken-Holds (Recovers rest (without occupant.id)) (Recovers rest db)
          (requeue versions now t (without occupant.id))
          (λ d q. (SoundAfter-trans db (without occupant.id) d (fewer occupant.id) q.0, q.1))
          (requeue-Recovers versions now t rest (without occupant.id) (fewer occupant.id).sound
            (fewer-FlyingIn (t ∷ rest) db.tasks (has_id occupant.id) h) c.1)

    at :
        (o : Option Task)
        → Holds (Cleared (target_of t) t.id db.tasks) (clear_found t db.tasks o)
        → Holds (Recovers rest db) (recover_from o versions now t db)
    at none c = requeue-Recovers versions now t rest db s h c.1
    at (some occupant) c = switch occupant (ltb t.generation occupant.generation) c

recover_all-Recovers :
    (versions : Versions) (now : ℕ) (ts all : List Task) (db : Db)
    → IsUnique all
    → Among ts all
    → IsSound db
    → FlyingIn ts db.tasks
    → Holds (Recovers [] db) (recover_all versions now ts db)
unfolding recover_all
recover_all-Recovers versions now [] all db ha among s h = (SoundAfter-refl db s, h)
recover_all-Recovers versions now (t ∷ ts) all db ha among s h =
    and_then-Holds (Recovers ts db) (Recovers [] db) _ _
      (recover_from-Recovers versions now t ts all db ha among s h)
      (λ db' k.
        weaken-Holds (Recovers [] db') (Recovers [] db) (recover_all versions now ts db')
          (λ d q. (SoundAfter-trans db db' d k.0 q.0, q.1))
          (recover_all-Recovers versions now ts all db' ha (λ v m. among v (Memᴰ.tail m)) k.0.sound
            k.1))

mem-insert_by_id : (t v : Task) (ts : List Task) → Memᴰ v (insert_by_id t ts) → Memᴰ v (t ∷ ts)
unfolding insert_by_id
mem-insert_by_id t v [] m = m
mem-insert_by_id t v (u ∷ us) m =
    if_elim (λ l. Memᴰ v l → Memᴰ v (t ∷ (u ∷ us))) (ltb u.id t.id)
      (λ _ k. elim (mem-cases u v (insert_by_id t us) k) [
        | inl e ↦ Memᴰ.tail (Memᴰ.head e)
        | inr l ↦ elim (mem-cases t v us (mem-insert_by_id t v us l)) [
          | inl e ↦ Memᴰ.head e
          | inr r ↦ Memᴰ.tail (Memᴰ.tail r)
        ]
      ])
      (λ _ k. k) m

insert_by_id-mem : (t v : Task) (ts : List Task) → Memᴰ v (t ∷ ts) → Memᴰ v (insert_by_id t ts)
unfolding insert_by_id
insert_by_id-mem t v [] m = m
insert_by_id-mem t v (u ∷ us) m =
    if_elim (λ l. Memᴰ v l) (ltb u.id t.id)
      (λ _. elim (mem-cases t v (u ∷ us) m) [
        | inl e ↦ Memᴰ.tail (insert_by_id-mem t v us (Memᴰ.head e))
        | inr l ↦ elim (mem-cases u v us l) [
          | inl e ↦ Memᴰ.head e
          | inr r ↦ Memᴰ.tail (insert_by_id-mem t v us (Memᴰ.tail r))
        ]
      ])
      (λ _. m)

flying-mem : (v : Task) (ts : List Task) → Memᴰ v (flying ts) → Memᴰ v ts
unfolding flying
flying-mem v [] m = m
flying-mem v (t ∷ ts) m =
    if_elim (λ l. Memᴰ v l → Memᴰ v (t ∷ ts)) (state_eq t.state in_flight)
      (λ _ k. elim (mem-cases t v (flying ts) (mem-insert_by_id t v (flying ts) k)) [
        | inl e ↦ Memᴰ.head e
        | inr l ↦ Memᴰ.tail (flying-mem v ts l)
      ])
      (λ _ k. Memᴰ.tail (flying-mem v ts k)) m

flying-FlyingIn : (ts : List Task) → FlyingIn (flying ts) ts
unfolding flying
flying-FlyingIn [] v m s = m
flying-FlyingIn (t ∷ ts) v m s = elim (mem-cases t v ts m) [
  | inl e ↦
      let up : state_eq t.state in_flight ≡ true =
        ap (λ r. state_eq r.state in_flight) (sym e) ∙ ap (λ q. state_eq q in_flight) s in
      if_elim (λ l. Memᴰ v l) (state_eq t.state in_flight)
        (λ _. insert_by_id-mem t v (flying ts) (Memᴰ.head e)) (λ c. absurd cc)
  | inr l ↦
      if_elim (λ l. Memᴰ v l) (state_eq t.state in_flight)
        (λ _. insert_by_id-mem t v (flying ts) (Memᴰ.tail (flying-FlyingIn ts v l s)))
        (λ _. flying-FlyingIn ts v l s)
]

pub recover_in_flight-Recovers :
    (versions : Versions) (now : ℕ) (db : Db)
    → IsSound db
    → Holds (Recovers [] db) (recover_in_flight versions now db)
unfolding recover_in_flight
recover_in_flight-Recovers versions now db s =
    recover_all-Recovers versions now (flying db.tasks) db.tasks db s.tasks_unique
      (λ v m. flying-mem v db.tasks m) s (flying-FlyingIn db.tasks)

pub begin_startup-SoundAfter :
    (clean : Option Text) (versions : Versions) (now : ℕ) (db : Db)
    → IsSound db
    → Holds (λ r. SoundAfter db r.0) (begin_startup clean versions now db)
unfolding begin_startup
begin_startup-SoundAfter clean versions now db s =
    if_elim (Holds {A = Db × Bool} (λ r. SoundAfter db r.0))
      (elim clean [ none ↦ false | some v ↦ text_eq v (codes "true") ]) (λ _. SoundAfter-refl db s)
      (λ _.
        and_then-Holds (Recovers [] db) (λ r. SoundAfter db r.0) (recover_in_flight versions now db)
          _ (recover_in_flight-Recovers versions now db s) (λ db' k. k.0))
