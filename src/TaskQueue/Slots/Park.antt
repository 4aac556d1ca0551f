-- ===== src/TaskQueue/Slots/Park.antt =====
-- Parking a batch of tasks keeps the unique index (taskqueue.go: MarkWaitingDepBatch).
use mathlib.Core.List.{Memᴰ}
use ferret_new.Base.{
  ℕ, ◌≡◌, refl, sym, ap, subst, ◌∙◌, arith, Bool, true, false, ◌&&◌, List, [], ◌∷◌, All, All-map,
  Bool-cases, inl, inr, ◌==◌, if_elim, any, ◌⊎◌,
}
use ferret_new.Base.Bytes.{Text}
use ferret_new.Task.{Task, in_flight, waiting_dep, state_eq}
use ferret_new.TaskQueue.{
  Db, Result, ok, err, path_key, update_where, task_for_transition, update_in_flight, is_refused,
  clear_older_state_slot,
}
use ferret_new.TaskQueue.Slots.{
  IsUnique, state_eq_sound, same_row, same_slot, mem-update_where, updated,
}
use ferret_new.TaskQueue.Slots.Step.{
  anything, Holds, and_then-Holds, Found, task_for_transition-Found, Free,
  update_in_flight-IsUnique,
}
use ferret_new.TaskQueue.Slots.Finish.{Cleared, clear_older_state_slot-Cleared}
use ferret_new.TaskQueue.Finish.{
  validate_batch, tasks_for_transition, clear_slots, park_row, park_all, mark_waiting_dep,
}

-- The rows that were found for a list of ids.
abbrev pub FoundAll : List Task → List ℕ → List Task → Type 0
FoundAll ts [] [] = Unit {0}
FoundAll ts (id ∷ ids) (t ∷ batch) = Found ts id t × FoundAll ts ids batch
FoundAll ts _ _ = ⊥

pub tasks_for_transition-FoundAll :
    (ids : List ℕ) (ts : List Task) → Holds (FoundAll ts ids) (tasks_for_transition ids ts)
unfolding tasks_for_transition
tasks_for_transition-FoundAll [] ts = tt
tasks_for_transition-FoundAll (id ∷ ids) ts =
    and_then-Holds (Found ts id) (FoundAll ts (id ∷ ids)) (task_for_transition id in_flight ts) _
      (task_for_transition-Found id ts)
      (λ t found.
        and_then-Holds (FoundAll ts ids) (FoundAll ts (id ∷ ids)) (tasks_for_transition ids ts) _
          (tasks_for_transition-FoundAll ids ts) (λ batch rest. (found, rest)))

unfoldable pub AllFree : List ℕ → List Task → Type 0
AllFree ids ts = All (λ id. Free waiting_dep id ts) ids

pub clear_slots-AllFree :
    (all : List Task) (ids : List ℕ) (batch ts : List Task)
    → IsUnique all
    → FoundAll all ids batch
    → ((v : Task) → Memᴰ v ts → Memᴰ v all)
    → IsUnique ts
    → Holds
        (λ ts'. IsUnique ts' × AllFree ids ts' × ((v : Task) → Memᴰ v ts' → Memᴰ v ts))
        (clear_slots batch ts)
unfolding clear_slots AllFree
clear_slots-AllFree all [] [] ts ha found sub h = (h, tt, λ v m. m)
clear_slots-AllFree all [] (t ∷ batch) ts ha found sub h = absurd found
clear_slots-AllFree all (id ∷ ids) [] ts ha found sub h = absurd found
clear_slots-AllFree all (id ∷ ids) (t ∷ batch) ts ha found sub h =
    and_then-Holds (Cleared waiting_dep t.id ts) _ (clear_older_state_slot t waiting_dep ts)
      (clear_slots batch)
      (clear_older_state_slot-Cleared all t waiting_dep ts (λ e. cc) ha found.0.0 (λ v m _. sub v m)
        h)
      (λ ts' (unique, free, fewer).
        weaken (clear_slots batch ts')
          (λ ts'' (u, f, w). (
            u,
            (λ a b ma mb i. free a b (w a ma) (w b mb) (i ∙ sym found.0.1), f),
            λ v m. fewer v (w v m),
          ))
          (clear_slots-AllFree all ids batch ts' ha found.1 (λ v m. sub v (fewer v m)) unique))
  where
    weaken :
        {A : Type 0} {P Q : A → Type 0}
        → (r : Result A) → ((a : A) → P a → Q a)
        → Holds P r
        → Holds Q r
    weaken (ok a) f h = f a h
    weaken (err e) f h = tt

both-Holds :
    {A : Type 0}
    → (P Q : A → Type 0) (r : Result A) → Holds P r
    → Holds Q r
    → Holds (λ a. P a × Q a) r
both-Holds P Q (ok a) h k = (h, k)
both-Holds P Q (err e) h k = tt

module _ (last_error : Text) (now : ℕ) where
  -- Parking one task leaves the slots of the other in-flight tasks free.
  park-Free :
      (id j : ℕ) (ts : List Task)
      → IsUnique ts
      → Free waiting_dep j ts
      → Free waiting_dep j (
          update_where (λ t. t.id == id && state_eq t.state in_flight) (park_row last_error now) ts)
  unfolding park_row
  park-Free id j ts h free u v mu mv i flying key parked =
      let p : Task → Bool = λ t. t.id == id && state_eq t.state in_flight in
      let (a, ma, ea) = mem-update_where p (park_row last_error now) ts u mu in
      let (b, mb, eb) = mem-update_where p (park_row last_error now) ts v mv in
      at a b ma mb ea eb (Bool-cases (p a)) (Bool-cases (p b))
    where
      p : Task → Bool
      p t = t.id == id && state_eq t.state in_flight

      at :
          (a b : Task)
          → Memᴰ a ts
          → Memᴰ b ts
          → u ≡ updated p (park_row last_error now) a
          → v ≡ updated p (park_row last_error now) b
          → (p a ≡ true) ⊎ (p a ≡ false)
          → (p b ≡ true) ⊎ (p b ≡ false)
          → ⊥
      at a b ma mb ea eb (inl x) y =
          let it : u ≡ park_row last_error now a = ea ∙ rw x refl in
          let no_state : waiting_dep ≡ in_flight = sym (ap (λ r. r.state) it) ∙ flying in cc
      at a b ma mb ea eb (inr x) (inl y) =
          let ia : u ≡ a = ea ∙ rw x refl in
          let ib : v ≡ park_row last_error now b = eb ∙ rw y refl in
          let fb = state_eq_sound b.state in_flight (ground arith) in
          let fa = sym (ap (λ r. r.state) ia) ∙ flying in
          let kb : path_key b.path ≡ path_key a.path =
            sym (ap (λ r. path_key r.path) ib) ∙ key ∙ ap (λ r. path_key r.path) ia in
          let one = same_row ts b a h mb ma (same_slot ts b a h mb ma kb (fb ∙ sym fa)) in
          let hit : p a ≡ true = subst (λ r. p r ≡ true) one y in cc
      at a b ma mb ea eb (inr x) (inr y) =
          let ia : u ≡ a = ea ∙ rw x refl in
          let ib : v ≡ b = eb ∙ rw y refl in
          free a b ma mb (ap (λ r. r.id) (sym ia) ∙ i) (ap (λ r. r.state) (sym ia) ∙ flying)
            (ap (λ r. path_key r.path) (sym ib) ∙ key ∙ ap (λ r. path_key r.path) ia)
            (ap (λ r. r.state) (sym ib) ∙ parked)

  pub parked :
      (id : ℕ) (ids : List ℕ) (ts : List Task)
      → IsUnique ts
      → AllFree ids ts
      → Holds (AllFree ids) (update_in_flight id (park_row last_error now) ts)
  unfolding update_in_flight AllFree
  parked id ids ts h free =
      if_elim (Holds (AllFree ids)) (any (λ t. t.id == id && state_eq t.state in_flight) ts)
        (λ _.
          if_elim (Holds (AllFree ids)) (is_refused id (park_row last_error now) ts) (λ _. tt)
            (λ _. All-map _ _ (λ j f. park-Free id j ts h f) ids free))
        (λ _. tt)

  park_all-IsUnique :
      (ids : List ℕ) (ts : List Task)
      → IsUnique ts
      → AllFree ids ts
      → Holds IsUnique (park_all last_error now ids ts)
  unfolding park_all AllFree park_row
  park_all-IsUnique [] ts h free = h
  park_all-IsUnique (id ∷ ids) ts h free =
      let next = update_in_flight id (park_row last_error now) ts in
      and_then-Holds (λ ts'. IsUnique ts' × AllFree ids ts') IsUnique next
        (park_all last_error now ids)
        (both-Holds IsUnique (AllFree ids) next
          (update_in_flight-IsUnique waiting_dep id (park_row last_error now) ts
            (λ u. (refl, refl, refl)) free.0 h)
          (parked id ids ts h free.1))
        (λ ts' (unique, rest). park_all-IsUnique ids ts' unique rest)

pub mark_waiting_dep-IsUnique :
    (ids : List ℕ) (last_error : Text) (now : ℕ) (db : Db)
    → IsUnique db.tasks
    → Holds (λ d. IsUnique d.tasks) (mark_waiting_dep ids last_error now db)
unfolding mark_waiting_dep
mark_waiting_dep-IsUnique [] last_error now db h = tt
mark_waiting_dep-IsUnique (id ∷ ids) last_error now db h =
    and_then-Holds (λ _. Unit {0}) (λ d. IsUnique d.tasks) (validate_batch [] (id ∷ ids)) _
      (anything (validate_batch [] (id ∷ ids)))
      (λ _ _.
        and_then-Holds (FoundAll db.tasks (id ∷ ids)) (λ d. IsUnique d.tasks)
          (tasks_for_transition (id ∷ ids) db.tasks) _
          (tasks_for_transition-FoundAll (id ∷ ids) db.tasks)
          (λ batch found.
            and_then-Holds _ (λ d. IsUnique d.tasks) (clear_slots batch db.tasks) _
              (clear_slots-AllFree db.tasks (id ∷ ids) batch db.tasks h found (λ v m. m) h)
              (λ ts (unique, free, _).
                and_then-Holds IsUnique (λ d. IsUnique d.tasks)
                  (park_all last_error now (id ∷ ids) ts) _
                  (park_all-IsUnique last_error now (id ∷ ids) ts unique free) (λ ts' k. k))))
