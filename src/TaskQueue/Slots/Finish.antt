-- ===== src/TaskQueue/Slots/Finish.antt =====
-- The transitions out of in_flight keep the unique index (taskqueue.go: markDoneTx, markRetry,
-- MarkWaitingDepBatch; supersede.go).
use mathlib.Core.List.{Memᴰ}
use ferret_new.Base.{
  ℕ, ◌≡◌, ◌≢◌, refl, sym, ap, subst, ◌∙◌, arith, Bool, ◌&&◌, not, Option, none, some, List, [], ◌∷◌,
  Bool-cases, inl, inr, ◌==◌, if_elim, ltb, leb,
}
use ferret_new.Base.Bytes.{Text}
use ferret_new.Task.{Task, TaskState, in_flight, retry_wait, done}
use ferret_new.TaskQueue.{
  Db, path_key, find_other, in_slot, task_for_transition, update_in_flight, clear_found,
  clear_older_state_slot, has_id,
}
use ferret_new.TaskQueue.Slots.{
  IsUnique, in_slot_sound, in_slot_complete, same_row, same_slot, mem-delete_where,
  delete_where-IsUnique,
}
use ferret_new.TaskQueue.Finish.{
  retry_histories, successor, clear_done, done_row, mark_done_tx, retry_row, mark_retry,
  superseded_row, retire_if_superseded,
}
use ferret_new.TaskQueue.Slots.Step.{
  Holds, and_then-Holds, anything, Found, task_for_transition-Found, Free,
  update_in_flight-IsUnique,
}

pub clear_done-Free :
    (t : Task) (ts : List Task) → IsUnique ts → Memᴰ t ts → Free done t.id (clear_done t ts)
unfolding clear_done
clear_done-Free t ts h m u v mu mv i flying key finished =
    let p : Task → Bool = λ w. in_slot (path_key t.path) done w && not (w.id == t.id) in
    let (ku, _) = mem-delete_where p ts u mu in
    let (kv, kept) = mem-delete_where p ts v mv in
    let it = same_row ts u t h ku m i in
    let there =
      in_slot_complete (path_key t.path) done v (key ∙ ap (λ r. path_key r.path) it) finished in
    let same : v.id ≡ t.id = ground (arith, kept, there) in
    let state : done ≡ in_flight =
      sym finished ∙ ap (λ r. r.state) (same_row ts v u h kv ku (same ∙ sym i)) ∙ flying in
    cc

pub mark_done_tx-IsUnique :
    (id : ℕ) (clear_resolved : Bool) (now : ℕ) (db : Db)
    → IsUnique db.tasks
    → Holds (λ d. IsUnique d.tasks) (mark_done_tx id clear_resolved now db)
unfolding mark_done_tx clear_done
mark_done_tx-IsUnique id clear_resolved now db h =
    and_then-Holds (Found db.tasks id) (λ d. IsUnique d.tasks)
      (task_for_transition id in_flight db.tasks) _ (task_for_transition-Found id db.tasks)
      (λ t found.
        and_then-Holds IsUnique (λ d. IsUnique d.tasks)
          (update_in_flight id (done_row now) (clear_done t db.tasks)) _
          (update_in_flight-IsUnique done id (done_row now) (clear_done t db.tasks)
            (λ u. (refl, refl, refl))
            (subst (λ i. Free done i (clear_done t db.tasks)) found.1
              (clear_done-Free t db.tasks h found.0))
            (delete_where-IsUnique _ db.tasks h))
          (λ ts k. k))

pub retire_if_superseded-IsUnique :
    (message : Text) (id now : ℕ) (db : Db)
    → IsUnique db.tasks
    → Holds (λ r. IsUnique r.0.tasks) (retire_if_superseded message id now db)
unfolding retire_if_superseded clear_done
retire_if_superseded-IsUnique message id now db h =
    and_then-Holds (Found db.tasks id) (λ r. IsUnique r.0.tasks)
      (task_for_transition id in_flight db.tasks) _ (task_for_transition-Found id db.tasks)
      (λ t found.
        if_elim (Holds (λ r. IsUnique r.0.tasks)) (leb (successor t db) t.generation) (λ _. h)
          (λ _.
            and_then-Holds IsUnique (λ r. IsUnique r.0.tasks)
              (update_in_flight id (superseded_row message now) (clear_done t db.tasks)) _
              (update_in_flight-IsUnique done id (superseded_row message now)
                (clear_done t db.tasks) (λ u. (refl, refl, refl))
                (subst (λ i. Free done i (clear_done t db.tasks)) found.1
                  (clear_done-Free t db.tasks h found.0))
                (delete_where-IsUnique _ db.tasks h))
              (λ ts k. k)))

find_other-none :
    (id : ℕ) (key : Text) (st : TaskState) (ts : List Task) (v : Task)
    → find_other id key st ts ≡ none
    → Memᴰ v ts
    → path_key v.path ≡ key
    → v.state ≡ st
    → v.id ≡ id
unfolding find_other
find_other-none id key st [] v h m k s = elim m [ ]
find_other-none id key st (x ∷ ts) v h (Memᴰ.head e) k s =
    let there =
      in_slot_complete key st x (ap (λ r. path_key r.path) (sym e) ∙ k)
        (ap (λ r. r.state) (sym e) ∙ s) in
    ground arith
find_other-none id key st (x ∷ ts) v h (Memᴰ.tail m) k s =
    find_other-none id key st ts v (ground arith) m k s

find_other-some :
    (id : ℕ) (key : Text) (st : TaskState) (ts : List Task) (t : Task)
    → find_other id key st ts ≡ some t
    → Memᴰ t ts × (path_key t.path ≡ key) × (t.state ≡ st)
unfolding find_other
find_other-some id key st [] t h = cc
find_other-some id key st (x ∷ ts) t h = elim (Bool-cases (in_slot key st x && not (x.id == id))) [
  | inl hit ↦
      let it : x ≡ t = ground arith in
      let (k, s) = in_slot_sound key st x (ground arith) in
      (Memᴰ.head (sym it), ap (λ r. path_key r.path) (sym it) ∙ k, ap (λ r. r.state) (sym it) ∙ s)
  | inr miss ↦ let (m, k, s) = find_other-some id key st ts t (ground arith) in (Memᴰ.tail m, k, s)
]

-- What clearing a slot for a found row leaves: fewer rows, none of them in the slot.
abbrev pub Cleared : TaskState → ℕ → List Task → List Task → Type 0
Cleared st id ts ts' = IsUnique ts' × Free st id ts' × ((v : Task) → Memᴰ v ts' → Memᴰ v ts)

-- The in-flight rows may be fewer than those in which the row was found.
pub clear_older_state_slot-Cleared :
    (all : List Task) (t : Task) (st : TaskState) (ts : List Task)
    → in_flight ≢ st
    → IsUnique all
    → Memᴰ t all
    → ((v : Task) → Memᴰ v ts → v.state ≡ in_flight → Memᴰ v all)
    → IsUnique ts
    → Holds (Cleared st t.id ts) (clear_older_state_slot t st ts)
unfolding clear_older_state_slot
clear_older_state_slot-Cleared all t st ts differ ha m sub h =
    at (find_other t.id (path_key t.path) st ts) refl
  where
    -- A row of the slot that is not the found row's own.
    elsewhere :
        (u v : Task)
        → Memᴰ u ts
        → Memᴰ v ts
        → u.id ≡ t.id
        → u.state ≡ in_flight
        → v.state ≡ st
        → v.id ≢ t.id
    elsewhere u v mu mv i flying s same =
        differ (sym flying ∙ ap (λ r. r.state) (same_row ts u v h mu mv (i ∙ sym same)) ∙ s)

    at :
        (o : Option Task)
        → find_other t.id (path_key t.path) st ts ≡ o
        → Holds (Cleared st t.id ts) (clear_found t ts o)
    at none e = (
      h,
      λ u v mu mv i flying k s. elsewhere u v mu mv i flying s (
          find_other-none t.id (path_key t.path) st ts v e mv
            (k ∙ ap (λ r. path_key r.path) (same_row all u t ha (sub u mu flying) m i)) s),
      λ v l. l,
    )
    at (some other) e =
        let (l, ko, so) = find_other-some t.id (path_key t.path) st ts other e in
        if_elim (Holds (Cleared st t.id ts)) (ltb t.generation other.generation) (λ _. tt)
          (λ _. (
            delete_where-IsUnique (has_id other.id) ts h,
            λ u v mu mv i flying k s.
                let (ku, _) = mem-delete_where (has_id other.id) ts u mu in
                let (kv, gone) = mem-delete_where (has_id other.id) ts v mv in
                let key =
                  k ∙ ap (λ r. path_key r.path) (same_row all u t ha (sub u ku flying) m i) in
                let same = same_slot ts v other h kv l (key ∙ sym ko) (s ∙ sym so) in
                absurd (ground arith),
            λ v k. (mem-delete_where (has_id other.id) ts v k).0,
          ))

pub mark_retry-IsUnique :
    (class : Text) (id next : ℕ) (last_error : Text) (refund : Bool) (now : ℕ) (db : Db)
    → IsUnique db.tasks
    → Holds (λ d. IsUnique d.tasks) (mark_retry class id next last_error refund now db)
unfolding mark_retry retry_row
mark_retry-IsUnique class id next last_error refund now db h =
    and_then-Holds (Found db.tasks id) (λ d. IsUnique d.tasks)
      (task_for_transition id in_flight db.tasks) _ (task_for_transition-Found id db.tasks)
      (λ t found.
        and_then-Holds (Cleared retry_wait t.id db.tasks) (λ d. IsUnique d.tasks)
          (clear_older_state_slot t retry_wait db.tasks) _
          (clear_older_state_slot-Cleared db.tasks t retry_wait db.tasks (λ e. cc) h found.0
            (λ v m _. m) h)
          (λ ts cleared.
            and_then-Holds (λ _. Unit {0}) (λ d. IsUnique d.tasks)
              (retry_histories refund t class last_error now) _ (anything _)
              (λ r _.
                and_then-Holds IsUnique (λ d. IsUnique d.tasks)
                  (update_in_flight id (retry_row refund next last_error r now) ts) _
                  (update_in_flight-IsUnique retry_wait id (retry_row refund next last_error r now)
                    ts (λ u. (refl, refl, refl))
                    (subst (λ i. Free retry_wait i ts) found.1 cleared.1) cleared.0)
                  (λ ts' k. k))))
