-- ===== src/TaskQueue/Slots.antt =====
-- The unique index on (path_key, state) of the task table, and how updates and deletes keep it
-- (taskqueue.go).
pub mod Step
pub mod Finish
pub mod Park
pub mod Claim
pub mod Release
pub mod Waiting
pub mod Released
pub mod Enqueue
pub mod Whole
pub mod Store
pub mod Accepted
pub mod Fenced
pub mod Complete
pub mod Grounded
pub mod Recovery
pub mod Bump
pub mod Run
use mathlib.Core.List.{Memᴰ}
use mathlib.Core.List.Memᴰ
use ferret_new.Base.{
  ◌⊎◌, ℕ, ◌≡◌, ◌≢◌, refl, sym, ap, subst, ◌∙◌, arith, Bool, true, false, Option, none, some, List,
  [], ◌∷◌, All, All-mem, All-map, Bool-cases, inl, inr, ◌==◌, ==_iff, if◌then◌else◌, if_elim,
}
use ferret_new.Base.Bytes.{Text, text_eq, text_eq_iff}
use ferret_new.Task.{
  Task, TaskState, pending, in_flight, retry_wait, waiting_dep, done, dead, state_eq,
}
use ferret_new.TaskQueue.{path_key, find, in_slot, find_slot, delete_where, update_where}

pub state_eq_sound : (a b : TaskState) → state_eq a b ≡ true → a ≡ b
state_eq_sound pending pending h = refl
state_eq_sound in_flight in_flight h = refl
state_eq_sound retry_wait retry_wait h = refl
state_eq_sound waiting_dep waiting_dep h = refl
state_eq_sound done done h = refl
state_eq_sound dead dead h = refl
state_eq_sound _ _ h = cc

pub state_eq_refl : (a : TaskState) → state_eq a a ≡ true
state_eq_refl pending = refl
state_eq_refl in_flight = refl
state_eq_refl retry_wait = refl
state_eq_refl waiting_dep = refl
state_eq_refl done = refl
state_eq_refl dead = refl

-- Two rows with different ids that are not both in one slot.
abbrev pub Apart : Task → Task → Type 0
Apart t u = (t.id ≢ u.id) × (path_key t.path ≡ path_key u.path → t.state ≢ u.state)

-- The ids and the slots of the rows are distinct.
abbrev pub IsUnique : List Task → Type 0
IsUnique [] = Unit {0}
IsUnique (t ∷ ts) = All (Apart t) ts × IsUnique ts

pub Apart-symm : (t u : Task) → Apart t u → Apart u t
Apart-symm t u h = (λ e. h.0 (sym e), λ e s. h.1 (sym e) (sym s))

pub in_slot_sound :
    (key : Text) (st : TaskState) (t : Task)
    → in_slot key st t ≡ true
    → (path_key t.path ≡ key) × (t.state ≡ st)
unfolding in_slot
in_slot_sound key st t h =
    ((text_eq_iff (path_key t.path) key).0 (ground arith), state_eq_sound t.state st (ground arith))

pub in_slot_complete :
    (key : Text) (st : TaskState) (t : Task)
    → path_key t.path ≡ key
    → t.state ≡ st
    → in_slot key st t ≡ true
unfolding in_slot
in_slot_complete key st t e s =
    rw ((text_eq_iff (path_key t.path) key).1 e, s, state_eq_refl st) refl

-- Two rows of the table with one id are one row.
pub same_row :
    (ts : List Task) (t u : Task) → IsUnique ts → Memᴰ t ts → Memᴰ u ts → t.id ≡ u.id → t ≡ u
same_row [] t u h m k e = elim m [ ]
same_row (x ∷ ts) t u h (Memᴰ.head a) (Memᴰ.head b) e = a ∙ sym b
same_row (x ∷ ts) t u h (Memᴰ.head a) (Memᴰ.tail k) e =
    absurd ((All-mem (Apart x) u ts h.0 k).0 (ap (λ r. r.id) (sym a) ∙ e))
same_row (x ∷ ts) t u h (Memᴰ.tail m) (Memᴰ.head b) e =
    absurd ((All-mem (Apart x) t ts h.0 m).0 (ap (λ r. r.id) (sym b) ∙ sym e))
same_row (x ∷ ts) t u h (Memᴰ.tail m) (Memᴰ.tail k) e = same_row ts t u h.1 m k e

-- Two rows of the table in one slot have one id.
pub same_slot :
    (ts : List Task) (t u : Task)
    → IsUnique ts
    → Memᴰ t ts
    → Memᴰ u ts
    → path_key t.path ≡ path_key u.path
    → t.state ≡ u.state
    → t.id ≡ u.id
same_slot [] t u h m k e s = elim m [ ]
same_slot (x ∷ ts) t u h (Memᴰ.head a) (Memᴰ.head b) e s = ap (λ r. r.id) (a ∙ sym b)
same_slot (x ∷ ts) t u h (Memᴰ.head a) (Memᴰ.tail k) e s = absurd (
    (All-mem (Apart x) u ts h.0 k).1 (ap (λ r. path_key r.path) (sym a) ∙ e)
      (ap (λ r. r.state) (sym a) ∙ s))
same_slot (x ∷ ts) t u h (Memᴰ.tail m) (Memᴰ.head b) e s = absurd (
    (All-mem (Apart x) t ts h.0 m).1 (ap (λ r. path_key r.path) (sym b) ∙ sym e)
      (ap (λ r. r.state) (sym b) ∙ sym s))
same_slot (x ∷ ts) t u h (Memᴰ.tail m) (Memᴰ.tail k) e s = same_slot ts t u h.1 m k e s

mem_kept :
    (b : Bool) (x t : Task) (rest : List Task)
    → Memᴰ t (if b then rest else x ∷ rest)
    → Memᴰ t rest ⊎ ((t ≡ x) × (b ≡ false))
mem_kept true x t rest m = inl m
mem_kept false x t rest (Memᴰ.head e) = inr (e, refl)
mem_kept false x t rest (Memᴰ.tail m) = inl m

pub mem-delete_where :
    (p : Task → Bool) (ts : List Task) (t : Task)
    → Memᴰ t (delete_where p ts)
    → Memᴰ t ts × (p t ≡ false)
mem-delete_where p [] t m = elim m [ ]
mem-delete_where p (x ∷ ts) t m = elim (mem_kept (p x) x t (delete_where p ts) m) [
  | inl k ↦ let (l, h) = mem-delete_where p ts t k in (Memᴰ.tail l, h)
  | inr (e, h) ↦ (Memᴰ.head e, ap p e ∙ h)
]

All-delete_where :
    (P : Task → Type 0) (p : Task → Bool) (ts : List Task) → All P ts → All P (delete_where p ts)
All-delete_where P p [] h = tt
All-delete_where P p (x ∷ ts) h =
    if_elim (All P) (p x) (λ _. All-delete_where P p ts h.1)
      (λ _. (h.0, All-delete_where P p ts h.1))

pub delete_where-IsUnique :
    (p : Task → Bool) (ts : List Task) → IsUnique ts → IsUnique (delete_where p ts)
delete_where-IsUnique p [] h = tt
delete_where-IsUnique p (x ∷ ts) h =
    if_elim IsUnique (p x) (λ _. delete_where-IsUnique p ts h.1)
      (λ _. (All-delete_where (Apart x) p ts h.0, delete_where-IsUnique p ts h.1))

module _ (p : Task → Bool) (f : Task → Task) where
  -- What an update makes of a row.
  abbrev pub updated : Task → Task
  updated t = if p t then f t else t

  pub mem-update_where :
      (ts : List Task) (t : Task)
      → Memᴰ t (update_where p f ts)
      → (u : Task) × Memᴰ u ts × (t ≡ updated u)
  mem-update_where [] t m = elim m [ ]
  mem-update_where (x ∷ ts) t (Memᴰ.head e) = (x, Memᴰ.head refl, e)
  mem-update_where (x ∷ ts) t (Memᴰ.tail m) =
      let (u, k, e) = mem-update_where ts t m in (u, Memᴰ.tail k, e)

  All-update_where :
      (P Q : Task → Type 0) (ts : List Task)
      → ((u : Task) → Memᴰ u ts → P u → Q (updated u))
      → All P ts
      → All Q (update_where p f ts)
  All-update_where P Q [] k h = tt
  All-update_where P Q (x ∷ ts) k h =
      (k x (Memᴰ.head refl) h.0, All-update_where P Q ts (λ u m. k u (Memᴰ.tail m)) h.1)

  -- An update keeps the rows apart if it keeps any two of them apart.
  pub update_where-IsUnique :
      (ts : List Task)
      → ((t u : Task) → Memᴰ t ts → Memᴰ u ts → Apart t u → Apart (updated t) (updated u))
      → IsUnique ts
      → IsUnique (update_where p f ts)
  update_where-IsUnique [] k h = tt
  update_where-IsUnique (x ∷ ts) k h = (
    All-update_where (Apart x) (Apart (updated x)) ts (λ u m. k x u (Memᴰ.head refl) (Memᴰ.tail m))
        h.0,
    update_where-IsUnique ts (λ t u m l. k t u (Memᴰ.tail m) (Memᴰ.tail l)) h.1,
  )

  -- An update of the rows of one id moves them to a slot that no other row has.
  pub retarget-IsUnique :
      (id : ℕ) (key : Text) (st : TaskState) (ts : List Task)
      → ((t : Task)
          → Memᴰ t ts
          → p t ≡ true
          → (t.id ≡ id) × ((f t).id ≡ id) × (path_key (f t).path ≡ key) × ((f t).state ≡ st))
      → ((u : Task) → Memᴰ u ts → u.id ≢ id → path_key u.path ≡ key → u.state ≢ st)
      → IsUnique ts
      → IsUnique (update_where p f ts)
  retarget-IsUnique id key st ts moves free h =
      update_where-IsUnique ts (λ t u m l a. apart t u m l a (Bool-cases (p t)) (Bool-cases (p u)))
        h
    where
      apart_moved : (t u : Task) → Memᴰ t ts → Memᴰ u ts → Apart t u → p t ≡ true → Apart (f t) u
      apart_moved t u m l a hit =
          let (e, i, k, s) = moves t m hit in
          let other : u.id ≢ id = λ same. a.0 (e ∙ sym same) in
          (λ same. other (sym same ∙ i), λ ek es. free u l other (sym ek ∙ k) (sym es ∙ s))

      apart :
          (t u : Task)
          → Memᴰ t ts
          → Memᴰ u ts
          → Apart t u
          → (p t ≡ true) ⊎ (p t ≡ false)
          → (p u ≡ true) ⊎ (p u ≡ false)
          → Apart (updated t) (updated u)
      apart t u m l a (inl x) (inl y) = absurd (a.0 ((moves t m x).0 ∙ sym (moves u l y).0))
      apart t u m l a (inl x) (inr y) = rw (x, y) (apart_moved t u m l a x)
      apart t u m l a (inr x) (inl y) =
          rw (x, y) (Apart-symm (f u) t (apart_moved u t l m (Apart-symm t u a) y))
      apart t u m l a (inr x) (inr y) = rw (x, y) a
