-- ===== src/TaskQueue/Slots/Step.antt =====
-- What one transition does to the unique index, and properties of results (taskqueue.go:
-- taskForTransition, requireChanged).
use mathlib.Core.List.{Memᴰ}
use ferret_new.Base.{
  any_sound, Bool, true, ℕ, ◌≡◌, ◌≢◌, refl, sym, ap, ◌∙◌, arith, ◌&&◌, Option, none, some, List, [],
  ◌∷◌, Bool-cases, inl, inr, ◌==◌, if_elim, any,
}
use ferret_new.Task.{Task, TaskState, in_flight, state_eq}
use ferret_new.TaskQueue.{
  Result, ok, err, and_then, path_key, find, expect_state, task_for_transition, update_in_flight,
  is_refused, update_where,
}
use ferret_new.TaskQueue.Slots.{IsUnique, state_eq_sound, same_row, retarget-IsUnique}

-- A property of the value of a result, if there is one.
abbrev pub Holds : {A : Type 0} → (A → Type 0) → Result A → Type 0
Holds P (ok a) = P a
Holds P (err e) = Unit {0}

pub and_then-Holds :
    {A B : Type 0}
    → (P : A → Type 0) (Q : B → Type 0) (r : Result A) (f : A → Result B) → Holds P r
    → ((a : A) → P a → Holds Q (f a))
    → Holds Q (and_then r f)
and_then-Holds P Q (ok a) f h k = k a h
and_then-Holds P Q (err e) f h k = tt

pub anything : {A : Type 0} → (r : Result A) → Holds (λ _. Unit {0}) r
anything (ok a) = tt
anything (err e) = tt

-- What a transition knows of the row that it found.
abbrev pub Found : List Task → ℕ → Task → Type 0
Found ts id t = Memᴰ t ts × (t.id ≡ id) × (t.state ≡ in_flight)

find_sound : (id : ℕ) (ts : List Task) (t : Task) → find id ts ≡ some t → Memᴰ t ts × (t.id ≡ id)
unfolding find
find_sound id [] t h = cc
find_sound id (x ∷ ts) t h = elim (Bool-cases (x.id == id)) [
  | inl hit ↦ (Memᴰ.head (ground arith), ground arith)
  | inr miss ↦ let (m, e) = find_sound id ts t (ground arith) in (Memᴰ.tail m, e)
]

pub task_for_transition-Found :
    (id : ℕ) (ts : List Task) → Holds (Found ts id) (task_for_transition id in_flight ts)
unfolding task_for_transition
task_for_transition-Found id ts = at (find id ts) refl
  where
    at : (o : Option Task) → find id ts ≡ o → Holds (Found ts id) (expect_state in_flight o)
    at none e = tt
    at (some t) e =
        let (m, i) = find_sound id ts t e in
        if_elim (Holds (Found ts id)) (state_eq t.state in_flight)
          (λ s. (m, i, state_eq_sound t.state in_flight s)) (λ _. tt)

-- No row has the slot of this state for the path of an in-flight row of this id.
abbrev pub Free : TaskState → ℕ → List Task → Type 0
Free st id ts =
    (u v : Task)
    → Memᴰ u ts
    → Memᴰ v ts
    → u.id ≡ id
    → u.state ≡ in_flight
    → path_key v.path ≡ path_key u.path
    → v.state ≢ st

-- An update of an in-flight row moves it to a free slot.
pub update_in_flight-IsUnique :
    (st : TaskState) (id : ℕ) (f : Task → Task) (ts : List Task)
    → ((t : Task) → ((f t).id ≡ t.id) × ((f t).path ≡ t.path) × ((f t).state ≡ st))
    → Free st id ts
    → IsUnique ts
    → Holds IsUnique (update_in_flight id f ts)
unfolding update_in_flight
update_in_flight-IsUnique st id f ts keeps free h =
    if_elim (Holds IsUnique) (any p ts)
      (λ found. if_elim (Holds IsUnique) (is_refused id f ts) (λ _. tt) (λ _. moved found))
      (λ _. tt)
  where
    p : Task → Bool
    p t = t.id == id && state_eq t.state in_flight

    moved : any p ts ≡ true → IsUnique (update_where p f ts)
    moved found =
        let (t, m, hit) = any_sound p ts found in
        let i : t.id ≡ id = ground arith in
        let flying = state_eq_sound t.state in_flight (ground arith) in
        retarget-IsUnique p f id (path_key t.path) st ts
          (λ u k same.
            let iu : u.id ≡ id = ground arith in
            let it = same_row ts u t h k m (iu ∙ sym i) in
            (iu, (keeps u).0 ∙ iu, ap path_key ((keeps u).1 ∙ ap (λ r. r.path) it), (keeps u).2))
          (λ u k other e. free t u m k i flying e) h

-- A step that may fail, of which nothing is needed.
pub skip-Holds :
    {A B : Type 0}
    → (Q : B → Type 0) (r : Result A) (f : A → Result B) → ((a : A) → Holds Q (f a))
    → Holds Q (and_then r f)
skip-Holds Q (ok a) f k = k a
skip-Holds Q (err e) f k = tt

pub weaken-Holds :
    {A : Type 0} → (P Q : A → Type 0) (r : Result A) → ((a : A) → P a → Q a) → Holds P r → Holds Q r
weaken-Holds P Q (ok a) k h = k a h
weaken-Holds P Q (err e) k h = tt

pub both-Holds :
    {A : Type 0}
    → (P Q : A → Type 0) (r : Result A) → Holds P r
    → Holds Q r
    → Holds (λ a. P a × Q a) r
both-Holds P Q (ok a) h k = (h, k)
both-Holds P Q (err e) h k = tt
