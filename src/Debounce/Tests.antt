-- ===== src/Debounce/Tests.antt =====
-- Runs of the debouncer (debounce.go), and the theorems at concrete inputs.
use ferret_new.Base.{ℕ, ◌≤◌, ◌≡◌, ◌≢◌, refl, true, false, none, some, List, [], ◌∷◌, arith, length}
use ferret_new.Base.Bytes.{Text, text_eq}
use ferret_new.Base.TextMap.{lookup}
use ferret_new.FilePath.{clean}
use ferret_new.Task.{Task, pending, entries, EnqueueParams}
use ferret_new.Debounce.{
  created, modified, removed, move, RawChange, merge_same_path, merge_from_source, validate_change,
}
use ferret_new.Debounce.Pending.{
  PendingChange, PendingState, new_pending_state, add, next_deadline, peek, remove,
}
use ferret_new.Debounce.Pending.Deadlines.{Inv}
use ferret_new.Debounce.Pending.Exact.{add_all, added-Inv, next_deadline_exact}
use ferret_new.Debounce.Pending.Overwrite.{overwritten_move_forgotten}
use ferret_new.Debounce.Flush.{FlushOps, file, ok, flush_due, flush_all, persist}
use ferret_new.Debounce.Flush.Due.{Outcome, flush_due-Outcome, flush_all-Outcome}
use ferret_new.Debounce.Meaning.{
  apply, apply_kept, merge_same_path_meaning, merge_from_source_meaning,
}

-- The texts "/a", "/b" and "/c".
abbrev a : Text
a = b'/' ∷ b'a' ∷ []

abbrev b : Text
b = b'/' ∷ b'b' ∷ []

abbrev c : Text
c = b'/' ∷ b'c' ∷ []

abbrev create_a : RawChange
create_a = record { op = created; path = a; old_path = []; at = 5 }

abbrev remove_a : RawChange
remove_a = record { op = removed; path = a; old_path = []; at = 6 }

abbrev modify_b : RawChange
modify_b = record { op = modified; path = b; old_path = []; at = 7 }

abbrev move_a_c : RawChange
move_a_c = record { op = move; path = c; old_path = a; at = 8 }

abbrev changes : List RawChange
changes = create_a ∷ modify_b ∷ move_a_c ∷ []

-- The creation and the move merge into the creation of the destination, and the modification is due
-- first.
abbrev waiting : PendingState
unfolding add_all new_pending_state
waiting = add_all changes (new_pending_state 10)

waiting_deadline : (next_deadline waiting).1 ≡ some 17
unfolding waiting add_all add new_pending_state next_deadline merge_from_source lookup text_eq clean
waiting_deadline = refl

create_remove_drops : (merge_same_path create_a remove_a).1 ≡ false
unfolding merge_same_path
create_remove_drops = refl

move_without_source_refused : validate_change (record move_a_c { old_path = [] }) ≡ false
unfolding validate_change
move_without_source_refused = refl

waiting-Inv : Inv (length changes) waiting
unfolding waiting
waiting-Inv = added-Inv 10 changes (omega arith)

added-Inv_example : Inv (length changes) (add_all changes (new_pending_state 10))
added-Inv_example = added-Inv 10 changes (omega arith)

next_deadline_exact_example :
    ((next_deadline waiting).1 ≡ none → (k : Text) → lookup k waiting.by_path ≡ none)
    × ((t : ℕ)
        → (next_deadline waiting).1 ≡ some t
        → ((k : Text) × (p : PendingChange) × (lookup k waiting.by_path ≡ some p)
            × (p.deadline ≡ t))
          × ((k : Text) (p : PendingChange) → lookup k waiting.by_path ≡ some p → t ≤ p.deadline))
next_deadline_exact_example = next_deadline_exact (length changes) waiting waiting-Inv

abbrev row : EnqueueParams → Task
row params = record {
  id = 1;
  file_id = none;
  path = params.path;
  op = params.op;
  old_path = params.old_path;
  generation = 1;
  state = pending;
  priority = 5;
  attempts = 0;
  crash_count = 0;
  next_attempt_at_ms = 0;
  last_error = none;
  created_at_ms = 0;
  updated_at_ms = 0;
  claim_attempt_charge = 0;
  attempts_log = entries [];
  error_chain = entries [];
}

-- A file system of files, and a queue that remembers the paths that were enqueued.
abbrev ops : FlushOps (List Text) (Unit {0})
ops = record {
  lstat = λ path w. file;
  list_files_by_prefix = λ prefix n w. ok 0;
  enqueue_and_bump_generation =
      λ params w. (params.path ∷ w, ok (record { task = row params; inserted = true }));
  directory_notify = λ change task w. (w, none);
  has_directory_notify = false;
  notify = λ w. w;
  invalid_change = tt;
}

-- At time 17 the modification is due and the creation is not.
due_flushed : (flush_due ops 17 waiting []).1 ≡ b ∷ []
unfolding waiting add_all add new_pending_state merge_from_source flush_due peek lookup text_eq
    clean persist remove
due_flushed = refl

flush_due-Outcome_example :
    Outcome ops false 17 waiting.by_path
      (flush_due ops 17 waiting []).0.by_path
      (flush_due ops 17 waiting []).2
flush_due-Outcome_example = flush_due-Outcome ops 17 (length changes) waiting [] waiting-Inv

flush_all-Outcome_example :
    Outcome ops true 0 waiting.by_path
      (flush_all ops waiting []).0.by_path
      (flush_all ops waiting []).2
flush_all-Outcome_example = flush_all-Outcome ops (length changes) waiting [] waiting-Inv

b_only : text_eq b a ≡ false
unfolding text_eq
b_only = refl

merge_same_path_meaning_example :
    apply_kept (merge_same_path create_a remove_a) (λ k. text_eq b k) a
    ≡ apply remove_a (apply create_a (λ k. text_eq b k)) a
merge_same_path_meaning_example =
    merge_same_path_meaning create_a remove_a (λ k. text_eq b k) refl refl (λ _. b_only) a

merge_from_source_meaning_example :
    apply (merge_from_source create_a move_a_c) (λ k. text_eq b k) c
    ≡ apply move_a_c (apply create_a (λ k. text_eq b k)) c
merge_from_source_meaning_example =
    merge_from_source_meaning create_a move_a_c (λ k. text_eq b k) refl refl (λ _. b_only) c

-- Moves from "/a" and from "/b" to "/c".
abbrev first_move : PendingChange
first_move = record { key = c; change = move_a_c; deadline = 18; version = 1 }

c-b-differ : clean c ≢ clean b
unfolding clean
c-b-differ = ground arith

overwritten_move_forgotten_example :
    (new : PendingChange) × (new.change
      ≡ record { op = move; path = clean c; old_path = clean b; at = 9 })
    × ((add
          (record { op = move; path = c; old_path = b; at = 9 })
          (record {
            window = 10;
            by_path = (clean c, first_move) ∷ [];
            deadlines = [];
            sequence = 1;
          })).by_path
        ≡ (clean c, new) ∷ [])
overwritten_move_forgotten_example =
    overwritten_move_forgotten first_move 10 1 9 c b [] refl c-b-differ
