-- ===== src/TaskQueue/Enqueue/Coalesce.antt =====
-- What coalescing into a pending task keeps (taskqueue.go: EnqueueTx).
use ferret_new.Base.{
  ℕ, ◌≡◌, ◌≢◌, ◌<◌, ◌⊎◌, inl, inr, refl, sym, Option, none, some, ltb, Bool-cases, arith,
}
use ferret_new.Task.{Task}
use ferret_new.TaskQueue.Enqueue.{merge_row}

-- The rows are the same but for their file and the time of their last update.
abbrev pub SameButFile : Task → Task → Type 0
SameButFile t u =
    (t.id ≡ u.id)
    × (t.state ≡ u.state)
    × (t.generation ≡ u.generation)
    × (t.path ≡ u.path)
    × (t.op ≡ u.op)
    × (t.old_path ≡ u.old_path)
    × (t.attempts ≡ u.attempts)
    × (t.crash_count ≡ u.crash_count)
    × (t.claim_attempt_charge ≡ u.claim_attempt_charge)
    × (t.last_error ≡ u.last_error)
    × (t.attempts_log ≡ u.attempts_log)
    × (t.error_chain ≡ u.error_chain)
    × (t.priority ≡ u.priority)
    × (t.next_attempt_at_ms ≡ u.next_attempt_at_ms)
    × (t.created_at_ms ≡ u.created_at_ms)

-- The task of the smaller generation has a file, and the other one has none.
abbrev pub OnlyOlderHasFile : Task → Task → Type 0
OnlyOlderHasFile a b =
    ((a.generation < b.generation) × (b.file_id ≡ none) × (a.file_id ≢ none))
    ⊎ ((b.generation < a.generation) × (a.file_id ≡ none) × (b.file_id ≢ none))

same_file :
    (t a b : Task)
    → a.generation < b.generation
    → ((merge_row b (merge_row a t)).file_id ≡ (merge_row a (merge_row b t)).file_id)
      ⊎ ((b.file_id ≡ none) × (a.file_id ≢ none))
unfolding merge_row
same_file t a b older = at a.file_id b.file_id refl refl
  where
    at :
        (o p : Option ℕ)
        → a.file_id ≡ o
        → b.file_id ≡ p
        → ((merge_row b (merge_row a t)).file_id ≡ (merge_row a (merge_row b t)).file_id)
          ⊎ ((b.file_id ≡ none) × (a.file_id ≢ none))
    at none none e f = inl (ground arith)
    at none (some j) e f = inl (ground arith)
    at (some i) (some j) e f = inl (ground arith)
    at (some i) none e f = inr (f, λ h. cc)

-- Two enqueued tasks of different generations coalesce into a pending task in either order with the same
-- result, but for the time of the last update, and for the file when only the task of the smaller
-- generation has one.
pub merge_row_comm :
    (t a b : Task)
    → a.generation ≢ b.generation
    → SameButFile (merge_row b (merge_row a t)) (merge_row a (merge_row b t))
      × (((merge_row b (merge_row a t)).file_id ≡ (merge_row a (merge_row b t)).file_id)
          ⊎ OnlyOlderHasFile a b)
unfolding merge_row
merge_row_comm t a b differ = (
  (
    refl,
    refl,
    ground arith,
    ground arith,
    ground arith,
    ground arith,
    ground arith,
    ground arith,
    ground arith,
    ground arith,
    ground arith,
    ground arith,
    ground arith,
    ground arith,
    refl,
  ),
  elim (Bool-cases (ltb a.generation b.generation)) [
    | inl less ↦
        let older : a.generation < b.generation = ground arith in
        elim (same_file t a b older) [ inl e ↦ inl e | inr (f, e) ↦ inr (inl (older, f, e)) ]
    | inr more ↦
        let older : b.generation < a.generation = ground arith in
        elim (same_file t b a older) [ inl e ↦ inl (sym e) | inr (f, e) ↦ inr (inr (older, f, e)) ]
  ],
)
