-- ===== src/Debounce/Pending/Overwrite.antt =====
-- A move onto the destination of a pending move (debounce.go: add).
use ferret_new.Base.{inr, inl, Bool-cases, ℕ, false, ◌≡◌, ◌≢◌, refl, none, some, List, [], ◌∷◌}
use ferret_new.Base.Bytes.{Text, text_eq, text_eq_iff, text_eq_refl}
use ferret_new.Base.TextMap.{lookup, delete, insert}
use ferret_new.FilePath.{clean}
use ferret_new.FilePath.Idempotent.{clean_idem}
use ferret_new.Debounce.{is_empty, move, path_key}
use ferret_new.Debounce.Pending.{DeadlineEntry, PendingChange, add, add_move, put, forget}

at_path : (key : Text) (p : PendingChange) → lookup key ((key, p) ∷ []) ≡ some p
unfolding lookup
at_path key p = rw (text_eq_refl key) refl

delete_only : (key : Text) (p : PendingChange) → delete key ((key, p) ∷ []) ≡ []
unfolding delete
delete_only key p = rw (text_eq_refl key) refl

delete_nothing : (key : Text) → delete {V = PendingChange} key [] ≡ []
unfolding delete
delete_nothing key = refl

not_at : (j k : Text) (p : PendingChange) → j ≢ k → lookup k ((j, p) ∷ []) ≡ none
unfolding lookup
not_at j k p other = elim (Bool-cases (text_eq j k)) [
  | inl same ↦ absurd (other ((text_eq_iff j k).0 same))
  | inr differs ↦ rw differs refl
]

-- When the only pending change is for the destination of a new move, and the source of the new move is
-- another path, the new move takes its place: it is then the only pending change. So if the change was
-- a move from a third path, no pending change says that the third path is gone.
pub overwritten_move_forgotten :
    (p : PendingChange) (window sequence at : ℕ) (path old_path : Text) (ds : List DeadlineEntry)
    → is_empty old_path ≡ false
    → clean path ≢ clean old_path
    → (new : PendingChange) × (new.change
        ≡ record { op = move; path = clean path; old_path = clean old_path; at = at })
      × ((add
            (record { op = move; path = path; old_path = old_path; at = at })
            (record {
              window = window;
              by_path = (clean path, p) ∷ [];
              deadlines = ds;
              sequence = sequence;
            })).by_path
          ≡ (clean path, new) ∷ [])
unfolding add add_move put forget path_key insert
overwritten_move_forgotten p window sequence at path old_path ds nonempty other =
    rw
      (
        nonempty,
        clean_idem old_path,
        not_at (clean path) (clean old_path) p other,
        clean_idem path,
        delete_only (clean path) p,
        delete_nothing (clean path),
      )
      (_, refl, refl)
