-- ===== src/TaskQueue/History/Bound.antt =====
-- A merged history is the end of the two, and has a bounded length (taskqueue.go:
-- mergeFailureHistory).
use ferret_new.Base.{
  ℕ, zero, suc, ◌+◌, ◌-◌, ◌≤◌, ◌<◌, ◌≡◌, refl, ap, arith, List, [], ◌∷◌, ◌++◌, length, take, drop,
  ltb, if_elim,
}
use ferret_new.Task.{HistoryEntry, entries}
use ferret_new.TaskQueue.{ok}
use ferret_new.TaskQueue.History.{last_entries, merge_failure_history, max_task_failure_history}

take-drop : (n : ℕ) (xs : List HistoryEntry) → xs ≡ take n xs ++ drop n xs
take-drop zero xs = refl
take-drop (suc n) [] = refl
take-drop (suc n) (x ∷ xs) = ap (◌∷◌ x) (take-drop n xs)

length-drop : (n : ℕ) (xs : List HistoryEntry) → n ≤ length xs → length (drop n xs) + n ≡ length xs
length-drop zero xs h = omega arith
length-drop (suc n) [] h = absurd (omega arith)
length-drop (suc n) (x ∷ xs) h = omega (arith, length-drop n xs (omega arith))

-- The end of a list, as long as the cap lets it be.
abbrev pub CappedEnd : List HistoryEntry → List HistoryEntry → Type 0
CappedEnd all zs =
    ((dropped : List HistoryEntry) × (all ≡ dropped ++ zs) × (length zs < 32 → dropped ≡ []))
    × (length zs ≤ 32)

last_entries-CappedEnd : (all : List HistoryEntry) → CappedEnd all (last_entries all)
unfolding last_entries
last_entries-CappedEnd all =
    if_elim (CappedEnd all) (ltb max_task_failure_history (length all))
      (λ longer.
        let n = length all - 32 in
        let more : 32 < length all = ground arith in
        let size = length-drop n all (omega arith) in
        ((take n all, take-drop n all, λ shorter. absurd (omega arith)), omega arith))
      (λ fits. (([], refl, λ _. refl), ground arith))

-- Merging two JSON arrays gives their newest entries in order: all of them if they are fewer than 32,
-- and otherwise the last 32.
pub merge_failure_history_exact :
    (xs ys : List HistoryEntry)
    → (zs : List HistoryEntry) × (merge_failure_history (entries xs) (entries ys) ≡ ok (entries zs))
      × CappedEnd (xs ++ ys) zs
unfolding merge_failure_history
merge_failure_history_exact xs ys =
    (last_entries (xs ++ ys), refl, last_entries-CappedEnd (xs ++ ys))
