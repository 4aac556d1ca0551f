-- ===== src/TaskQueue/History.antt =====
-- The capped failure histories of a task (taskqueue.go: appendFailureHistory, mergeFailureHistory).
pub mod Bound
use ferret_new.Base.{ℕ, ◌-◌, List, [], ◌∷◌, ◌++◌, length, drop, if◌then◌else◌, ltb}
use ferret_new.Task.{History, HistoryEntry, entries, malformed}
use ferret_new.TaskQueue.{Result, ok, err, malformed_history}

abbrev pub max_task_failure_history : ℕ
max_task_failure_history = 32

unfoldable pub last_entries : List HistoryEntry → List HistoryEntry
last_entries merged =
    if ltb max_task_failure_history (length merged)
    then drop (length merged - max_task_failure_history) merged
    else merged

unfoldable pub merge_failure_history : History → History → Result History
unfolding last_entries
merge_failure_history (entries xs) (entries ys) = ok (entries (last_entries (xs ++ ys)))
merge_failure_history malformed h = err malformed_history
merge_failure_history (entries xs) malformed = err malformed_history

unfoldable pub append_failure_history : History → HistoryEntry → Result History
unfolding merge_failure_history
append_failure_history h entry = merge_failure_history h (entries (entry ∷ []))
