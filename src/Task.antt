-- ===== src/Task.antt =====
-- The rows of the durable task queue and the parameters of its operations, as in
-- packages/index-node/internal/store/models.go. An int64 of the database that the code only counts
-- up or compares is a natural number; one that the code checks for its sign is an integer. Times are
-- milliseconds.
use ferret_new.Base.{ℕ, ◌+◌, Bool, true, false, Option, List, ◌==◌, if◌then◌else◌}
use ferret_new.Base.Bytes.{Text}
use ferret_new.Base.Int.{ℤ}

-- The code's TaskOp is a string; `other` is any that is not one of its three constants.
pub data TaskOp : Type 0 where
  upsert remove relocate : TaskOp
  other : Text → TaskOp

pub data TaskState : Type 0 where
  pending in_flight retry_wait waiting_dep done dead : TaskState

abbrev pub state_eq : TaskState → TaskState → Bool
state_eq pending pending = true
state_eq in_flight in_flight = true
state_eq retry_wait retry_wait = true
state_eq waiting_dep waiting_dep = true
state_eq done done = true
state_eq dead dead = true
state_eq _ _ = false

-- A JSON value of a history: an attempt (its number, its time, its class, its error), a retry or a
-- crash of the process with its message, or the text of any other value.
pub data HistoryEntry : Type 0 where
  attempted : ℕ → ℕ → Text → Text → HistoryEntry
  retried crashed : Text → HistoryEntry
  value : Text → HistoryEntry

-- A column of JSON text: the array of values that it encodes (none for the empty text), or a text
-- that is no JSON array.
pub data History : Type 0 where
  entries : List HistoryEntry → History
  malformed : History

pub record Task : Type 0 where
  pub id : ℕ
  pub file_id : Option ℕ
  pub path : Text
  pub op : TaskOp
  pub old_path : Option Text
  pub generation : ℕ
  pub state : TaskState
  pub priority : ℕ
  pub attempts : ℕ
  pub crash_count : ℕ
  pub next_attempt_at_ms : ℕ
  pub last_error : Option Text
  pub created_at_ms : ℕ
  pub updated_at_ms : ℕ
  pub claim_attempt_charge : ℕ
  pub attempts_log : History
  pub error_chain : History

-- Task.FailureAttempts
unfoldable pub failure_attempts : Task → ℕ
failure_attempts t = if t.claim_attempt_charge == 0 then t.attempts + 1 else t.attempts

pub record EnqueueParams : Type 0 where
  pub file_id : Option ℕ
  pub path : Text
  pub op : TaskOp
  pub old_path : Option Text
  pub generation : ℤ
  pub priority : ℤ
  pub next_attempt_at_ms : ℕ

pub record EnqueueResult : Type 0 where
  pub task : Task
  pub inserted : Bool
