-- ===== src/TaskQueue/Recovery/Cleared.antt =====
-- What a start after a crash leaves (store.go: beginStartup, recoverInFlightTx).
use mathlib.Core.List.{Memᴰ}
use ferret_new.Base.{ℕ, ◌≡◌, ◌≢◌, true, false, Option, none, some, List, []}
use ferret_new.Base.Bytes.{Text, text_eq, codes}
use ferret_new.Task.{Task, in_flight}
use ferret_new.TaskQueue.{Db}
use ferret_new.TaskQueue.Recovery.{Versions, begin_startup, recover_in_flight}
use ferret_new.TaskQueue.Slots.Step.{Holds, and_then-Holds}
use ferret_new.TaskQueue.Slots.Whole.{IsSound, SoundAfter}
use ferret_new.TaskQueue.Slots.Recovery.{recover_in_flight-Recovers}
use ferret_new.TaskQueue.Slots.Grounded.{Recovers}

-- No row is in flight.
abbrev pub IsIdle : List Task → Type 0
IsIdle ts = (v : Task) → Memᴰ v ts → v.state ≢ in_flight

-- When the marker of a clean shutdown is missing or is not "true", and the ids, slots and paths of the
-- tables are distinct, a start that does not fail reports a recovery and leaves no task in flight; the
-- ids, slots and paths are still distinct, and no file's generation went back.
pub begin_startup-IsIdle :
    (clean : Option Text) (versions : Versions) (now : ℕ) (db : Db)
    → elim clean [ none ↦ false | some v ↦ text_eq v (codes "true") ] ≡ false
    → IsSound db
    → Holds
        (λ r. (r.1 ≡ true) × IsIdle r.0.tasks × SoundAfter db r.0)
        (begin_startup clean versions now db)
unfolding begin_startup
begin_startup-IsIdle clean versions now db unclean s = rw unclean (
    and_then-Holds (Recovers [] db) _ (recover_in_flight versions now db) _
      (recover_in_flight-Recovers versions now db s)
      (λ db' k. (λ _. true, λ v m flying. elim (k.1 v m flying) [ ], k.0)))
