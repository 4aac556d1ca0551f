-- ===== src/TaskQueue.antt =====
-- The durable task queue, packages/index-node/internal/store/taskqueue.go and supersede.go: the rows
-- of the tables that its statements read and write, and what the transitions share. A row has no
-- path_key column, since it is always pathKey of the row's path. A transaction that fails leaves the
-- database as it was. The clock is an argument.
pub mod History
pub mod Finish
pub mod Release
pub mod Claim
pub mod Enqueue
pub mod Bump
pub mod Complete
pub mod Recovery
pub mod Slots
mod Tests
use ferret_new.Base.{
  ℕ, Bool, true, false, not, ◌&&◌, Option, none, some, List, [], ◌∷◌, ltb, ◌==◌, if◌then◌else◌, any,
}
use ferret_new.Base.Bytes.{Text, text_eq}
use ferret_new.Base.Int.{ℤ}
use ferret_new.FilePath.{clean}
use ferret_new.Task.{History as Histories, Task, TaskState, in_flight, state_eq}

-- pathKey on a Unix system.
unfoldable pub path_key : Text → Text
path_key path = clean path

-- The code's kinds and statuses are strings; the last constructor is any other string.
pub data FileKind : Type 0 where
  text image video other : FileKind
  invalid_kind : Text → FileKind

pub data FileStatus : Type 0 where
  indexed pending failed deleted : FileStatus
  invalid_status : Text → FileStatus

-- A row of the table files; a generation counts up.
pub record FileRow : Type 0 where
  pub id : ℕ
  pub path : Text
  pub size : ℤ
  pub mtime_ns : ℤ
  pub inode : Option ℕ
  pub sample_hash : Text
  pub kind : FileKind
  pub generation : ℕ
  pub status : FileStatus
  pub extractor_version : Option Text
  pub embed_model_version : Option Text
  pub indexed_at_ms : Option ℕ

-- A row of the table dead_letters.
pub record DeadRow : Type 0 where
  pub file_id : ℕ
  pub path : Text
  pub generation : ℕ
  pub stage : Text
  pub error_class : Text
  pub error_chain : Histories
  pub attempts_log : Histories
  pub extractor_version : Option Text
  pub embed_model_version : Option Text
  pub created_at_ms : ℕ
  pub updated_at_ms : ℕ

-- A row of the table audit_outbox, with the dead letter that its details encode.
pub record AuditRow : Type 0 where
  pub action : Text
  pub source : Text
  pub task_id : ℕ
  pub generation : ℕ
  pub target : Text
  pub dead : DeadRow

pub record Db : Type 0 where
  pub tasks : List Task
  pub files : List FileRow
  pub dead_letters : List DeadRow
  pub audit : List AuditRow

pub data StoreError : Type 0 where
  not_found invalid_transition stale_generation task_mismatch path_ownership : StoreError
  malformed_history : StoreError
  empty_batch invalid_id duplicate_id : StoreError
  empty_path invalid_generation negative_priority old_path_forbidden old_path_required invalid_op :
      StoreError
  negative_size bad_kind bad_status empty_class incomplete_dead_letter incomplete_audit : StoreError
  half_observation unobserved_relocate generation_exhausted : StoreError
  slot_taken : StoreError

pub data Result (A : Type 0) : Type 0 where
  ok : A → Result A
  err : StoreError → Result A

abbrev pub and_then : {A B : Type 0} → Result A → (A → Result B) → Result B
and_then (ok a) f = f a
and_then (err e) f = err e

infixl 5 ◌>>=◌ ◌>>◌
abbrev pub ◌>>=◌ : {A B : Type 0} → Result A → (A → Result B) → Result B
m >>= f = and_then m f

abbrev pub ◌>>◌ : {A B : Type 0} → Result A → Result B → Result B
m >> k = and_then m (λ _. k)

unfoldable pub guard : Bool → StoreError → Result (Unit {0})
guard true e = ok tt
guard false e = err e

-- WithTx
abbrev pub commit : {A : Type 0} → Db → Result (Db × A) → Db × Result A
commit db (ok (db', a)) = (db', ok a)
commit db (err e) = (db, err e)

unfoldable pub find : ℕ → List Task → Option Task
find id [] = none
find id (t ∷ ts) = if t.id == id then some t else find id ts

-- The row has this key and this state.
unfoldable pub in_slot : Text → TaskState → Task → Bool
unfolding path_key
in_slot key state t = text_eq (path_key t.path) key && state_eq t.state state

unfoldable pub find_slot : Text → TaskState → List Task → Option Task
find_slot key state [] = none
find_slot key state (t ∷ ts) = if in_slot key state t then some t else find_slot key state ts

abbrev pub delete_where : (Task → Bool) → List Task → List Task
delete_where p [] = []
delete_where p (t ∷ ts) = let rest = delete_where p ts in if p t then rest else t ∷ rest

abbrev pub update_where : (Task → Bool) → (Task → Task) → List Task → List Task
update_where p f [] = []
update_where p f (t ∷ ts) = (if p t then f t else t) ∷ update_where p f ts

abbrev pub has_id : ℕ → Task → Bool
has_id id t = t.id == id

abbrev expect_state : TaskState → Option Task → Result Task
expect_state expected none = err not_found
expect_state expected (some t) = if state_eq t.state expected then ok t else err invalid_transition

unfoldable pub task_for_transition : ℕ → TaskState → List Task → Result Task
unfolding find
task_for_transition id expected ts = expect_state expected (find id ts)

-- The row of another task has the slot that an update would move an in-flight row to.
unfoldable pub is_refused : ℕ → (Task → Task) → List Task → Bool
unfolding in_slot path_key
is_refused id f ts =
    any
      (λ t.
        (t.id == id && state_eq t.state in_flight)
        && any (λ v. in_slot (path_key (f t).path) (f t).state v && not (v.id == t.id)) ts)
      ts

-- An update of an in-flight row, and requireChanged. The unique indexes refuse an update to a slot that
-- is taken: if the paths are spelled alike, the one on (path, state) has the statement ignored, so that
-- no row changes, and else the one on (path_key, state) fails it. `slot_taken` stands for the error in
-- both cases.
unfoldable pub update_in_flight : ℕ → (Task → Task) → List Task → Result (List Task)
update_in_flight id f ts =
    if any (λ t. t.id == id && state_eq t.state in_flight) ts
    then if is_refused id f ts
      then err slot_taken
      else ok (update_where (λ t. t.id == id && state_eq t.state in_flight) f ts)
    else err invalid_transition

-- The row of another task in a slot.
unfoldable pub find_other : ℕ → Text → TaskState → List Task → Option Task
unfolding in_slot
find_other id key state [] = none
find_other id key state (t ∷ ts) =
    if in_slot key state t && not (t.id == id) then some t else find_other id key state ts

abbrev pub clear_found : Task → List Task → Option Task → Result (List Task)
clear_found t ts none = ok ts
clear_found t ts (some occupant) =
    if ltb t.generation occupant.generation
    then err stale_generation
    else ok (delete_where (has_id occupant.id) ts)

unfoldable pub clear_older_state_slot : Task → TaskState → List Task → Result (List Task)
unfolding find_other path_key
clear_older_state_slot t target ts = clear_found t ts (find_other t.id (path_key t.path) target ts)
