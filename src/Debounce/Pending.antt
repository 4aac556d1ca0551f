-- ===== src/Debounce/Pending.antt =====
-- The pending changes and their deadlines (debounce.go: pendingState). The deadline heap is the list
-- of its entries in the order in which heap.Pop gives them: Less compares deadlines, then sequence
-- numbers, which no two entries share, so container/heap pops in exactly this order. The identity of
-- a *pendingChange is its version, which no two of them share.
pub mod Deadlines
pub mod Exact
pub mod Overwrite
use ferret_new.Base.{
  ℕ, ◌+◌, Bool, true, false, ◌&&◌, ◌||◌, not, Option, none, some, List, [], ◌∷◌, ltb, leb, ◌==◌,
  if◌then◌else◌, u64,
}
use ferret_new.Base.Bytes.{Text}
use ferret_new.Base.TextMap.{lookup, delete, insert}
use ferret_new.FilePath.{clean}
use ferret_new.Debounce.{
  Op, created, modified, removed, move, unknown, RawChange, is_empty, path_key, merge_same_path,
  merge_from_source,
}

pub record PendingChange : Type 0 where
  pub key : Text
  pub change : RawChange
  pub deadline : ℕ
  pub version : ℕ  -- uint64

pub record DeadlineEntry : Type 0 where
  pub key : Text
  pub deadline : ℕ
  pub version : ℕ  -- uint64
  pub sequence : ℕ  -- uint64

pub record PendingState : Type 0 where
  pub window : ℕ
  pub by_path : List (Text × PendingChange)
  pub deadlines : List DeadlineEntry
  pub sequence : ℕ  -- uint64

unfoldable pub new_pending_state : ℕ → PendingState
new_pending_state window = record { window = window; by_path = []; deadlines = []; sequence = 0 }

-- deadlineHeap.Less
unfoldable pub less : DeadlineEntry → DeadlineEntry → Bool
less a b = if a.deadline == b.deadline then ltb a.sequence b.sequence else ltb a.deadline b.deadline

-- heap.Push
unfoldable pub push : DeadlineEntry → List DeadlineEntry → List DeadlineEntry
unfolding less
push e [] = e ∷ []
push e (x ∷ xs) = let rest = push e xs in if less e x then e ∷ (x ∷ xs) else x ∷ rest

unfoldable pub put : RawChange → ℕ → PendingState → PendingState
unfolding push path_key insert
put change deadline s =
    let sequence = u64 (s.sequence + 1) in
    let key = path_key change.path in
    record s {
      sequence = sequence;
      by_path =
          insert key
            (record { key = key; change = change; deadline = deadline; version = sequence })
            s.by_path;
      deadlines =
          push (record { key = key; deadline = deadline; version = sequence; sequence = sequence })
            s.deadlines;
    }

abbrev pub has_version : ℕ → Option PendingChange → Bool
has_version v none = false
has_version v (some p) = p.version == v

-- The test of discardStale.
unfoldable pub is_current : List (Text × PendingChange) → DeadlineEntry → Bool
is_current by_path e = has_version e.version (lookup e.key by_path)

unfoldable pub drop_stale : List (Text × PendingChange) → List DeadlineEntry → List DeadlineEntry
unfolding is_current
drop_stale by_path [] = []
drop_stale by_path (e ∷ es) = if is_current by_path e then e ∷ es else drop_stale by_path es

unfoldable pub discard_stale : PendingState → PendingState
unfolding drop_stale
discard_stale s = record s { deadlines = drop_stale s.by_path s.deadlines }

abbrev pub first_deadline : List DeadlineEntry → Option ℕ
first_deadline [] = none
first_deadline (e ∷ es) = some e.deadline

unfoldable pub next_deadline : PendingState → PendingState × Option ℕ
unfolding discard_stale
next_deadline s = let s' = discard_stale s in (s', first_deadline s'.deadlines)

-- The end of peek. The map has the entry's key, since discardStale left it at the top.
unfoldable pub peek_top :
    Bool → ℕ → List (Text × PendingChange) → List DeadlineEntry → Option PendingChange
peek_top all now by_path [] = none
peek_top all now by_path (e ∷ es) =
    if not all && ltb now e.deadline then none else lookup e.key by_path

unfoldable pub peek : Bool → ℕ → PendingState → PendingState × Option PendingChange
unfolding discard_stale peek_top
peek all now s = let s' = discard_stale s in (s', peek_top all now s'.by_path s'.deadlines)

unfoldable pub remove : PendingChange → PendingState → PendingState
unfolding discard_stale delete
remove p s = discard_stale (
    if has_version p.version (lookup p.key s.by_path)
    then record s { by_path = delete p.key s.by_path }
    else s)

abbrev pub is_move : Op → Bool
is_move move = true
is_move _ = false

abbrev pub is_removed : Op → Bool
is_removed removed = true
is_removed _ = false

abbrev pub is_some {ℓ} : {A : Type ℓ} → Option A → Bool
is_some none = false
is_some (some a) = true

unfoldable pub forget : Text → PendingState → PendingState
unfolding delete
forget key s = record s { by_path = delete key s.by_path }

-- A move: what is pending for its source goes into it, and what is pending for its destination goes.
unfoldable pub add_move : Option PendingChange → RawChange → PendingState → PendingState
unfolding forget put path_key merge_from_source
add_move none incoming s = put incoming (incoming.at + s.window) (forget (path_key incoming.path) s)
add_move (some existing) incoming s =
    let merged = merge_from_source existing.change incoming in
    put merged (merged.at + s.window)
      (forget (path_key merged.path) (forget (path_key incoming.old_path) s))

-- Any other change, after the lookup of its path.
unfoldable pub add_plain : Option PendingChange → RawChange → PendingState → PendingState
unfolding forget put path_key merge_same_path
add_plain none incoming s = put incoming (incoming.at + s.window) s
add_plain (some existing) incoming s =
    let s' = forget (path_key incoming.path) s in
    let (merged, keep) = merge_same_path existing.change incoming in
    if is_move existing.change.op
      && (is_removed incoming.op && is_some (lookup (path_key existing.change.old_path) s'.by_path))
    then s'
    else if keep
    then put merged (merged.at + s.window) s'
    else s'

abbrev pub clean_nonempty : Text → Text
clean_nonempty p = if is_empty p then p else clean p

unfoldable pub add : RawChange → PendingState → PendingState
unfolding add_move add_plain
add change s =
    let incoming = record change {
      path = clean change.path;
      old_path = clean_nonempty change.old_path;
    } in
    if is_move incoming.op
    then add_move (lookup (path_key incoming.old_path) s.by_path) incoming s
    else add_plain (lookup (path_key incoming.path) s.by_path) incoming s
