-- ===== src/Debounce.antt =====
-- The debouncer, packages/index-node/internal/debounce/debounce.go, on a Unix system: filesystem
-- changes and how two hints for one path merge. Times are nanoseconds since the zero time.
pub mod Pending
pub mod Flush
pub mod Meaning
mod Tests
use ferret_new.Base.{not, ℕ, Bool, true, false, Option, none, some, [], ◌∷◌, ltb, if◌then◌else◌}
use ferret_new.Base.Bytes.{Text}
use ferret_new.FilePath.{clean}

-- `unknown` is any number that is none of the four constants.
pub data Op : Type 0 where
  created modified removed move unknown : Op

pub record RawChange : Type 0 where
  pub op : Op
  pub path : Text
  pub old_path : Text
  pub at : ℕ

abbrev pub is_empty : Text → Bool
is_empty [] = true
is_empty (_ ∷ _) = false

-- The switch of validateChange; the Boolean says whether there is no old path.
abbrev is_valid_op : Op → Bool → Bool
is_valid_op created no_old = no_old
is_valid_op modified no_old = no_old
is_valid_op removed no_old = no_old
is_valid_op move no_old = not no_old
is_valid_op unknown no_old = false

-- validateChange; true is a nil error.
unfoldable pub validate_change : RawChange → Bool
validate_change c = if is_empty c.path then false else is_valid_op c.op (is_empty c.old_path)

unfoldable pub path_key : Text → Text
path_key path = clean path

unfoldable pub latest_time : ℕ → ℕ → ℕ
latest_time left right = if ltb left right then right else left

-- RawChange{}; its operation is none of the constants.
abbrev pub zero_change : RawChange
zero_change = record { op = unknown; path = []; old_path = []; at = 0 }

-- The switch of mergeSamePath, once incoming.At is the later of the two times. The Boolean says
-- whether the merged change is kept.
unfoldable pub merge_ops : Op → Op → RawChange → RawChange → RawChange × Bool
merge_ops created created existing incoming = (record existing { at = incoming.at }, true)
merge_ops created modified existing incoming = (record existing { at = incoming.at }, true)
merge_ops created removed existing incoming = (zero_change, false)
merge_ops modified created existing incoming = (record existing { at = incoming.at }, true)
merge_ops modified modified existing incoming = (record existing { at = incoming.at }, true)
merge_ops modified removed existing incoming = (incoming, true)
merge_ops removed created existing incoming = (record incoming { op = modified }, true)
merge_ops removed modified existing incoming = (record incoming { op = modified }, true)
merge_ops removed removed existing incoming = (incoming, true)
merge_ops move removed existing incoming =
    (record { op = removed; path = existing.old_path; old_path = []; at = incoming.at }, true)
merge_ops move created existing incoming = (record existing { at = incoming.at }, true)
merge_ops move modified existing incoming = (record existing { at = incoming.at }, true)
merge_ops _ _ existing incoming = (incoming, true)

unfoldable pub merge_same_path : RawChange → RawChange → RawChange × Bool
unfolding merge_ops latest_time
merge_same_path existing incoming =
    merge_ops existing.op incoming.op existing
      (record incoming { at = latest_time existing.at incoming.at })

-- The switch of mergeFromSource.
unfoldable pub move_from : Op → RawChange → RawChange → ℕ → RawChange
move_from created existing moved at = record {
  op = created;
  path = moved.path;
  old_path = [];
  at = at;
}
move_from move existing moved at = record {
  op = move;
  path = moved.path;
  old_path = existing.old_path;
  at = at;
}
move_from _ existing moved at = record {
  op = move;
  path = moved.path;
  old_path = moved.old_path;
  at = at;
}

unfoldable pub merge_from_source : RawChange → RawChange → RawChange
unfolding move_from latest_time
merge_from_source existing moved =
    move_from existing.op existing moved (latest_time existing.at moved.at)
