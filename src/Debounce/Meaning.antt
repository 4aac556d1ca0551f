-- ===== src/Debounce/Meaning.antt =====
-- What a change means for the set of indexed paths, and that merging two hints keeps the meaning
-- (debounce.go: mergeSamePath, mergeFromSource).
use ferret_new.Base.{subst, ℕ, Bool, true, false, ◌≡◌, refl, arith, if◌then◌else◌}
use ferret_new.Base.Bytes.{Text, text_eq, text_eq_iff}
use ferret_new.Debounce.{
  Op, created, modified, removed, move, unknown, RawChange, latest_time, merge_ops, merge_same_path,
  move_from, merge_from_source,
}

-- The set of indexed paths.
abbrev pub Indexed : Type 0
Indexed = Text → Bool

abbrev pub apply_op : Op → RawChange → Indexed → Indexed
apply_op created c f k = if text_eq c.path k then true else f k
apply_op modified c f k = if text_eq c.path k then true else f k
apply_op removed c f k = if text_eq c.path k then false else f k
apply_op move c f k = if text_eq c.path k then true else if text_eq c.old_path k then false else f k
apply_op unknown c f k = f k

-- The set once a change is done.
abbrev pub apply : RawChange → Indexed → Indexed
apply c f k = apply_op c.op c f k

-- The set once a change is done, if it is kept.
abbrev pub apply_kept : RawChange × Bool → Indexed → Indexed
apply_kept (c, keep) f k = if keep then apply c f k else f k

-- The operations of a hint that add passes to mergeSamePath.
abbrev pub is_plain : Op → Bool
is_plain created = true
is_plain modified = true
is_plain removed = true
is_plain _ = false

-- The operations whose path did not exist before them.
abbrev pub makes_path : Op → Bool
makes_path created = true
makes_path move = true
makes_path _ = false

absent : (k : Text) (f : Indexed) (p : Text) → f p ≡ false → text_eq p k ≡ true → f k ≡ false
absent k f p h same = subst (λ j. f j ≡ false) ((text_eq_iff p k).0 same) h

-- What merge_same_path does to two hints for one path, by their operations.
module _ (path left_old right_old : Text) (left_at right_at at : ℕ) (f : Indexed) (k : Text) where
  abbrev first : Op → RawChange
  first x = record { op = x; path = path; old_path = left_old; at = left_at }

  abbrev second : Op → ℕ → RawChange
  second y t = record { op = y; path = path; old_path = right_old; at = t }

  merge_ops_meaning :
      (x y : Op)
      → is_plain y ≡ true
      → (makes_path x ≡ true → f path ≡ false)
      → apply_kept (merge_ops x y (first x) (second y at)) f k
        ≡ apply (second y right_at) (apply (first x) f) k
  unfolding merge_ops
  merge_ops_meaning created created plain new = ground arith
  merge_ops_meaning created modified plain new = ground arith
  merge_ops_meaning created removed plain new = ground (arith, absent k f path (new refl))
  merge_ops_meaning modified created plain new = ground arith
  merge_ops_meaning modified modified plain new = ground arith
  merge_ops_meaning modified removed plain new = ground arith
  merge_ops_meaning removed created plain new = ground arith
  merge_ops_meaning removed modified plain new = ground arith
  merge_ops_meaning removed removed plain new = ground arith
  merge_ops_meaning move created plain new = ground arith
  merge_ops_meaning move modified plain new = ground arith
  merge_ops_meaning move removed plain new = ground (arith, absent k f path (new refl))
  merge_ops_meaning unknown created plain new = ground arith
  merge_ops_meaning unknown modified plain new = ground arith
  merge_ops_meaning unknown removed plain new = ground arith
  merge_ops_meaning x move plain new = cc
  merge_ops_meaning x unknown plain new = cc

-- Two hints for one path merge into a hint with the effect of both, in order, on the indexed paths. The
-- condition is that the path was not indexed before a first hint that says it is new: a creation, or a
-- move to it.
pub merge_same_path_meaning :
    (a b : RawChange) (f : Indexed)
    → a.path ≡ b.path
    → is_plain b.op ≡ true
    → (makes_path a.op ≡ true → f a.path ≡ false)
    → (k : Text) → apply_kept (merge_same_path a b) f k ≡ apply b (apply a f) k
unfolding merge_same_path
merge_same_path_meaning a b f same plain new k =
    subst
      (λ q.
        apply_kept (merge_ops a.op b.op a (record b { path = q; at = latest_time a.at b.at })) f k
        ≡ apply (record b { path = q }) (apply a f) k)
      same
      (merge_ops_meaning a.path a.old_path b.old_path a.at b.at (latest_time a.at b.at) f k a.op
        b.op plain new)

module _ (path source old_path : Text) (left_at right_at at : ℕ) (f : Indexed) (k : Text) where
  abbrev moved : RawChange
  moved = record { op = move; path = path; old_path = source; at = right_at }

  abbrev pending : Op → RawChange
  pending x = record { op = x; path = source; old_path = old_path; at = left_at }

  move_from_meaning :
      (x : Op)
      → (makes_path x ≡ true → f source ≡ false)
      → apply (move_from x (pending x) moved at) f k ≡ apply moved (apply (pending x) f) k
  unfolding move_from
  move_from_meaning created new = ground (arith, absent k f source (new refl))
  move_from_meaning modified new = ground arith
  move_from_meaning removed new = ground arith
  move_from_meaning move new = ground (arith, absent k f source (new refl))
  move_from_meaning unknown new = ground arith

-- A pending change of a path and a move away from that path merge into a change with the effect of
-- both, in order, on the indexed paths, if the path was not indexed before a pending change that says
-- it is new.
pub merge_from_source_meaning :
    (a m : RawChange) (f : Indexed)
    → m.op ≡ move
    → m.old_path ≡ a.path
    → (makes_path a.op ≡ true → f a.path ≡ false)
    → (k : Text) → apply (merge_from_source a m) f k ≡ apply m (apply a f) k
unfolding merge_from_source
merge_from_source_meaning a m f is_move same new k =
    subst (λ c. apply (move_from a.op a c (latest_time a.at m.at)) f k ≡ apply c (apply a f) k) it
      (move_from_meaning m.path a.path a.old_path a.at m.at (latest_time a.at m.at) f k a.op new)
  where
    it : moved m.path a.path a.old_path a.at m.at (latest_time a.at m.at) f k ≡ m
    it = cc
