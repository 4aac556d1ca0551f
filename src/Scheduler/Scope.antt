-- ===== src/Scheduler/Scope.antt =====
-- Path scopes (scheduler.go: scopeFor, normalizePath, conflicts, scopesOverlap, pathWithin), on a
-- Unix system: normalizePath is filepath.Clean and the separator is one slash.
pub mod Within
pub mod Overlap
use ferret_new.Base.{
  ℕ, Bool, true, false, ◌&&◌, ◌||◌, Option, none, some, List, [], ◌∷◌, ◌++◌, map, any, ◌==◌,
  if◌then◌else◌,
}
use ferret_new.Base.Bytes.{Text, text_eq, has_prefix}
use ferret_new.FilePath.{ends_with_separator, clean, separator}
use ferret_new.Task.{Task, TaskOp, upsert, remove, relocate, other}

pub record PathScope : Type 0 where
  pub exact : List Text
  pub prefixes : List Text

unfoldable pub normalize_path : Text → Text
normalize_path path = clean path

abbrev is_relocate : TaskOp → Bool
is_relocate relocate = true
is_relocate _ = false

abbrev is_remove : TaskOp → Bool
is_remove remove = true
is_remove _ = false

abbrev is_missing : Option ℕ → Bool
is_missing none = true
is_missing (some _) = false

abbrev and_old : TaskOp → Option Text → List Text
and_old relocate (some old) = old ∷ []
and_old _ _ = []

unfoldable pub scope_for : Task → PathScope
scope_for t =
    let paths = map normalize_path (t.path ∷ and_old t.op t.old_path) in
    if is_missing t.file_id && (is_remove t.op || is_relocate t.op)
    then record { exact = []; prefixes = paths }
    else record { exact = paths; prefixes = [] }

-- The prefix with a separator behind it.
unfoldable pub as_directory : Text → Text
unfolding ends_with_separator
as_directory p = if ends_with_separator p then p else p ++ (separator ∷ [])

unfoldable pub path_within : Text → Text → Bool
unfolding as_directory
path_within prefix path =
    if text_eq prefix path then true else has_prefix path (as_directory prefix)

-- The body of the loop over left.exact, and of that over left.prefixes.
abbrev pub exact_hits : PathScope → Text → Bool
exact_hits right a =
    any (λ b. text_eq a b) right.exact || any (λ prefix. path_within prefix a) right.prefixes

abbrev pub prefix_hits : PathScope → Text → Bool
prefix_hits right prefix =
    any (λ exact. path_within prefix exact) right.exact
    || any (λ q. path_within prefix q || path_within q prefix) right.prefixes

unfoldable pub scopes_overlap : PathScope → PathScope → Bool
scopes_overlap left right =
    any (exact_hits right) left.exact || any (prefix_hits right) left.prefixes

-- The map from the ids of the leased tasks to their scopes.
abbrev pub InFlight : Type 0
InFlight = List (ℕ × PathScope)

unfoldable pub conflicts : PathScope → InFlight → Bool
conflicts candidate active = any (λ entry. scopes_overlap candidate entry.1) active
