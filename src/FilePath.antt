-- ===== src/FilePath.antt =====
-- path/filepath.Clean of Go's standard library on a Unix system, where the separator is one slash, as
-- pathKey, normalizePath and the debouncer call it.
pub mod Idempotent
use mathlib.Core.List.{reverse}
use ferret_new.Base.{ℕ, Bool, true, false, not, ◌||◌, List, [], ◌∷◌, ◌++◌, ◌==◌, if◌then◌else◌}
use ferret_new.Base.Bytes.{Text, text_eq}

abbrev pub separator : ℕ
separator = b'/'

abbrev pub dot : Text
dot = b'.' ∷ []

abbrev pub dot_dot : Text
dot_dot = b'.' ∷ b'.' ∷ []

-- strings.HasPrefix(path, "/")
abbrev pub is_rooted : Text → Bool
is_rooted [] = false
is_rooted (c ∷ s) = c == separator

-- strings.HasSuffix(s, "/")
unfoldable pub ends_with_separator : Text → Bool
ends_with_separator [] = false
ends_with_separator (c ∷ []) = c == separator
ends_with_separator (c ∷ (d ∷ s)) = ends_with_separator (d ∷ s)

abbrev pub extend_first : ℕ → List Text → List Text
extend_first c [] = (c ∷ []) ∷ []
extend_first c (x ∷ xs) = (c ∷ x) ∷ xs

-- The elements between separators, empty ones included.
unfoldable pub split : Text → List Text
split [] = [] ∷ []
split (c ∷ s) = let rest = split s in if c == separator then [] ∷ rest else extend_first c rest

-- An element ".." after the elements of a stack, the newest first.
abbrev pub go_up : Bool → List Text → List Text
go_up rooted [] = if rooted then [] else dot_dot ∷ []
go_up rooted (e ∷ es) = if text_eq e dot_dot then dot_dot ∷ (e ∷ es) else es

abbrev pub is_skipped : Text → Bool
is_skipped [] = true
is_skipped (c ∷ s) = text_eq (c ∷ s) dot

unfoldable pub push : Bool → List Text → Text → List Text
push rooted es e =
    if is_skipped e then es else if text_eq e dot_dot then go_up rooted es else e ∷ es

unfoldable pub process : Bool → List Text → List Text → List Text
process rooted es [] = es
process rooted es (x ∷ xs) = process rooted (push rooted es x) xs

unfoldable pub join : List Text → Text
join [] = []
join (x ∷ []) = x
join (x ∷ (y ∷ r)) = x ++ (separator ∷ join (y ∷ r))

unfoldable pub render : Bool → List Text → Text
unfolding join
render true xs = separator ∷ join xs
render false [] = dot
render false (x ∷ xs) = join (x ∷ xs)

-- filepath.Clean; the empty path cleans to ".", as its only element is skipped.
unfoldable pub clean : Text → Text
unfolding split push process render text_eq
clean path = let rooted = is_rooted path in render rooted (reverse (process rooted [] (split path)))
