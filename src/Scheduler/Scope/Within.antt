-- ===== src/Scheduler/Scope/Within.antt =====
-- What lies within a directory (scheduler.go: pathWithin), in words on the path alone.
use mathlib.Core.List.{append_assoc}
use ferret_new.Base.{
  ◌≡◌, refl, sym, ap, subst, ◌∙◌, ◌↔◌, ◌⊎◌, inl, inr, true, [], ◌∷◌, ◌++◌, ==_iff, arith,
  Bool-cases,
}
use ferret_new.Base.Bytes.{Text, text_eq, has_prefix, text_eq_iff}
use ferret_new.FilePath.{ends_with_separator, separator}
use ferret_new.Scheduler.Scope.{as_directory, path_within}

-- The path is the directory, or is made of the directory without a last slash, a slash and the rest.
abbrev pub IsWithin : Text → Text → Type 0
IsWithin q p =
    (q ≡ p)
    ⊎ ((base : Text) × (rest : Text) × (p ≡ base ++ (b'/' ∷ rest))
        × ((q ≡ base) ⊎ (q ≡ base ++ (b'/' ∷ []))))

has_prefix_sound : (d p : Text) → has_prefix p d ≡ true → (rest : Text) × (p ≡ d ++ rest)
unfolding has_prefix
has_prefix_sound [] p h = (p, refl)
has_prefix_sound (c ∷ d) [] h = cc
has_prefix_sound (c ∷ d) (x ∷ p) h =
    let (rest, e) = has_prefix_sound d p (ground arith) in
    let same : x ≡ c = ground arith in (rest, cc)

has_prefix_complete : (d rest : Text) → has_prefix (d ++ rest) d ≡ true
unfolding has_prefix
has_prefix_complete [] [] = refl
has_prefix_complete [] (c ∷ rest) = refl
has_prefix_complete (c ∷ d) rest = ground (arith, has_prefix_complete d rest)

ends_with_separator_sound :
    (q : Text) → ends_with_separator q ≡ true → (base : Text) × (q ≡ base ++ (b'/' ∷ []))
unfolding ends_with_separator
ends_with_separator_sound [] h = cc
ends_with_separator_sound (c ∷ []) h = ([], ap (λ x. x ∷ []) ((==_iff c separator).0 h))
ends_with_separator_sound (c ∷ (d ∷ s)) h =
    let (base, e) = ends_with_separator_sound (d ∷ s) h in (c ∷ base, ap (λ t. c ∷ t) e)

ends_with_separator_complete : (base : Text) → ends_with_separator (base ++ (b'/' ∷ [])) ≡ true
unfolding ends_with_separator
ends_with_separator_complete [] = refl
ends_with_separator_complete (c ∷ []) = refl
ends_with_separator_complete (c ∷ (d ∷ s)) = ends_with_separator_complete (d ∷ s)

IsWithin-sound : (q p : Text) → path_within q p ≡ true → IsWithin q p
unfolding path_within as_directory
IsWithin-sound q p h = elim (Bool-cases (text_eq q p)) [
  | inl same ↦ inl ((text_eq_iff q p).0 same)
  | inr differ ↦ elim (Bool-cases (ends_with_separator q)) [
    | inl slashed ↦
        let (base, e) = ends_with_separator_sound q slashed in
        let (rest, f) = has_prefix_sound q p (rw (differ, slashed) at h) in
        inr (base, rest, f ∙ ap (λ t. t ++ rest) e ∙ append_assoc base (b'/' ∷ []) rest, inr e)
    | inr bare ↦
        let (rest, f) = has_prefix_sound (q ++ (separator ∷ [])) p (rw (differ, bare) at h) in
        inr (q, rest, f ∙ append_assoc q (separator ∷ []) rest, inl refl)
  ]
]

-- With a last slash or without, the directory is a prefix of what is below it.
below_complete :
    (q base rest : Text)
    → (q ≡ base) ⊎ (q ≡ base ++ (b'/' ∷ []))
    → has_prefix (base ++ (b'/' ∷ rest)) (as_directory q) ≡ true
unfolding as_directory
below_complete q base rest (inl e) = elim (Bool-cases (ends_with_separator q)) [
  | inl slashed ↦ rw slashed (
      subst (λ t. has_prefix (base ++ (b'/' ∷ rest)) t ≡ true) (sym e)
        (has_prefix_complete base (b'/' ∷ rest)))
  | inr bare ↦ rw bare (
      subst (λ t. has_prefix (base ++ (b'/' ∷ rest)) (t ++ (separator ∷ [])) ≡ true) (sym e)
        (subst (λ t. has_prefix t (base ++ (separator ∷ [])) ≡ true)
          (append_assoc base (b'/' ∷ []) rest)
          (has_prefix_complete (base ++ (separator ∷ [])) rest)))
]
below_complete q base rest (inr e) =
    let slashed : ends_with_separator q ≡ true =
      ap ends_with_separator e ∙ ends_with_separator_complete base in
    rw slashed (
      subst (λ t. has_prefix (base ++ (b'/' ∷ rest)) t ≡ true) (sym e)
        (subst (λ t. has_prefix t (base ++ (b'/' ∷ [])) ≡ true) (append_assoc base (b'/' ∷ []) rest)
          (has_prefix_complete (base ++ (b'/' ∷ [])) rest)))

IsWithin-complete : (q p : Text) → IsWithin q p → path_within q p ≡ true
unfolding path_within
IsWithin-complete q p (inl e) = rw ((text_eq_iff q p).1 e)
IsWithin-complete q p (inr (base, rest, e, way)) =
    let below =
      subst (λ t. has_prefix t (as_directory q) ≡ true) (sym e) (below_complete q base rest way) in
    elim (Bool-cases (text_eq q p)) [ inl same ↦ rw same | inr differ ↦ rw differ below ]

pub path_within-IsWithin : (q p : Text) → (path_within q p ≡ true) ↔ IsWithin q p
path_within-IsWithin q p = (IsWithin-sound q p, IsWithin-complete q p)
