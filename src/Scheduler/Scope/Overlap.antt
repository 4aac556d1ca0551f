-- ===== src/Scheduler/Scope/Overlap.antt =====
-- What an overlap of two path scopes means (scheduler.go: scopesOverlap, pathWithin).
use mathlib.Core.List.{Memᴰ, append_cancel_right}
use ferret_new.Base.{
  or_right, or_cases, or_left, ◌∙◌, ℕ, ◌≡◌, refl, sym, subst, ◌↔◌, ◌⊎◌, inl, inr, true, ◌||◌, [],
  ◌∷◌, ◌++◌, any, any_sound, any_complete, arith, Bool-cases,
}
use ferret_new.Base.Bytes.{Text, text_eq, has_prefix, text_eq_iff, text_eq_refl}
use ferret_new.FilePath.{ends_with_separator, separator}
use ferret_new.Scheduler.Scope.Within.{IsWithin, path_within-IsWithin}
use ferret_new.Scheduler.Scope.{
  prefix_hits, exact_hits, PathScope, as_directory, path_within, scopes_overlap,
}

-- The paths that a scope reserves: its exact paths, and what lies within its prefixes.
abbrev pub Reserves : PathScope → Text → Type 0
Reserves s p = Memᴰ p s.exact ⊎ ((q : Text) × Memᴰ q s.prefixes × IsWithin q p)

-- The same by the tests of the code.
abbrev Hits : PathScope → Text → Type 0
Hits s p = (any (λ e. text_eq e p) s.exact ≡ true) ⊎ (any (λ q. path_within q p) s.prefixes ≡ true)

-- Of two prefixes of one text, one is a prefix of the other.
has_prefix_linear :
    (u s t : Text)
    → has_prefix u s ≡ true
    → has_prefix u t ≡ true
    → (has_prefix s t ≡ true) ⊎ (has_prefix t s ≡ true)
unfolding has_prefix
has_prefix_linear u [] t h k = inr (nil t)
  where
    nil : (t : Text) → has_prefix t [] ≡ true
    nil [] = refl
    nil (c ∷ t) = refl
has_prefix_linear u (d ∷ s) [] h k = inl refl
has_prefix_linear [] (d ∷ s) (e ∷ t) h k = cc
has_prefix_linear (c ∷ u) (d ∷ s) (e ∷ t) h k = ground (arith, has_prefix_linear u s t)

-- A prefix of a text with one byte more is a prefix of the text, or all of it.
has_prefix_last :
    (b t : Text) (c : ℕ)
    → has_prefix (b ++ (c ∷ [])) t ≡ true
    → (has_prefix b t ≡ true) ⊎ (t ≡ b ++ (c ∷ []))
unfolding has_prefix
has_prefix_last [] [] c h = inl refl
has_prefix_last [] (d ∷ []) c h = inr (ground arith)
has_prefix_last [] (d ∷ (e ∷ t)) c h = ground arith
has_prefix_last (a ∷ b) [] c h = inl refl
has_prefix_last (a ∷ b) (d ∷ t) c h = ground (arith, has_prefix_last b t c)

path_within_refl : (p : Text) → path_within p p ≡ true
unfolding path_within
path_within_refl p = rw (text_eq_refl p)

has_prefix_refl : (p : Text) → has_prefix p p ≡ true
unfolding has_prefix
has_prefix_refl [] = refl
has_prefix_refl (c ∷ p) = ground (arith, has_prefix_refl p)

as_directory_cases : (a : Text) → (as_directory a ≡ a) ⊎ (as_directory a ≡ a ++ (separator ∷ []))
unfolding as_directory
as_directory_cases a = elim (Bool-cases (ends_with_separator a)) [
  | inl whole ↦ inl (rw whole)
  | inr bare ↦ inr (rw bare)
]

-- `path_within`, with the directory of the prefix left as it is.
path_within_iff :
    (a b : Text) → (path_within a b ≡ true) ↔ ((a ≡ b) ⊎ (has_prefix b (as_directory a) ≡ true))
unfolding path_within
path_within_iff a b = ground (arith, text_eq_iff a b)

-- A directory that is a prefix of another one: one of the two paths lies within the other.
directories_nested :
    (a b : Text)
    → has_prefix (as_directory b) (as_directory a) ≡ true
    → (path_within a b ≡ true) ⊎ (path_within b a ≡ true)
directories_nested a b h = elim (as_directory_cases b) [
  | inl whole ↦ inl ((path_within_iff a b).1 (inr (rw whole at h)))
  | inr bare ↦ elim (has_prefix_last b (as_directory a) separator (rw bare at h)) [
    | inl short ↦ inl ((path_within_iff a b).1 (inr short))
    | inr all ↦ elim (as_directory_cases a) [
      | inl slashed ↦
          inr ((path_within_iff b a).1 (inr (rw (bare, ← all, slashed) (has_prefix_refl a))))
      | inr plain ↦ inl (
          (path_within_iff a b).1
            (inl (append_cancel_right a b (separator ∷ []) (sym plain ∙ all))))
    ]
  ]
]

-- Two prefixes that hold one path: one lies within the other.
within_both :
    (a b p : Text)
    → path_within a p ≡ true
    → path_within b p ≡ true
    → (path_within a b ≡ true) ⊎ (path_within b a ≡ true)
within_both a b p h k = elim ((path_within_iff a p).0 h) [
  | inl e ↦ inr (subst (λ u. path_within b u ≡ true) (sym e) k)
  | inr d ↦ elim ((path_within_iff b p).0 k) [
    | inl f ↦ inl (subst (λ u. path_within a u ≡ true) (sym f) h)
    | inr d' ↦ elim (has_prefix_linear p (as_directory a) (as_directory b) d d') [
      | inl x ↦ elim (directories_nested b a x) [ inl y ↦ inr y | inr y ↦ inl y ]
      | inr x ↦ directories_nested a b x
    ]
  ]
]

exact-Hits : (s : PathScope) (p : Text) → Memᴰ p s.exact → Hits s p
exact-Hits s p m = inl (any_complete _ s.exact p m (text_eq_refl p))

prefix-Hits : (s : PathScope) (q p : Text) → Memᴰ q s.prefixes → path_within q p ≡ true → Hits s p
prefix-Hits s q p m h = inr (any_complete _ s.prefixes q m h)

abbrev Shared : PathScope → PathScope → Type 0
Shared l r = (p : Text) × Hits l p × Hits r p

exact_shares :
    (l r : PathScope) (a : Text)
    → Memᴰ a l.exact
    → (any (λ b. text_eq a b) r.exact || any (λ q. path_within q a) r.prefixes) ≡ true
    → Shared l r
exact_shares l r a m h = elim (or_cases _ _ h) [
  | inl k ↦
      let (b, mb, e) = any_sound (λ b. text_eq a b) r.exact k in
      (a, exact-Hits l a m, subst (Hits r) (sym ((text_eq_iff a b).0 e)) (exact-Hits r b mb))
  | inr k ↦ (a, exact-Hits l a m, inr k)
]

prefix_shares :
    (l r : PathScope) (q : Text)
    → Memᴰ q l.prefixes
    → (any (λ e. path_within q e) r.exact
        || any (λ d. path_within q d || path_within d q) r.prefixes)
      ≡ true
    → Shared l r
prefix_shares l r q m h = elim (or_cases _ _ h) [
  | inl k ↦
      let (e, me, w) = any_sound (λ e. path_within q e) r.exact k in
      (e, prefix-Hits l q e m w, exact-Hits r e me)
  | inr k ↦
      let (d, md, w) = any_sound (λ d. path_within q d || path_within d q) r.prefixes k in
      elim (or_cases _ _ w) [
        | inl down ↦ (d, prefix-Hits l q d m down, prefix-Hits r d d md (path_within_refl d))
        | inr up ↦ (q, prefix-Hits l q q m (path_within_refl q), prefix-Hits r d q md up)
      ]
]

overlap_shares : (l r : PathScope) → scopes_overlap l r ≡ true → Shared l r
unfolding scopes_overlap
overlap_shares l r h =
    elim (or_cases (any (exact_hits r) l.exact) (any (prefix_hits r) l.prefixes) h) [
      | inl k ↦ let (a, m, w) = any_sound (exact_hits r) l.exact k in exact_shares l r a m w
      | inr k ↦ let (q, m, w) = any_sound (prefix_hits r) l.prefixes k in prefix_shares l r q m w
    ]

shared_exact :
    (l r : PathScope) (p a : Text) → Memᴰ a l.exact → a ≡ p → Hits r p → scopes_overlap l r ≡ true
unfolding scopes_overlap
shared_exact l r p a m e (inl k) =
    let (b, mb, f) = any_sound (λ b. text_eq b p) r.exact k in
    or_left _ _ (
      any_complete _ l.exact a m (
        or_left _ _
          (any_complete _ r.exact b mb ((text_eq_iff a b).1 (e ∙ sym ((text_eq_iff b p).0 f))))))
shared_exact l r p a m e (inr k) =
    let (q, mq, w) = any_sound (λ q. path_within q p) r.prefixes k in
    or_left _ _ (
      any_complete _ l.exact a m (
        or_right _ _
          (any_complete _ r.prefixes q mq (subst (λ u. path_within q u ≡ true) (sym e) w))))

shared_prefix :
    (l r : PathScope) (p q : Text)
    → Memᴰ q l.prefixes
    → path_within q p ≡ true
    → Hits r p
    → scopes_overlap l r ≡ true
unfolding scopes_overlap
shared_prefix l r p q m w (inl k) =
    let (b, mb, f) = any_sound (λ b. text_eq b p) r.exact k in
    or_right _ _ (
      any_complete _ l.prefixes q m (
        or_left _ _ (
          any_complete _ r.exact b mb
            (subst (λ u. path_within q u ≡ true) (sym ((text_eq_iff b p).0 f)) w))))
shared_prefix l r p q m w (inr k) =
    let (d, md, v) = any_sound (λ d. path_within d p) r.prefixes k in
    or_right _ _ (
      any_complete _ l.prefixes q m
        (or_right _ _ (any_complete _ r.prefixes d md (both d (within_both q d p w v)))))
  where
    both :
        (d : Text)
        → (path_within q d ≡ true) ⊎ (path_within d q ≡ true)
        → (path_within q d || path_within d q) ≡ true
    both d (inl x) = or_left _ _ x
    both d (inr x) = or_right _ _ x

Shared-overlaps : (l r : PathScope) → Shared l r → scopes_overlap l r ≡ true
Shared-overlaps l r (p, inl k, v) =
    let (a, m, e) = any_sound (λ a. text_eq a p) l.exact k in
    shared_exact l r p a m ((text_eq_iff a p).0 e) v
Shared-overlaps l r (p, inr k, v) =
    let (q, m, w) = any_sound (λ q. path_within q p) l.prefixes k in shared_prefix l r p q m w v

Hits-Reserves : (s : PathScope) (p : Text) → Hits s p → Reserves s p
Hits-Reserves s p (inl h) =
    let (e, m, same) = any_sound (λ e. text_eq e p) s.exact h in
    inl (subst (λ t. Memᴰ t s.exact) ((text_eq_iff e p).0 same) m)
Hits-Reserves s p (inr h) =
    let (q, m, w) = any_sound (λ q. path_within q p) s.prefixes h in
    inr (q, m, (path_within-IsWithin q p).0 w)

Reserves-Hits : (s : PathScope) (p : Text) → Reserves s p → Hits s p
Reserves-Hits s p (inl m) = exact-Hits s p m
Reserves-Hits s p (inr (q, m, w)) = prefix-Hits s q p m ((path_within-IsWithin q p).1 w)

-- Two scopes overlap exactly when some path is reserved by both, a scope reserving its exact paths,
-- its prefixes, and every path that is a prefix, less a last slash it may have, followed by a slash
-- and anything.
pub scopes_overlap_iff :
    (l r : PathScope) → (scopes_overlap l r ≡ true) ↔ ((p : Text) × Reserves l p × Reserves r p)
scopes_overlap_iff l r = (
  λ h. let (p, a, b) = overlap_shares l r h in (p, Hits-Reserves l p a, Hits-Reserves r p b),
  λ (p, a, b). Shared-overlaps l r (p, Reserves-Hits l p a, Reserves-Hits r p b),
)

-- So the overlap is symmetric.
pub scopes_overlap_symm : (l r : PathScope) → scopes_overlap l r ≡ true → scopes_overlap r l ≡ true
scopes_overlap_symm l r h = let (p, a, b) = overlap_shares l r h in Shared-overlaps r l (p, b, a)
