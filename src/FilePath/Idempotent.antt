-- ===== src/FilePath/Idempotent.antt =====
-- Cleaning a clean path changes nothing (filepath.Clean).
use mathlib.Core.List.{reverse, reverse-cons}
use ferret_new.Base.{
  ℕ, ◌≡◌, refl, ap, ◌∙◌, Bool, true, false, List, [], ◌∷◌, ◌++◌, All, All-append, All-map, arith,
  ◌==◌, if_elim,
}
use ferret_new.Base.Bytes.{Text, text_eq, text_eq_iff}
use ferret_new.FilePath.{
  separator, dot_dot, is_rooted, extend_first, split, go_up, is_skipped, push, process, join,
  render, clean,
}

abbrev pub NoSlash : Text → Type 0
NoSlash s = All (λ c. (c == separator) ≡ false) s

split-NoSlash : (s : Text) → All NoSlash (split s)
unfolding split
split-NoSlash [] = (tt, tt)
split-NoSlash (c ∷ s) =
    if_elim (All NoSlash) (c == separator) (λ _. (tt, split-NoSlash s))
      (λ n. extended c (split s) n (split-NoSlash s))
  where
    extended :
        (c : ℕ) (xs : List Text)
        → (c == separator) ≡ false
        → All NoSlash xs
        → All NoSlash (extend_first c xs)
    extended c [] n h = ((n, tt), tt)
    extended c (x ∷ xs) n h = ((n, h.0), h.1)

split_one : (x : Text) → NoSlash x → split x ≡ x ∷ []
unfolding split
split_one [] h = refl
split_one (c ∷ x) h = rw (h.0, split_one x h.1)

split_next : (x s : Text) → NoSlash x → split (x ++ (separator ∷ s)) ≡ x ∷ split s
unfolding split
split_next [] s h = refl
split_next (c ∷ x) s h = rw (h.0, split_next x s h.1)

split-join : (x : Text) (xs : List Text) → All NoSlash (x ∷ xs) → split (join (x ∷ xs)) ≡ x ∷ xs
unfolding join
split-join x [] h = split_one x h.0
split-join x (y ∷ r) h = split_next x (join (y ∷ r)) h.0 ∙ ap (◌∷◌ x) (split-join y r h.1)

-- A stack as `process` leaves it.
abbrev IsNormal : Bool → List Text → Type 0
IsNormal rooted [] = Unit {0}
IsNormal rooted (e ∷ es) =
    NoSlash e
    × (is_skipped e ≡ false)
    × (text_eq e dot_dot ≡ true → (rooted ≡ false) × All (λ d. text_eq d dot_dot ≡ true) es)
    × IsNormal rooted es

go_up-IsNormal :
    (rooted : Bool) (es : List Text) → IsNormal rooted es → IsNormal rooted (go_up rooted es)
unfolding text_eq
go_up-IsNormal true [] h = tt
go_up-IsNormal false [] h = ((refl, (refl, tt)), refl, (λ _. (refl, tt)), tt)
go_up-IsNormal rooted (e ∷ es) h =
    if_elim (IsNormal rooted) (text_eq e dot_dot)
      (λ up. ((refl, (refl, tt)), refl, (λ _. ((h.2 up).0, (up, (h.2 up).1))), h)) (λ _. h.3)

push-IsNormal :
    (rooted : Bool) (es : List Text) (e : Text)
    → NoSlash e
    → IsNormal rooted es
    → IsNormal rooted (push rooted es e)
unfolding push
push-IsNormal rooted es e n h =
    if_elim (IsNormal rooted) (is_skipped e) (λ _. h)
      (λ kept.
        if_elim (IsNormal rooted) (text_eq e dot_dot) (λ _. go_up-IsNormal rooted es h)
          (λ plain. (n, kept, (λ up. cc), h)))

process-IsNormal :
    (rooted : Bool) (es xs : List Text)
    → All NoSlash xs
    → IsNormal rooted es
    → IsNormal rooted (process rooted es xs)
unfolding process
process-IsNormal rooted es [] n h = h
process-IsNormal rooted es (x ∷ xs) n h =
    process-IsNormal rooted (push rooted es x) xs n.1 (push-IsNormal rooted es x n.0 h)

process-append :
    (rooted : Bool) (es xs ys : List Text)
    → process rooted es (xs ++ ys) ≡ process rooted (process rooted es xs) ys
unfolding process
process-append rooted es [] ys = refl
process-append rooted es (x ∷ xs) ys = process-append rooted (push rooted es x) xs ys

-- A normal stack takes its own newest element as it is.
push_normal :
    (rooted : Bool) (e : Text) (es : List Text)
    → IsNormal rooted (e ∷ es)
    → push rooted es e ≡ e ∷ es
unfolding push
push_normal rooted e [] h = ground (arith, text_eq_iff e dot_dot, h.1, h.2)
push_normal rooted e (d ∷ es) h = ground (arith, text_eq_iff e dot_dot, h.1, h.2)

process-reverse :
    (rooted : Bool) (es : List Text) → IsNormal rooted es → process rooted [] (reverse es) ≡ es
unfolding process
process-reverse rooted [] h = refl
process-reverse rooted (e ∷ es) h =
    rw
      (
        reverse-cons e es,
        process-append rooted [] (reverse es) (e ∷ []),
        process-reverse rooted es h.3,
      )
      (push_normal rooted e es h)

abbrev IsElement : Text → Type 0
IsElement e = NoSlash e × (is_skipped e ≡ false)

IsNormal-elements : (rooted : Bool) (es : List Text) → IsNormal rooted es → All IsElement es
IsNormal-elements rooted [] h = tt
IsNormal-elements rooted (e ∷ es) h = ((h.0, h.1), IsNormal-elements rooted es h.3)

All-reverse {ℓ} : {A : Type ℓ} (P : A → Type 0) (xs : List A) → All P xs → All P (reverse xs)
All-reverse P [] h = tt
All-reverse P (x ∷ xs) h =
    rw (reverse-cons x xs) (All-append P (reverse xs) (x ∷ []) (All-reverse P xs h.1) (h.0, tt))

join-first : (x : Text) (xs : List Text) → IsElement x → is_rooted (join (x ∷ xs)) ≡ false
unfolding join
join-first [] [] h = cc
join-first [] (y ∷ r) h = cc
join-first (c ∷ x) [] h = h.0.0
join-first (c ∷ x) (y ∷ r) h = h.0.0

-- What `process` makes of the text of a list of elements is what it makes of the list.
process-split-join :
    (rooted : Bool) (xs : List Text)
    → All IsElement xs
    → process rooted [] (split (join xs)) ≡ process rooted [] xs
unfolding process split push join
process-split-join rooted [] h = refl
process-split-join rooted (x ∷ xs) h =
    ap (process rooted []) (split-join x xs (All-map IsElement NoSlash (λ e k. k.0) (x ∷ xs) h))

clean-render :
    (rooted : Bool) (xs : List Text)
    → All IsElement xs
    → reverse (process rooted [] xs) ≡ xs
    → clean (render rooted xs) ≡ render rooted xs
unfolding clean
clean-render true xs h e = ap (render true) (ap reverse (process-split-join true xs h) ∙ e)
clean-render false [] h e = refl
clean-render false (x ∷ xs) h e =
    rw (join-first x xs h.0)
      (ap (render false) (ap reverse (process-split-join false (x ∷ xs) h) ∙ e))

clean-eq-render :
    (path : Text)
    → let r = is_rooted path in clean path ≡ render r (reverse (process r [] (split path)))
unfolding clean
clean-eq-render path = refl

pub clean_idem : (path : Text) → clean (clean path) ≡ clean path
clean_idem path =
    let r = is_rooted path in
    let es = process r [] (split path) in
    let normal = process-IsNormal r [] (split path) (split-NoSlash path) tt in
    rw (clean-eq-render path) (
      clean-render r (reverse es) (All-reverse IsElement es (IsNormal-elements r es normal))
        (ap reverse (process-reverse r es normal)))
