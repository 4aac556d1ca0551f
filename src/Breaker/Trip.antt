-- ===== src/Breaker/Trip.antt =====
-- When the closed breaker opens (breaker.go: complete, openLocked): exactly at the threshold of
-- consecutive failures.
use ferret_new.Base.{
  ℕ, suc, ◌+◌, ◌≤◌, ◌<◌, ◌≡◌, refl, ap, ◌↔◌, ◌⊎◌, inl, inr, Bool, true, false, List, [], ◌∷◌, ◌++◌,
  All, arith, leb, Bool-cases,
}
use ferret_new.Breaker.{closed, opened, Completion, success, failure, abort, Breaker, complete}

-- The completions of ordinary calls admitted at epoch e, each with its time.
unfoldable pub completions : ℕ → List (Completion × ℕ) → Breaker → Breaker
completions e [] b = b
completions e ((r, now) ∷ rs) b = completions e rs (complete e false r now b).0

abbrev pub is_success : Completion → Bool
is_success success = true
is_success _ = false

abbrev pub failures_in : List (Completion × ℕ) → ℕ
failures_in [] = 0
failures_in ((failure, now) ∷ rs) = suc (failures_in rs)
failures_in ((_, now) ∷ rs) = failures_in rs

abbrev pub NoSuccess : Completion × ℕ → Type 0
NoSuccess r = is_success r.0 ≡ false

-- Somewhere k failures with no success among them.
abbrev pub HasStreak : ℕ → List (Completion × ℕ) → Type 0
HasStreak k rs =
    (xs : List (Completion × ℕ)) × (ys : List (Completion × ℕ)) × (zs : List (Completion × ℕ)) × (rs
      ≡ xs ++ (ys ++ zs))
    × All NoSuccess ys
    × (k ≤ failures_in ys)

-- The same, where c failures went before and the streak may begin there.
abbrev Continues : ℕ → ℕ → List (Completion × ℕ) → Type 0
Continues k c rs =
    (ys : List (Completion × ℕ)) × (zs : List (Completion × ℕ)) × (rs ≡ ys ++ zs)
    × All NoSuccess ys
    × (k ≤ c + failures_in ys)

-- A closed breaker of epoch e.
abbrev IsClosedAt : ℕ → Breaker → Type 0
IsClosedAt e b = (b.state ≡ closed) × (b.epoch ≡ e) × (b.consecutive_failures < b.failures)

completions-opened :
    (e : ℕ) (rs : List (Completion × ℕ)) (b : Breaker)
    → b.state ≡ opened
    → (completions e rs b).state ≡ opened
unfolding completions complete
completions-opened e [] b o = o
completions-opened e ((r, now) ∷ rs) b o = completions-opened e rs _ (ground arith)

-- Enough failures, with no success, open the breaker.
continues_opens :
    (e : ℕ) (ys zs : List (Completion × ℕ)) (b : Breaker)
    → IsClosedAt e b
    → All NoSuccess ys
    → b.failures ≤ b.consecutive_failures + failures_in ys
    → (completions e (ys ++ zs) b).state ≡ opened
unfolding completions complete
continues_opens e [] zs b c h k = absurd (omega arith)
continues_opens e ((success, now) ∷ ys) zs b c h k = cc
continues_opens e ((abort, now) ∷ ys) zs b c h k =
    continues_opens e ys zs _ (ground arith) h.1 (ground arith)
continues_opens e ((failure, now) ∷ ys) zs b c h k =
    elim (Bool-cases (leb b.failures (b.consecutive_failures + 1))) [
      | inl over ↦ completions-opened e (ys ++ zs) _ (ground arith)
      | inr under ↦ continues_opens e ys zs _ (ground arith) h.1 (ground arith)
    ]

-- A streak opens it, whatever goes before.
streak_opens :
    (e : ℕ) (xs ys zs : List (Completion × ℕ)) (b : Breaker)
    → IsClosedAt e b
    → All NoSuccess ys
    → b.failures ≤ failures_in ys
    → (completions e (xs ++ (ys ++ zs)) b).state ≡ opened
unfolding completions complete
streak_opens e [] ys zs b c h k = continues_opens e ys zs b c h (omega arith)
streak_opens e ((success, now) ∷ xs) ys zs b c h k =
    streak_opens e xs ys zs _ (ground arith) h (ground arith)
streak_opens e ((abort, now) ∷ xs) ys zs b c h k =
    streak_opens e xs ys zs _ (ground arith) h (ground arith)
streak_opens e ((failure, now) ∷ xs) ys zs b c h k =
    elim (Bool-cases (leb b.failures (b.consecutive_failures + 1))) [
      | inl over ↦ completions-opened e (xs ++ (ys ++ zs)) _ (ground arith)
      | inr under ↦ streak_opens e xs ys zs _ (ground arith) h (ground arith)
    ]

abbrev Found : ℕ → ℕ → List (Completion × ℕ) → Type 0
Found k c rs = Continues k c rs ⊎ HasStreak k rs

cons-HasStreak :
    (k : ℕ) (r : Completion × ℕ) (rs : List (Completion × ℕ))
    → HasStreak k rs
    → HasStreak k (r ∷ rs)
cons-HasStreak k r rs (xs, ys, zs, e, h, f) = (r ∷ xs, ys, zs, ap (◌∷◌ r) e, h, f)

success-HasStreak :
    (k : ℕ) (r : Completion × ℕ) (rs : List (Completion × ℕ)) → Found k 0 rs → HasStreak k (r ∷ rs)
success-HasStreak k r rs (inl (ys, zs, e, h, f)) = (r ∷ [], ys, zs, ap (◌∷◌ r) e, h, omega arith)
success-HasStreak k r rs (inr s) = cons-HasStreak k r rs s

other-Found :
    (k c d : ℕ) (r : Completion × ℕ) (rs : List (Completion × ℕ))
    → NoSuccess r
    → d ≤ c + failures_in (r ∷ [])
    → Found k d rs
    → Found k c (r ∷ rs)
other-Found k c d (success, now) rs n g f = cc
other-Found k c d (failure, now) rs n g (inl (ys, zs, e, h, f)) =
    inl ((failure, now) ∷ ys, zs, ap (◌∷◌ (failure, now)) e, (refl, h), omega arith)
other-Found k c d (abort, now) rs n g (inl (ys, zs, e, h, f)) =
    inl ((abort, now) ∷ ys, zs, ap (◌∷◌ (abort, now)) e, (refl, h), omega arith)
other-Found k c d (failure, now) rs n g (inr s) = inr (cons-HasStreak k (failure, now) rs s)
other-Found k c d (abort, now) rs n g (inr s) = inr (cons-HasStreak k (abort, now) rs s)

opened-Found :
    (e k c : ℕ) (rs : List (Completion × ℕ)) (b : Breaker)
    → IsClosedAt e b
    → b.failures ≡ k
    → b.consecutive_failures ≡ c
    → (completions e rs b).state ≡ opened
    → Found k c rs
unfolding completions complete
opened-Found e k c [] b h p q o = cc
opened-Found e k c ((success, now) ∷ rs) b h p q o = inr (
    success-HasStreak k (success, now) rs
      (opened-Found e k 0 rs _ (ground arith) (ground arith) (ground arith) o))
opened-Found e k c ((abort, now) ∷ rs) b h p q o =
    other-Found k c c (abort, now) rs refl (omega arith)
      (opened-Found e k c rs _ (ground arith) (ground arith) (ground arith) o)
opened-Found e k c ((failure, now) ∷ rs) b h p q o =
    elim (Bool-cases (leb b.failures (b.consecutive_failures + 1))) [
      | inl over ↦ inl ((failure, now) ∷ [], rs, refl, (refl, tt), ground arith)
      | inr under ↦
          other-Found k c (c + 1) (failure, now) rs refl (omega arith)
            (opened-Found e k (c + 1) rs _ (ground arith) (ground arith) (ground arith) o)
    ]

Found-HasStreak : (k : ℕ) (rs : List (Completion × ℕ)) → Found k 0 rs → HasStreak k rs
Found-HasStreak k rs (inl (ys, zs, e, h, f)) = ([], ys, zs, e, h, omega arith)
Found-HasStreak k rs (inr s) = s

-- A closed breaker with no failure counted is open, after any completions of calls that it admitted,
-- exactly when somewhere among them stand as many failures as its threshold with no success between
-- them; abandoned calls between the failures neither count nor break the streak.
pub opened_iff_HasStreak :
    (b : Breaker) (rs : List (Completion × ℕ))
    → b.state ≡ closed
    → b.consecutive_failures ≡ 0
    → 0 < b.failures
    → ((completions b.epoch rs b).state ≡ opened) ↔ HasStreak b.failures rs
opened_iff_HasStreak b rs c z p = (
  λ o.
      Found-HasStreak b.failures rs
        (opened-Found b.epoch b.failures 0 rs b (c, refl, omega arith) refl z o),
  λ (xs, ys, zs, e, h, k). rw e (streak_opens b.epoch xs ys zs b (c, refl, omega arith) h k),
)
