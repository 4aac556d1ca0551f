-- ===== src/Retry.antt =====
-- Error classes and retry timing, packages/index-node/internal/errclass/errclass.go. Durations are
-- nanoseconds. A constructed Policy has positive durations, which are natural numbers here.
pub mod Backoff
pub mod Wrapping
mod Tests
use ferret_new.Base.{
  ◌+◌, ◌-◌, ℕ, zero, suc, ◌*◌, ◌/◌, ◌%◌, ◌^◌, Bool, true, false, not, ◌&&◌, ◌||◌, Option, none,
  some, List, [], ◌∷◌, ltb, leb, ◌==◌, if◌then◌else◌, any, u64,
}
use ferret_new.Base.Int.{negsuc, pos, ℤ, is_neg, is_nonpos, to_nat}
use ferret_new.Base.Bytes.{Text}

-- A class is a string; `other` is any that is not one of the four.
pub data Class : Type 0 where
  transient permanent poison fatal : Class
  other : Text → Class

unfoldable pub is_valid : Class → Bool
is_valid (other name) = false
is_valid _ = true

unfoldable pub normalize : Class → Class
unfolding is_valid
normalize c = if is_valid c then c else transient

-- What an errors.Is test of Classify on a Unix system finds in one error of a chain.
pub data Kind : Type 0 where
  disk_full deterministic plain : Kind

-- One error of a chain of wrapped errors: what its methods ErrorClass and Class give, if it has them.
pub record Link : Type 0 where
  pub error_class : Option Class
  pub class : Option Class
  pub kind : Kind

-- errors.As, which stops at the first error that has the method.
abbrev pub first_error_class : List Link → Option Class
first_error_class [] = none
first_error_class (l ∷ ls) = elim l.error_class [ none ↦ first_error_class ls | some c ↦ some c ]

abbrev pub first_class : List Link → Option Class
first_class [] = none
first_class (l ∷ ls) = elim l.class [ none ↦ first_class ls | some c ↦ some c ]

abbrev pub is_disk_full : Link → Bool
is_disk_full l = elim l.kind [ disk_full ↦ true | deterministic ↦ false | plain ↦ false ]

abbrev pub is_deterministic : Link → Bool
is_deterministic l = elim l.kind [ disk_full ↦ false | deterministic ↦ true | plain ↦ false ]

-- A class that was found, if it is valid, and else the rest of Classify.
unfoldable pub valid_or : Option Class → Class → Class
unfolding is_valid
valid_or none rest = rest
valid_or (some c) rest = if is_valid c then c else rest

-- Classify; the empty chain is a nil error.
unfoldable pub classify : List Link → Class
unfolding valid_or
classify err = valid_or (first_error_class err) (
    valid_or (first_class err) (
      if any is_disk_full err
      then fatal
      else if any is_deterministic err
      then permanent
      else transient))

-- Wrap; *Error has both methods, and they give the normalized class.
unfoldable pub wrap : Class → List Link → List Link
unfolding normalize
wrap c [] = []
wrap c (l ∷ ls) =
    record { error_class = some (normalize c); class = some (normalize c); kind = plain } ∷ (l ∷ ls)

pub record Policy : Type 0 where
  pub base : ℕ
  pub cap : ℕ
  pub max_transient_attempts : ℤ

pub data PolicyError : Type 0 where
  base_not_positive cap_not_positive cap_below_base negative_attempts : PolicyError

pub data PolicyResult : Type 0 where
  policy : Policy → PolicyResult
  invalid : PolicyError → PolicyResult

unfoldable pub new_policy : ℤ → ℤ → ℤ → PolicyResult
new_policy base cap attempts =
    if is_nonpos base
    then invalid base_not_positive
    else if is_nonpos cap
    then invalid cap_not_positive
    else if ltb (to_nat cap) (to_nat base)
    then invalid cap_below_base
    else if is_neg attempts
    then invalid negative_attempts
    else policy (record { base = to_nat base; cap = to_nat cap; max_transient_attempts = attempts })

abbrev is_transient : Class → Bool
is_transient transient = true
is_transient _ = false

unfoldable pub max_attempts : Policy → Class → ℤ
max_attempts p c = if is_transient c then p.max_transient_attempts else ℤ.pos 0

unfoldable pub should_retry : Policy → Class → ℤ → Bool
should_retry p c attempts =
    is_transient c
    && (not (is_neg attempts) && ltb (to_nat attempts) (to_nat p.max_transient_attempts))

-- The value of a 64-bit word as a signed integer, a time.Duration.
abbrev pub i64 : ℕ → ℤ
i64 n = if ltb (n % 2 ^ 64) (2 ^ 63) then pos (n % 2 ^ 64) else negsuc (2 ^ 64 - 1 - n % 2 ^ 64)

-- The product with 2 as an int64. For a negative factor -(n + 1) it is that of its word.
abbrev pub twice : ℤ → ℤ
twice (pos n) = i64 (n * 2)
twice (negsuc n) = i64 (2 ^ 64 - (n + 1) * 2 % 2 ^ 64)

-- d < n and d > n for a duration d and a number n.
abbrev pub is_below : ℤ → ℕ → Bool
is_below (pos m) n = ltb m n
is_below (negsuc m) n = true

abbrev pub is_above : ℤ → ℕ → Bool
is_above (pos m) n = ltb n m
is_above (negsuc m) n = false

-- The loop of Delay on an int64 duration, which wraps at 2^63; that it never does is a theorem.
unfoldable pub double : ℕ → ℕ → ℤ → ℤ
double zero cap delay = delay
double (suc n) cap delay =
    let doubled = twice delay in
    let rest = double n cap (if is_above doubled cap then pos cap else doubled) in
    if is_below delay cap then if is_above delay (cap / 2) then pos cap else rest else delay

abbrev pub max_int64 : ℕ
max_int64 = 2 ^ 63 - 1

-- Delay. The argument `jitter` is the float64 part: the product with the random factor, rounded.
unfoldable pub delay : (ℤ → ℕ) → Policy → ℤ → ℕ
unfolding double
delay jitter p attempt =
    if p.base == 0 || ltb p.cap p.base
    then 0
    else let scaled = jitter (double (to_nat attempt) p.cap (pos p.base)) in
      if leb max_int64 scaled then max_int64 else if ltb scaled 1 then 1 else scaled
