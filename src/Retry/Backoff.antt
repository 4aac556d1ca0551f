-- ===== src/Retry/Backoff.antt =====
-- The loop of Delay computes the capped power (errclass.go: Delay).
use native.Mathlib.Omega.{pow_step}
use native.Mathlib.Nat.{mul_assoc}
use ferret_new.Base.{
  sym, inr, inl, Bool-cases, ℕ, zero, suc, ◌*◌, ◌/◌, ◌^◌, ◌≤◌, ◌<◌, ◌≡◌, refl, arith, false, ltb,
  leb, if◌then◌else◌,
}
use ferret_new.Retry.{twice, pos, double}

-- min(base * 2^n, cap)
abbrev pub capped : ℕ → ℕ → ℕ → ℕ
capped n cap base = if leb (base * 2 ^ n) cap then base * 2 ^ n else cap

pow_suc : (base n : ℕ) → base * 2 ^ suc n ≡ (base * 2) * 2 ^ n
pow_suc base n = rw (pow_step 2 n) (sym (mul_assoc base 2 (2 ^ n)))

le_pow : (base n : ℕ) → base ≤ base * 2 ^ n
le_pow base zero = ground arith
le_pow base (suc n) = omega (arith, pow_suc base n, le_pow (base * 2) n)

-- With a base of at most the cap, and a cap of 63 bits, the loop computes min(base * 2^attempt, cap),
-- and no product of its wraps around.
pub double_exact :
    (n cap base : ℕ) → base ≤ cap → cap < 2 ^ 63 → double n cap (pos base) ≡ pos (capped n cap base)
unfolding double
double_exact zero cap base h k = ground arith
double_exact (suc n) cap base h k = elim (Bool-cases (ltb base cap)) [
  | inl below ↦ elim (Bool-cases (ltb (cap / 2) base)) [
    | inl high ↦ let more = le_pow (base * 2) n in ground (arith, pow_suc base n)
    | inr low ↦
        let fits : base * 2 ≤ cap = ground arith in
        let word : twice (pos base) ≡ pos (base * 2) = ground arith in
        let not_over : ltb cap (base * 2) ≡ false = ground arith in
        rw (below, low, word, not_over, double_exact n cap (base * 2) fits k, pow_suc base n) refl
  ]
  | inr reached ↦
      let more = le_pow base (suc n) in let top : base ≡ cap = ground arith in ground arith
]
