-- ===== src/Base/Float64.antt =====
-- The non-negative finite numbers of Go's float64, counted in units of 2^-1074, its smallest number:
-- a number is a ℕ with 53 significant bits, and every operation rounds to nearest, ties to even. Sums
-- that exceed the largest float64 do not occur.
use ferret_new.Base.{ℕ, zero, suc, ◌+◌, ◌-◌, ◌*◌, ◌/◌, ◌^◌, ◌&&◌, ◌||◌, ltb, ◌==◌, if◌then◌else◌}

-- By how many bits a number exceeds 53 bits; the fuel is more than the 1,076 bits of a number below 4.
unfoldable pub excess : ℕ → ℕ → ℕ
excess zero n = 0
excess (suc fuel) n = let rest = excess fuel (n / 2) in if ltb n (2 ^ 53) then 0 else suc rest

abbrev enough : ℕ
enough = 1_100

-- Rounding to a multiple of 2^k.
unfoldable pub round_to : ℕ → ℕ → ℕ
round_to k n =
    let unit = 2 ^ k in
    let low = n / unit in
    let left = n - low * unit in
    if ltb unit (left * 2) || (left * 2 == unit && low - low / 2 * 2 == 1)
    then (low + 1) * unit
    else low * unit

unfoldable pub round : ℕ → ℕ
unfolding excess round_to
round n = round_to (excess enough n) n

unfoldable pub add : ℕ → ℕ → ℕ
unfolding round
add a b = round (a + b)

-- a - b, and 0 where that is negative.
unfoldable pub sub : ℕ → ℕ → ℕ
unfolding round
sub a b = round (a - b)

unfoldable pub one : ℕ
one = 2 ^ 1074
