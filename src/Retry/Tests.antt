-- ===== src/Retry/Tests.antt =====
-- Runs of the retry policy (errclass.go), and the theorems at concrete inputs.
use ferret_new.Base.{◌≡◌, refl, arith, true, false, none, [], ◌∷◌, ◌++◌}
use ferret_new.Base.Int.{pos}
use ferret_new.Retry.{
  transient, poison, disk_full, plain, Link, classify, wrap, normalize, Policy, new_policy, policy,
  invalid, cap_below_base, should_retry, double,
}
use ferret_new.Retry.Backoff.{capped, double_exact}
use ferret_new.Retry.Wrapping.{classify-opaque, classify-wrap}

-- The default policy: 5 seconds, 30 minutes, 8 attempts.
abbrev default_policy : Policy
default_policy = record {
  base = 5_000_000_000;
  cap = 1_800_000_000_000;
  max_transient_attempts = pos 8;
}

default_policy_valid :
    new_policy (pos 5_000_000_000) (pos 1_800_000_000_000) (pos 8) ≡ policy default_policy
unfolding new_policy
default_policy_valid = refl

cap_below_base_invalid : new_policy (pos 5) (pos 4) (pos 8) ≡ invalid cap_below_base
unfolding new_policy
cap_below_base_invalid = refl

last_retry : should_retry default_policy transient (pos 7) ≡ true
unfolding should_retry
last_retry = refl

no_more_retries : should_retry default_policy transient (pos 8) ≡ false
unfolding should_retry
no_more_retries = refl

double_exact_example :
    double 12 1_800_000_000_000 (pos 5_000_000_000)
    ≡ pos (capped 12 1_800_000_000_000 5_000_000_000)
double_exact_example = double_exact 12 1_800_000_000_000 5_000_000_000 (omega arith) (omega arith)

abbrev no_space : Link
no_space = record { error_class = none; class = none; kind = disk_full }

abbrev message : Link
message = record { error_class = none; class = none; kind = plain }

classify-opaque_example : classify ((message ∷ []) ++ (no_space ∷ [])) ≡ classify (no_space ∷ [])
classify-opaque_example = classify-opaque (message ∷ []) (no_space ∷ []) ((refl, refl, refl), tt)

classify-wrap_example : classify ((message ∷ []) ++ wrap poison (no_space ∷ [])) ≡ normalize poison
classify-wrap_example = classify-wrap poison (message ∷ []) no_space [] (refl, tt)
