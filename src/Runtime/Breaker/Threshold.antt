-- ===== src/Runtime/Breaker/Threshold.antt =====
-- Consecutive failures open the circuit at the threshold, and not before.
use lite2api.Common.{ℕ, ◌+◌, String, false, List, [], ◌∷◌, if◌then◌else◌}
use lite2api.Common.Int.{pos, leb_ℤ}
use lite2api.Runtime.Breaker.{Breaker, next_attempt, Policy, record_failure}

-- One failed attempt after the other: each begins, and is reported at the given time.
pub fail_each : Policy → List (ℕ × String) → Breaker → Breaker
fail_each policy [] b = b
fail_each policy ((now, message) ∷ rest) b =
    let started = next_attempt b in
    fail_each policy rest (record_failure policy false now message started.attempt_seq started)

abbrev pub opened : Policy → ℕ → ℕ → List (ℕ × String) → ℕ
opened policy failures until [] = until
opened policy failures until ((now, message) ∷ rest) =
    opened policy (failures + 1)
      (if leb_ℤ policy.threshold (pos (failures + 1)) then now + policy.cooldown else until) rest
