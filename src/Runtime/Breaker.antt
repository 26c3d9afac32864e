-- ===== src/Runtime/Breaker.antt =====
-- runtime.go `breakerRuntime`: the circuit breaker of one scope. Attempts are numbered, so that the
-- result of an older attempt cannot undo that of a newer one.
pub mod Fencing
pub mod Threshold
use lite2api.Common.{
  ℕ, ◌+◌, String, Bool, true, false, ◌||◌, Option, none, some, leb, ltb, if◌then◌else◌,
}
use lite2api.Common.Int.{ℤ, pos, leb_ℤ}
use lite2api.Stats.Truncate.{truncate}

-- Times are nanoseconds; `circuit_until` 0 is a closed circuit. Counters stay below 2^63.
pub record Breaker : Type 0 where
  pub failures : ℕ
  pub circuit_until : ℕ
  pub last_error : String
  pub attempt_seq : ℕ
  pub latest_failure_seq : ℕ
  pub latest_non_failure_seq : ℕ

abbrev pub new_breaker : Breaker
new_breaker = record {
  failures = 0;
  circuit_until = 0;
  last_error = "";
  attempt_seq = 0;
  latest_failure_seq = 0;
  latest_non_failure_seq = 0;
}

-- `attemptSeq.Add(1)`: the number of the attempt is the new value
unfoldable pub next_attempt : Breaker → Breaker
next_attempt b = record b { attempt_seq = b.attempt_seq + 1 }

-- the part of `reportSuccess` under `resultMu`
pub record_success : ℕ → Breaker → Breaker
record_success sequence b = if leb sequence b.latest_failure_seq then b else record b {
  latest_non_failure_seq =
      if ltb b.latest_non_failure_seq sequence then sequence else b.latest_non_failure_seq;
  failures = 0;
  circuit_until = 0;
  last_error = "";
}

pub record Policy : Type 0 where
  pub threshold : ℤ
  pub cooldown : ℕ

-- the part of `reportFailure` under `resultMu`, at the time `now`
unfoldable pub record_failure : Policy → Bool → ℕ → String → ℕ → Breaker → Breaker
record_failure policy force now message sequence b =
    if leb sequence b.latest_non_failure_seq then b else record b {
      latest_failure_seq =
          if ltb b.latest_failure_seq sequence then sequence else b.latest_failure_seq;
      failures = b.failures + 1;
      last_error = truncate message 1024;
      circuit_until =
          if leb_ℤ policy.threshold (pos (b.failures + 1)) || force
          then now + policy.cooldown
          else b.circuit_until;
    }

-- the test of `available` on a breaker
pub closed_at : ℕ → Breaker → Bool
closed_at now b = leb b.circuit_until now
