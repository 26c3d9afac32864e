-- ===== src/Runtime/Breaker/Fencing.antt =====
-- Late results: what a breaker shows depends on the newest result, not on the order of arrival.
use lite2api.Common.{◌||◌, ℕ, ◌+◌, ◌<◌, String, ◌≡◌, Bool, List, [], ◌∷◌, arith, if◌then◌else◌}
use lite2api.Common.Int.{pos, leb_ℤ}
use lite2api.Runtime.Breaker.{
  Breaker, new_breaker, next_attempt, record_success, Policy, record_failure,
}

-- A success that is newer than every failure closes the circuit, whether an older failure that is
-- still out is reported before it or after it.
pub success_wins :
    (policy : Policy) (force : Bool) (now : ℕ) (message : String) (older newer : ℕ) (b : Breaker)
    → older < newer
    → b.latest_failure_seq < newer
    → let late = record_failure policy force now message older (record_success newer b) in
      let early = record_success newer (record_failure policy force now message older b) in
      (late.failures ≡ 0)
      × (late.circuit_until ≡ 0)
      × (early.failures ≡ 0)
      × (early.circuit_until ≡ 0)
unfolding record_success record_failure
success_wins policy force now message older newer b h k =
    (ground arith, ground arith, ground arith, ground arith)

-- A failure that is newer than every success counts, and opens the circuit exactly where it is
-- forced or reaches the threshold; an older success that is reported after it changes nothing.
pub failure_wins :
    (policy : Policy) (force : Bool) (now : ℕ) (message : String) (older newer : ℕ) (b : Breaker)
    → older < newer
    → b.latest_non_failure_seq < newer
    → let failed = record_failure policy force now message newer b in
      (record_success older failed ≡ failed)
      × (failed.failures ≡ b.failures + 1)
      × (failed.circuit_until ≡ (
          if leb_ℤ policy.threshold (pos (b.failures + 1)) || force
          then now + policy.cooldown
          else b.circuit_until))
unfolding record_success record_failure
failure_wins policy force now message older newer b h k = (ground arith, ground arith, ground arith)

-- What happens to a breaker: an attempt begins, or one that has begun is reported.
pub data Event : Type 0 where
  begin : Event
  success : ℕ → Event
  failure : Policy → Bool → ℕ → String → ℕ → Event

unfoldable pub apply : Event → Breaker → Breaker
apply begin b = next_attempt b
apply (success sequence) b = record_success sequence b
apply (failure policy force now message sequence) b =
    record_failure policy force now message sequence b

unfoldable pub replay : List Event → Breaker → Breaker
replay [] b = b
replay (e ∷ events) b = replay events (apply e b)

-- Failures are counted only since the newest success; an open circuit has a failure behind it.
pub record Inv (b : Breaker) : Type 0 where
  pub counted : 0 < b.failures → b.latest_non_failure_seq < b.latest_failure_seq
  pub caused : 0 < b.circuit_until → 0 < b.failures

apply-Inv : (e : Event) (b : Breaker) → Inv b → Inv (apply e b)
unfolding apply next_attempt record_success record_failure
apply-Inv begin b v = ground arith
apply-Inv (success n) b v = ground arith
apply-Inv (failure policy force now message n) b v = ground arith

replay-Inv : (events : List Event) (b : Breaker) → Inv b → Inv (replay events b)
unfolding replay
replay-Inv [] b v = v
replay-Inv (e ∷ events) b v = replay-Inv events (apply e b) (apply-Inv e b v)

-- Whatever is reported, and in whatever order, an open circuit of a breaker that started fresh has a
-- failure behind it that is newer than every success that was taken into account.
pub open_circuit_caused :
    (events : List Event)
    → 0 < (replay events new_breaker).circuit_until
    → (0 < (replay events new_breaker).failures)
      × ((replay events new_breaker).latest_non_failure_seq
          < (replay events new_breaker).latest_failure_seq)
open_circuit_caused events is_open =
    let v = replay-Inv events new_breaker (ground arith) in
    (v.caused is_open, v.counted (v.caused is_open))
