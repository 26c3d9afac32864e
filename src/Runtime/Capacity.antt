-- ===== src/Runtime/Capacity.antt =====
-- runtime.go `tryAcquire`, `release` and clientkeys.go `acquireAtomic`: a bounded counter of leases
-- that many goroutines take and give back by compare-and-swap.
pub mod Bounds
use lite2api.Common.{
  ℕ, Bool, true, false, List, [], ◌∷◌, Option, none, some, get_elem?, set, if◌then◌else◌,
}
use lite2api.Common.Int.{ℤ, pos, incr, decr, leb_ℤ, ltb_ℤ, eqb_ℤ}

-- A call as one step, as it behaves where no other goroutine comes between.
unfoldable pub acquire : ℤ → ℤ → ℤ × Bool
acquire limit active =
    if leb_ℤ limit (pos 0)
    then (incr active, true)
    else if leb_ℤ limit active
    then (active, false)
    else (incr active, true)

unfoldable pub release : ℤ → ℤ
release active = decr active

-- A goroutine between two accesses to the shared counter: outside, in the loop with the value that
-- it has loaded, or with a lease.
pub data Thread : Type 0 where
  outside holding : Thread
  loaded : ℤ → Thread

-- Its next access: the counter and where the goroutine stands then. `outside` calls the acquiring
-- function; a failed compare-and-swap goes back to the head of the loop, which loads again.
pub advance : ℤ → Thread → ℤ → Thread × ℤ
advance limit outside active =
    if leb_ℤ limit (pos 0) then (holding, incr active) else (loaded active, active)
advance limit (loaded current) active =
    if leb_ℤ limit current
    then (outside, active)
    else if eqb_ℤ active current
    then (holding, incr current)
    else (outside, active)
advance limit holding active = (outside, decr active)

pub record Shared : Type 0 where
  pub active : ℤ
  pub threads : List Thread

-- Goroutine `i` makes its next access.
pub step : ℤ → ℕ → Shared → Shared
unfolding advance
step limit i s = elim (get_elem? s.threads i) [
  | none ↦ s
  | some t ↦
      let next = advance limit t s.active in
      record { active = next.1; threads = set s.threads i next.0 }
]

-- A schedule says which goroutine goes next.
pub run : ℤ → List ℕ → Shared → Shared
unfolding step
run limit [] s = s
run limit (i ∷ schedule) s = run limit schedule (step limit i s)
