-- ===== src/Gateway/Budget.antt =====
-- gateway.go: the process-wide budgets, for requests in flight and for the bytes of their bodies.
-- The counters and the sizes are never negative, so they are natural numbers here; the bounds that
-- the code puts on 63-bit sums are written out.
use lite2api.Common.{
  ℕ, zero, suc, ◌+◌, ◌-◌, ◌*◌, ◌/◌, Bool, true, false, not, ◌&&◌, ◌||◌, List, [], ◌∷◌, ◌++◌, Option,
  none, some, get_elem?, set, ltb, leb, eqb, if◌then◌else◌,
}
use lite2api.Common.Int.{ℤ, pos, leb_ℤ, incr, pos_part}
pub mod Balance

abbrev pub max_int64 : ℕ
max_int64 = 9_223_372_036_854_775_807

-- 64 << 20, twice, and 512 << 10
abbrev pub default_max_body_bytes : ℕ
default_max_body_bytes = 67_108_864

abbrev pub default_buffered_body_budget : ℕ
default_buffered_body_budget = 67_108_864

abbrev pub max_internal_rewrite_growth : ℕ
max_internal_rewrite_growth = 524_288

-- the slot of a request, and whether there was one
pub try_acquire_global : ℤ → ℕ → Option ℕ
try_acquire_global limit active =
    if leb_ℤ limit (pos 0)
    then some (active + 1)
    else if leb (pos_part limit) active
    then none
    else some (active + 1)

-- current > limit - reservation
pub try_acquire_body_bytes : ℕ → ℕ → ℕ → Option ℕ
try_acquire_body_bytes reservation limit current =
    if eqb reservation 0
    then some current
    else if ltb limit (current + reservation)
    then none
    else some (current + reservation)

-- A limit of 0 stands for one that is not positive.
abbrev body_limit : ℕ → ℕ
body_limit max_body = if eqb max_body 0 then default_max_body_bytes else max_body

pub rewrite_body_reservation : ℕ → ℕ
rewrite_body_reservation max_body =
    if ltb (max_int64 - max_internal_rewrite_growth) (body_limit max_body)
    then max_int64
    else body_limit max_body + max_internal_rewrite_growth

pub request_body_memory_budget : ℕ → ℕ
request_body_memory_budget max_body =
    let limit = body_limit max_body in
    let rewrite = rewrite_body_reservation limit in
    let wanted = 2 * limit + rewrite + max_internal_rewrite_growth in
    if eqb rewrite max_int64
      || ltb (max_int64 - max_internal_rewrite_growth) rewrite
      || ltb ((max_int64 - rewrite - max_internal_rewrite_growth) / 2) limit
    then max_int64
    else if ltb wanted default_buffered_body_budget
    then default_buffered_body_budget
    else wanted

pub record BodyByteLease : Type 0 where
  pub limit : ℕ
  pub reserved : ℕ
  pub released : Bool

-- The counter of the process, and a lease.
abbrev pub Charge : Type 0
Charge = ℕ × BodyByteLease

pub acquire : ℕ → Charge → Charge × Bool
acquire bytes (total, l) =
    if eqb bytes 0
    then ((total, l), true)
    else if l.released
    then ((total, l), false)
    else elim (try_acquire_body_bytes bytes l.limit total) [
      | none ↦ ((total, l), false)
      | some charged ↦ ((charged, record l { reserved = l.reserved + bytes }), true)
    ]

pub shrink_to : ℕ → Charge → Charge
shrink_to bytes (total, l) =
    if l.released || leb l.reserved bytes
    then (total, l)
    else (total - (l.reserved - bytes), record l { reserved = bytes })

pub release : Charge → Charge
release (total, l) =
    if l.released
    then (total, l)
    else (total - l.reserved, record l { reserved = 0; released = true })

-- The leases of all requests, with the counter that they share.
pub record Ledger : Type 0 where
  pub body_bytes : ℕ
  pub leases : List BodyByteLease

abbrev pub empty_ledger : Ledger
empty_ledger = record { body_bytes = 0; leases = [] }

-- one call, of any request: the calls of several requests interleave
pub data BodyStep : Type 0 where
  opens : ℕ → BodyStep
  acquires : ℕ → ℕ → BodyStep
  shrinks : ℕ → ℕ → BodyStep
  releases : ℕ → BodyStep

-- a call on the lease at an index
pub on_lease : (Charge → Charge) → ℕ → Ledger → Ledger
on_lease call i s = elim (get_elem? s.leases i) [
  | none ↦ s
  | some l ↦
      let out = call (s.body_bytes, l) in
      record { body_bytes = out.0; leases = set s.leases i out.1 }
]

pub body_step : BodyStep → Ledger → Ledger
body_step (opens limit) s = record s {
  leases = s.leases ++ (record { limit = limit; reserved = 0; released = false }) ∷ [];
}
body_step (acquires i bytes) s = on_lease (λ c. (acquire bytes c).0) i s
body_step (shrinks i bytes) s = on_lease (shrink_to bytes) i s
body_step (releases i) s = on_lease release i s

pub body_steps : List BodyStep → Ledger → Ledger
body_steps [] s = s
body_steps (step ∷ steps) s = body_steps steps (body_step step s)
