-- ===== src/ClientKeys/Access/Rate.antt =====
-- The rate limit is exact.
use lite2api.Common.{
  inl, inr, Bool-cases, Bool-cases, ◌≢◌, ℕ, zero, suc, ◌+◌, ◌-◌, ◌*◌, ◌/◌, ◌%◌, ◌^◌, ◌≤◌, ◌<◌, ◌≡◌,
  refl, true, false, arith, leb, if◌then◌else◌,
}
use lite2api.Common.Int.{pos}
use lite2api.ClientKeys.{rate_count_base}
use lite2api.ClientKeys.Access.{acquire_rpm}

-- the calls of one minute that are let in, of n in a row
abbrev pub admitted : ℕ → ℕ → ℕ → ℕ → ℕ
admitted zero rpm now bucket = 0
admitted (suc n) rpm now bucket =
    let r = acquire_rpm bucket (pos rpm) now in
    let rest = admitted n rpm now r.0 in if r.1 then rest + 1 else rest

abbrev min : ℕ → ℕ → ℕ
min a b = if leb a b then a else b

minute_of : (minute count : ℕ) → count < 1048576 → (minute * 1048576 + count) / 1048576 ≡ minute
minute_of minute count h = omega arith

count_of : (minute count : ℕ) → count < 1048576 → (minute * 1048576 + count) % 1048576 ≡ count
count_of minute count h = omega arith

-- one call in a minute that the word holds
acquire_rpm-same :
    (minute count rpm now : ℕ)
    → now / 60 ≡ minute
    → minute < 2 ^ 44
    → count < rpm
    → rpm < rate_count_base
    → acquire_rpm (minute * rate_count_base + count) (pos rpm) now
      ≡ (minute * rate_count_base + (count + 1), true)
unfolding acquire_rpm
acquire_rpm-same minute count rpm now e h c r =
    ground (arith, minute_of minute count (omega arith), count_of minute count (omega arith))

acquire_rpm-full :
    (minute rpm now : ℕ)
    → now / 60 ≡ minute
    → 0 < rpm
    → rpm < rate_count_base
    → acquire_rpm (minute * rate_count_base + rpm) (pos rpm) now
      ≡ (minute * rate_count_base + rpm, false)
unfolding acquire_rpm
acquire_rpm-full minute rpm now e p r =
    ground (arith, minute_of minute rpm r, count_of minute rpm r)

acquire_rpm-fresh :
    (bucket rpm now : ℕ)
    → 0 < rpm
    → now / 60 < 2 ^ 44
    → bucket / rate_count_base ≢ now / 60
    → acquire_rpm bucket (pos rpm) now ≡ (now / 60 * rate_count_base + 1, true)
unfolding acquire_rpm
acquire_rpm-fresh bucket rpm now p h fresh = ground arith

admitted-same :
    (n minute count rpm now : ℕ)
    → now / 60 ≡ minute
    → minute < 2 ^ 44
    → count ≤ rpm
    → 0 < rpm
    → rpm < rate_count_base
    → admitted n rpm now (minute * rate_count_base + count) ≡ min n (rpm - count)
admitted-same zero minute count rpm now e h c p r = ground arith
admitted-same (suc n) minute count rpm now e h c p r = elim (Bool-cases (leb rpm count)) [
  | inl full ↦
      let same : count ≡ rpm = ground arith in
      let rest = admitted-same n minute rpm rpm now e h (omega arith) p r in
      rw (same, acquire_rpm-full minute rpm now e p r) (ground (arith, rest))
  | inr free ↦
      let rest = admitted-same n minute (count + 1) rpm now e h (ground arith) p r in
      rw (acquire_rpm-same minute count rpm now e h (ground arith) r) (ground (arith, rest))
]

-- With a limit of 1 to 2^20 - 1 calls a minute, of any number of calls at one time, in a minute that
-- the packed word does not hold yet, exactly as many as the limit allows are let in.
pub acquire_rpm-exact :
    (n rpm now bucket : ℕ)
    → 0 < rpm
    → rpm < rate_count_base
    → now / 60 < 2 ^ 44
    → bucket / rate_count_base ≢ now / 60
    → admitted n rpm now bucket ≡ min n rpm
acquire_rpm-exact zero rpm now bucket p r h fresh = ground arith
acquire_rpm-exact (suc n) rpm now bucket p r h fresh =
    rw (acquire_rpm-fresh bucket rpm now p h fresh)
      (ground (arith, admitted-same n (now / 60) 1 rpm now refl h (omega arith) p r))
