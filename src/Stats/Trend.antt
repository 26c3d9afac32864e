-- ===== src/Stats/Trend.antt =====
-- stats.go: the trend, one bucket per minute with a bounded sample of latencies.
use lite2api.Common.{
  ◌>>=◌, ℕ, zero, suc, ◌+◌, ◌-◌, ◌*◌, ◌/◌, ◌%◌, String, Bool, not, List, [], ◌∷◌, Option, none,
  some, length, get_elem?, is_empty, ltb, leb, if◌then◌else◌,
}
use lite2api.Common.Int.{ℤ, pos, negsuc, ltb_ℤ, eqb_ℤ}
use lite2api.Common.Sorting.{sort_by}
use lite2api.Stats.Records.{RequestRecord, record_succeeded}
use lite2api.Stats.Ring.{ring_put, read_at}
pub mod Ready

abbrev pub max_trend_samples : ℕ
max_trend_samples = 2048

-- time.Minute, in nanoseconds
abbrev pub trend_bucket_duration : ℕ
trend_bucket_duration = 60_000_000_000

abbrev pub trend_retention : ℕ
trend_retention = 7 * 24 * 60 * trend_bucket_duration

-- A time is its nanoseconds since the zero time.
abbrev pub is_zero_time : ℤ → Bool
is_zero_time t = eqb_ℤ t (pos 0)

-- t.Truncate(d) for d > 0: down to a multiple of d since the zero time
abbrev pub truncate_time : ℕ → ℤ → ℤ
truncate_time d (pos n) = pos (n - n % d)
truncate_time d (negsuc n) = negsuc ((n / d + 1) * d - 1)

pub record TrendPoint : Type 0 where
  pub time : String
  pub requests : ℕ
  pub failed : ℕ
  pub p95_latency_ms : Option ℤ

pub record TrendBucket : Type 0 where
  pub start : ℤ
  pub requests : ℕ
  pub failed : ℕ
  pub latency_samples : List ℤ
  pub latency_next : ℕ

abbrev pub empty_bucket : ℤ → TrendBucket
empty_bucket start = record {
  start = start;
  requests = 0;
  failed = 0;
  latency_samples = [];
  latency_next = 0;
}

-- the fields of Stats that the trend uses
pub record Trend : Type 0 where
  pub trend : List TrendPoint
  pub trend_next : ℕ
  pub trend_limit : ℕ
  pub current : TrendBucket

-- latencies[index-1] behind sort.Slice; `none` where the index is out of range
unfoldable pub p95_value : List ℤ → Option ℤ
p95_value samples = get_elem? (sort_by ltb_ℤ samples) ((95 * length samples + 99) / 100 - 1)

pub append_trend : TrendPoint → Trend → Option Trend
append_trend point s = if leb s.trend_limit 0 then some s else do
  ring ← ring_put s.trend_limit point s.trend s.trend_next
  some (record s { trend = ring.0; trend_next = ring.1 })

-- the end of recordTrendLocked: one more request in the current bucket
pub count_in_bucket : RequestRecord → TrendBucket → Option TrendBucket
count_in_bucket r b = do
  let latency = if ltb_ℤ r.latency_ms (pos 0) then pos 0 else r.latency_ms
  ring ← ring_put max_trend_samples latency b.latency_samples b.latency_next
  some (record {
    start = b.start;
    requests = suc b.requests;
    failed = if record_succeeded r then b.failed else suc b.failed;
    latency_samples = ring.0;
    latency_next = ring.1;
  })

pub count_current : RequestRecord → Trend → Option Trend
count_current r s = do b ← count_in_bucket r s.current; some (record s { current = b })

-- value.UTC().Format(time.RFC3339Nano)
module _ (format_time : ℤ → String) where
  pub trend_point : TrendBucket → Option TrendPoint
  trend_point b =
      let point : TrendPoint = record {
        time = format_time b.start;
        requests = b.requests;
        failed = b.failed;
        p95_latency_ms = none;
      } in
      if is_empty b.latency_samples then some point else do
        value ← p95_value b.latency_samples
        some (record point { p95_latency_ms = some value })

  -- s.appendTrendLocked(trendPoint(s.currentTrend)); s.currentTrend = trendBucket{start: bucketStart}
  pub close_bucket : ℤ → Trend → Option Trend
  close_bucket start s = do
    point ← trend_point s.current
    t ← append_trend point s
    some (record t { current = empty_bucket start })

  pub record_trend : RequestRecord → ℤ → Trend → Option Trend
  record_trend r observed s =
      let start = truncate_time trend_bucket_duration observed in
      if leb s.trend_limit 0
      then some s
      else if is_zero_time s.current.start
      then count_current r (record s { current = record s.current { start = start } })
      else if ltb_ℤ s.current.start start
      then close_bucket start s >>= count_current r
      else if ltb_ℤ start s.current.start
      then some s
      else count_current r s
