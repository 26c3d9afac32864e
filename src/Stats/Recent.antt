-- ===== src/Stats/Recent.antt =====
-- stats.go: the counters, Record, and the recent requests of a Snapshot.
use lite2api.Common.{
  ◌>>=◌, ℕ, ◌+◌, ◌-◌, ◌/◌, ◌%◌, String, Bool, List, [], ◌∷◌, Option, none, some, length, ltb, leb,
  if◌then◌else◌,
}
use lite2api.Common.Int.{ℤ, pos, incr, decr}
use lite2api.Stats.Records.{RequestRecord, sanitize_request_record}
use lite2api.Stats.Ring.{ring_put, read_at}
use lite2api.Stats.Trend.{Trend, empty_bucket, record_trend, trend_bucket_duration, trend_retention}
use lite2api.Stats.Routes.{record_time}
pub mod Refine

-- Stats without the route observations. A limit that is not positive is 0 here, as the code treats both alike.
pub record Stats : Type 0 where
  pub requests : ℤ
  pub success : ℤ
  pub failed : ℤ
  pub failovers : ℤ
  pub active : ℤ
  pub recent : List RequestRecord
  pub limit : ℕ
  pub next : ℕ
  pub trend : Trend

pub new_stats_with_trend : ℕ → ℕ → Stats
new_stats_with_trend limit retention =
    let trend_limit = retention / trend_bucket_duration in
    record {
      requests = pos 0;
      success = pos 0;
      failed = pos 0;
      failovers = pos 0;
      active = pos 0;
      recent = [];
      limit = limit;
      next = 0;
      trend = record {
        trend = [];
        trend_next = 0;
        trend_limit = if ltb trend_limit 1 then 1 else trend_limit;
        current = empty_bucket (pos 0);
      };
    }

pub new_stats : ℕ → Stats
new_stats limit = new_stats_with_trend limit trend_retention

pub begin_request : Stats → Stats
begin_request s = record s { requests = incr s.requests; active = incr s.active }

pub end_request : Bool → Stats → Stats
end_request ok s =
    if ok
    then record s { active = decr s.active; success = incr s.success }
    else record s { active = decr s.active; failed = incr s.failed }

pub count_failover : Stats → Stats
count_failover s = record s { failovers = incr s.failovers }

-- the ring of the recent requests, in Record
pub put_recent : RequestRecord → Stats → Option Stats
put_recent r s = if leb s.limit 0 then some s else do
  ring ← ring_put s.limit r s.recent s.next
  some (record s { recent = ring.0; next = ring.1 })

module _ (format_time : ℤ → String) (parse_time : String → Option ℤ) where
  -- Record, with the clock for a time that does not parse; `none` is a panic
  pub record_request : ℤ → RequestRecord → Stats → Option Stats
  record_request now raw s = do
    let r = sanitize_request_record raw
    t ← record_trend format_time r (record_time parse_time now r.time) s.trend
    put_recent r (record s { trend = t })

-- the recent requests of a Snapshot; `none` where an index is out of range
pub recent_requests : Stats → Option (List RequestRecord)
recent_requests s =
    read_at s.recent (λ i. (s.next + length s.recent - 1 - i) % length s.recent) 0 (length s.recent)

pub record StatsSnapshot : Type 0 where
  pub requests : ℤ
  pub successful : ℤ
  pub failed : ℤ
  pub failovers : ℤ
  pub active : ℤ
  pub recent_limit : ℕ
  pub recent : List RequestRecord

pub snapshot : Stats → Option StatsSnapshot
snapshot s = do
  recent ← recent_requests s
  some (record {
    requests = s.requests;
    successful = s.success;
    failed = s.failed;
    failovers = s.failovers;
    active = s.active;
    recent_limit = s.limit;
    recent = recent;
  })
