-- ===== src/Stats/Routes.antt =====
-- stats.go: the latest observation of every route, target and operation.
pub mod Fresh
use lite2api.Common.{
  ℕ, String, Bool, true, false, not, ◌&&◌, ◌||◌, List, [], ◌∷◌, Option, none, some, length, ◌==◌,
  leb, if◌then◌else◌,
}
use lite2api.Common.Int.{ℤ, ltb_ℤ}
use lite2api.Common.Assoc.{Assoc, lookup, insert, erase, keep}
use lite2api.Runtime.State.{or_else}
use lite2api.Stats.Records.{
  RequestRecord, sanitize_request_record, route_health_observation, route_observation_key,
}

abbrev pub max_route_observations : ℕ
max_route_observations = 16384

-- the fields of Stats that readiness uses
pub record RouteStats : Type 0 where
  pub route_latest : Assoc RequestRecord
  pub route_fingerprints : Assoc String

-- `m[key]`, empty where it is missing
abbrev pub fingerprint_of : Assoc String → String → String
fingerprint_of m model = or_else (lookup model m) ""

-- time.Parse(time.RFC3339Nano) as nanoseconds, or none on an error, which the clock replaces
module _ (parse_time : String → Option ℤ) (now : ℤ) where
  pub record_time : String → ℤ
  record_time value = or_else (parse_time value) now

  -- the loop over the records: the oldest key so far and its time; "" is no key
  pub oldest_key : String × ℤ → Assoc RequestRecord → String × ℤ
  unfolding record_time
  oldest_key best [] = best
  oldest_key best ((candidate, current) ∷ rest) =
      let observed = record_time current.time in
      let earlier = oldest_key (candidate, observed) rest in
      let same = oldest_key best rest in if ltb_ℤ observed best.1 then earlier else same

  pub retain_route_observation : Assoc RequestRecord → String → RequestRecord → Assoc RequestRecord
  retain_route_observation records key r =
      let bare = record r { attempts = [] } in
      let oldest = (oldest_key ("", record_time r.time) records).0 in
      if (elim (lookup key records) [ none ↦ true | some current ↦ false ])
        && leb max_route_observations (length records)
      then if oldest == "" then records else insert key bare (erase oldest records)
      else insert key bare records

  pub record_route_observation : RequestRecord → RouteStats → RouteStats
  record_route_observation raw s =
      let r = sanitize_request_record (record raw { attempts = [] }) in
      let key = route_observation_key r in
      let retained = record s { route_latest = retain_route_observation s.route_latest key r } in
      if r.model == "" || r.route_fingerprint == "" || not (route_health_observation r)
      then s
      else if not (fingerprint_of s.route_fingerprints r.model == r.route_fingerprint)
      then s
      else if (elim (lookup key s.route_latest) [
        | none ↦ true
        | some current ↦ not (ltb_ℤ (record_time r.time) (record_time current.time))
      ])
      then retained
      else s

-- the entries that ConfigureRouteFingerprints leaves
pub current_record : Assoc String → RequestRecord → Bool
current_record fingerprints r = not (
    fingerprint_of fingerprints r.model == ""
    || not (r.route_fingerprint == fingerprint_of fingerprints r.model))

pub configure_route_fingerprints : Assoc String → RouteStats → RouteStats
unfolding current_record
configure_route_fingerprints fingerprints s = record {
  route_latest = keep (λ key r. current_record fingerprints r) s.route_latest;
  route_fingerprints = fingerprints;
}
