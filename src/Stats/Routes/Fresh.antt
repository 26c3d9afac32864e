-- ===== src/Stats/Routes/Fresh.antt =====
-- Which observations are kept.
use lite2api.Common.{
  sym, ◌≡◌, ◌≢◌, String, Bool, true, false, not, ◌&&◌, ◌||◌, [], ◌∷◌, Option, none, some, arith,
  All, Bool-cases, inl, inr, if-both, eq_iff, ◌==◌, length, leb, if◌then◌else◌,
}
use lite2api.Common.Int.{ℤ, ltb_ℤ}
use lite2api.Common.Assoc.{Assoc, lookup, insert, erase, keep}
use lite2api.Stats.Records.{
  RequestRecord, sanitize_request_record, route_health_observation, route_observation_key,
}
use lite2api.Stats.Routes.{
  oldest_key, record_time, max_route_observations, RouteStats, fingerprint_of,
  retain_route_observation, record_route_observation, current_record, configure_route_fingerprints,
}

-- Every observation is of the route that is configured now.
abbrev pub FreshIn : Assoc String → String × RequestRecord → Type 0
FreshIn fingerprints e =
    (e.1.route_fingerprint ≢ "") × (fingerprint_of fingerprints e.1.model ≡ e.1.route_fingerprint)

abbrev pub Fresh : RouteStats → Type 0
Fresh s = All (FreshIn s.route_fingerprints) s.route_latest

module _ (P : String × RequestRecord → Type 0) where
  All-insert :
      (k : String) (r : RequestRecord) (m : Assoc RequestRecord)
      → P (k, r)
      → All P m
      → All P (insert k r m)
  unfolding insert
  All-insert k r [] p h = (p, tt)
  All-insert k r ((j, w) ∷ m) p (h, hs) =
      if-both (All P) (j == k) (p, hs) (h, All-insert k r m p hs)

  All-erase : (k : String) (m : Assoc RequestRecord) → All P m → All P (erase k m)
  unfolding erase
  All-erase k [] h = tt
  All-erase k ((j, w) ∷ m) (h, hs) =
      if-both (All P) (j == k) (All-erase k m hs) (h, All-erase k m hs)

All-keep :
    (P : String × RequestRecord → Type 0) (p : RequestRecord → Bool) (m : Assoc RequestRecord)
    → ((k : String) (r : RequestRecord) → p r ≡ true → P (k, r))
    → All P (keep (λ k r. p r) m)
unfolding keep
All-keep P p [] f = tt
All-keep P p ((j, w) ∷ m) f = elim (Bool-cases (p w)) [
  | inl good ↦ rw good (f j w good, All-keep P p m f)
  | inr bad ↦ rw bad (All-keep P p m f)
]

-- the test of a kept record, read
Current-of :
    (configured recorded : String)
    → not (configured == "" || not (recorded == configured)) ≡ true
    → (recorded ≢ "") × (configured ≡ recorded)
Current-of configured recorded h =
    let same : recorded ≡ configured = ground (arith, eq_iff recorded configured) in
    (λ e. ground (arith, eq_iff configured ""), sym same)

fresh_by :
    (configured recorded : String) (unnamed unhealthy : Bool)
    → (unnamed || recorded == "" || unhealthy) ≡ false
    → not (configured == recorded) ≡ false
    → (recorded ≢ "") × (configured ≡ recorded)
fresh_by configured recorded unnamed unhealthy observed current =
    (λ e. ground (arith, eq_iff recorded ""), ground (arith, eq_iff configured recorded))

retain_route_observation-All :
    (P : String × RequestRecord → Type 0) (parse_time : String → Option ℤ) (now : ℤ)
    (records : Assoc RequestRecord) (key : String) (r : RequestRecord)
    → All P records
    → P (key, record r { attempts = [] })
    → All P (retain_route_observation parse_time now records key r)
unfolding retain_route_observation
retain_route_observation-All P parse_time now records key r h p =
    let bare = record r { attempts = [] } in
    let oldest = (oldest_key parse_time now ("", record_time parse_time now r.time) records).0 in
    if-both (All P)
      ((elim (lookup key records) [ none ↦ true | some current ↦ false ])
        && leb max_route_observations (length records))
      {x = if oldest == "" then records else insert key bare (erase oldest records)}
      {y = insert key bare records}
      (if-both (All P) (oldest == "") {x = records} {y = insert key bare (erase oldest records)} h
        (All-insert P key bare (erase oldest records) p (All-erase P oldest records h)))
      (All-insert P key bare records p h)

-- Configuring the routes, whatever was observed before, leaves only observations of the routes as
-- they are configured now.
pub configure_route_fingerprints-Fresh :
    (fingerprints : Assoc String) (s : RouteStats)
    → Fresh (configure_route_fingerprints fingerprints s)
unfolding configure_route_fingerprints current_record
configure_route_fingerprints-Fresh fingerprints s =
    All-keep _ (current_record fingerprints) s.route_latest
      (λ k r good. Current-of (fingerprint_of fingerprints r.model) r.route_fingerprint good)

-- An observation that arrives late, of a route as it was before, is not kept: recording any
-- observation leaves only observations of the routes as they are configured now.
pub record_route_observation-Fresh :
    (parse_time : String → Option ℤ) (now : ℤ) (r : RequestRecord) (s : RouteStats)
    → Fresh s
    → Fresh (record_route_observation parse_time now r s)
unfolding record_route_observation
record_route_observation-Fresh parse_time now raw s h =
    let r = sanitize_request_record (record raw { attempts = [] }) in
    elim (Bool-cases
      (r.model == "" || r.route_fingerprint == "" || not (route_health_observation r))) [
        | inl ignored ↦ rw ignored h
        | inr observed ↦
            elim (Bool-cases
              (not (fingerprint_of s.route_fingerprints r.model == r.route_fingerprint))) [
                | inl late ↦ rw (observed, late) h
                | inr current ↦
                    rw (observed, current)
                      (if-both Fresh
                        (elim (lookup (route_observation_key r) s.route_latest) [
                          | none ↦ true
                          | some known ↦ not (
                              ltb_ℤ (record_time parse_time now r.time)
                                (record_time parse_time now known.time))
                        ])
                        {x = record s {
                          route_latest =
                              retain_route_observation parse_time now s.route_latest
                                (route_observation_key r) r;
                        }}
                        {y = s}
                        (retain_route_observation-All (FreshIn s.route_fingerprints) parse_time now
                          s.route_latest (route_observation_key r) r h
                          (fresh_by (fingerprint_of s.route_fingerprints r.model)
                            r.route_fingerprint (r.model == "") (not (route_health_observation r))
                            observed current))
                        h)
              ]
      ]
