-- ===== src/Stats/Examples.antt =====
-- Runs of the statistics on concrete data.
use Prim.Native.String.{len}
use lite2api.Common.{true, List, ◌>>=◌, ◌≤◌, ◌<◌, ◌≡◌, ◌⊎◌, false, [], ◌∷◌, some, arith}
use lite2api.Common.Int.{pos}
use lite2api.Stats.Truncate.{truncate}
use lite2api.Stats.Truncate.Bounds.{len-truncate-le}
use lite2api.Stats.Records.{RequestRecord}
use lite2api.Stats.Recent.{new_stats, snapshot}
use lite2api.Stats.Recent.Refine.{Call, run, view, journal, empty_journal, run_refines}
use lite2api.Stats.Routes.{RouteStats, record_route_observation, configure_route_fingerprints}
use lite2api.Stats.Routes.Fresh.{
  Fresh, configure_route_fingerprints-Fresh, record_route_observation-Fresh,
}

len-truncate-le_example :
    (len (truncate "überlang" 6) ≤ 6)
    × ((6 < len "überlang") ⊎ (truncate "überlang" 6 ≡ "überlang"))
len-truncate-le_example = len-truncate-le "überlang" 6 (omega arith)

abbrev observed : RequestRecord
observed = record {
  time = "t";
  request_id = "r";
  model = "m";
  upstream_model = "u";
  account_id = "a";
  credential_id = "";
  operation = "openai.chat";
  reasoning_effort = "";
  required_features = "";
  request_contract = "";
  expected_choices = pos 1;
  tool_mode = "";
  client_key_id = "";
  client_key_name = "";
  path = "/v1/chat/completions";
  status = 200;
  latency_ms = pos 12;
  input_type = "";
  output_type = "";
  input_parts = pos 0;
  text_parts = pos 0;
  image_parts = pos 0;
  audio_parts = pos 0;
  video_parts = pos 0;
  file_parts = pos 0;
  request_bytes = pos 0;
  response_bytes = pos 0;
  stream = false;
  usage_available = false;
  input_tokens = pos 0;
  output_tokens = pos 0;
  total_tokens = pos 0;
  cached_tokens = pos 0;
  cache_write_tokens = pos 0;
  cache_rate = 0;
  cache_rate_known = false;
  error = "";
  outcome = "success";
  attempt_count = pos 1;
  attempts = [];
  route_fingerprint = "f";
}

abbrev stats : RouteStats
stats = record { route_latest = []; route_fingerprints = ("m", "f") ∷ [] }

record_route_observation-Fresh_example :
    Fresh (record_route_observation (λ s. some (pos 3)) (pos 9) observed stats)
record_route_observation-Fresh_example =
    record_route_observation-Fresh (λ s. some (pos 3)) (pos 9) observed stats tt

configure_route_fingerprints-Fresh_example : Fresh (
    configure_route_fingerprints
      (("m", "g") ∷ [])
      (record stats { route_latest = ("k", observed) ∷ [] }))
configure_route_fingerprints-Fresh_example =
    configure_route_fingerprints-Fresh (("m", "g") ∷ [])
      (record stats { route_latest = ("k", observed) ∷ [] })

abbrev three_requests : List Call
three_requests =
    Call.begins
    ∷ Call.records (pos 7) observed
    ∷ Call.ends true
    ∷ Call.begins
    ∷ Call.records (pos 8) (record observed { request_id = "r2" })
    ∷ Call.fails_over
    ∷ Call.ends false
    ∷ Call.begins
    ∷ Call.records (pos 9) (record observed { request_id = "r3" })
    ∷ []

run_refines_example :
    (run (λ t. "minute") (λ s. some (pos 90_000_000_000)) three_requests (new_stats 2) >>= snapshot)
    ≡ some (view 2 (journal three_requests empty_journal))
run_refines_example =
    run_refines (λ t. "minute") (λ s. some (pos 90_000_000_000)) 2 three_requests (omega arith)
