-- ===== src/Stats/Records.antt =====
-- stats.go: what is recorded of a request, and the budget of every text in it.
use Prim.Native.String.{◌++◌ as append}
use lite2api.Common.{
  ℕ, String, Bool, false, not, ◌&&◌, List, [], ◌∷◌, map, take, contains, ◌==◌, leb, ltb,
  if◌then◌else◌,
}
use lite2api.Common.Int.{ℤ}
use lite2api.Common.Text.{nul_text}
use lite2api.Stats.Truncate.{truncate}

pub record UpstreamAttempt : Type 0 where
  pub account_id : String
  pub credential_id : String
  pub upstream_model : String
  pub status : ℕ
  pub latency_ms : ℤ
  pub outcome : String

-- `cache_rate` stands for the bits of its float64.
pub record RequestRecord : Type 0 where
  pub time : String
  pub request_id : String
  pub model : String
  pub upstream_model : String
  pub account_id : String
  pub credential_id : String
  pub operation : String
  pub reasoning_effort : String
  pub required_features : String
  pub request_contract : String
  pub expected_choices : ℤ
  pub tool_mode : String
  pub client_key_id : String
  pub client_key_name : String
  pub path : String
  pub status : ℕ
  pub latency_ms : ℤ
  pub input_type : String
  pub output_type : String
  pub input_parts : ℤ
  pub text_parts : ℤ
  pub image_parts : ℤ
  pub audio_parts : ℤ
  pub video_parts : ℤ
  pub file_parts : ℤ
  pub request_bytes : ℤ
  pub response_bytes : ℤ
  pub stream : Bool
  pub usage_available : Bool
  pub input_tokens : ℤ
  pub output_tokens : ℤ
  pub total_tokens : ℤ
  pub cached_tokens : ℤ
  pub cache_write_tokens : ℤ
  pub cache_rate : ℕ
  pub cache_rate_known : Bool
  pub error : String
  pub outcome : String
  pub attempt_count : ℤ
  pub attempts : List UpstreamAttempt
  pub route_fingerprint : String

abbrev pub max_observed_attempts : ℕ
max_observed_attempts = 64

abbrev pub max_gateway_model_bytes : ℕ
max_gateway_model_bytes = 256

pub sanitize_attempt : UpstreamAttempt → UpstreamAttempt
sanitize_attempt a = record a {
  account_id = truncate a.account_id 128;
  credential_id = truncate a.credential_id 128;
  upstream_model = truncate a.upstream_model max_gateway_model_bytes;
  outcome = truncate a.outcome 64;
}

unfoldable pub sanitize_request_record : RequestRecord → RequestRecord
unfolding sanitize_attempt
sanitize_request_record r = record r {
  time = truncate r.time 64;
  request_id = truncate r.request_id 128;
  model = truncate r.model max_gateway_model_bytes;
  upstream_model = truncate r.upstream_model max_gateway_model_bytes;
  account_id = truncate r.account_id 128;
  credential_id = truncate r.credential_id 128;
  operation = truncate r.operation 64;
  reasoning_effort = truncate r.reasoning_effort 32;
  required_features = truncate r.required_features 128;
  request_contract = truncate r.request_contract 64;
  tool_mode = truncate r.tool_mode 16;
  client_key_id = truncate r.client_key_id 128;
  client_key_name = truncate r.client_key_name 128;
  path = truncate r.path 256;
  input_type = truncate r.input_type 64;
  output_type = truncate r.output_type 64;
  error = truncate r.error 1024;
  outcome = truncate r.outcome 64;
  attempts = map sanitize_attempt (take max_observed_attempts r.attempts);
  route_fingerprint = truncate r.route_fingerprint 64;
}

pub record_succeeded : RequestRecord → Bool
record_succeeded r =
    if not (r.outcome == "")
    then r.outcome == "success"
    else r.error == "" && leb 200 r.status && ltb r.status 400

pub route_health_observation : RequestRecord → Bool
route_health_observation r =
    if r.account_id == ""
    then false
    else not (
        contains
          ("client_cancelled" ∷ "downstream_timeout" ∷ "queue_timeout" ∷ "gateway_rejected"
            ∷ "upstream_rejected" ∷ [])
          r.outcome)

abbrev pub with_nul : String → String → String
with_nul a rest = append a (append nul_text rest)

pub route_observation_key : RequestRecord → String
route_observation_key r = with_nul r.model (
    with_nul r.account_id (
      with_nul r.credential_id (
        with_nul r.upstream_model (
          with_nul r.reasoning_effort (
            with_nul r.operation (
              with_nul (if r.stream then "stream" else "json")
                (with_nul r.required_features r.request_contract)))))))
