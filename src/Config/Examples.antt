-- ===== src/Config/Examples.antt =====
-- Runs of the configuration's capabilities on concrete data.
use lite2api.Common.Text.{
  equal_fold, has_prefix, lower_char, to_lower, is_space, trim_right, trim_left, trim_space,
}
use lite2api.Common.{false, ◌≤◌, ◌≡◌, refl, true, [], ◌∷◌, none, All, Distinct, map}
use lite2api.Common.Int.{pos}
use lite2api.Config.Server.{
  ServerConfig, Config, Host, seconds, gateway_keys, resolved_admin_token, compact, key_check,
  server_checks,
}
use lite2api.Config.Checks.{first_of, first_in}
use lite2api.Config.Accounts.{accounts_check, account_check, account_parts, account_checks}
use lite2api.Config.Routes.{
  route_check, route_parts, route_form_checks, route_size_checks, upstream_check, strategy_ok,
  targets_check, target_check, target_form_checks, target_account_check, target_checks,
  target_identity,
}
use lite2api.Config.Validate.{validate, validate_parts}
use lite2api.Config.Validate.Sound.{Sound, validate-Sound}
use lite2api.Config.Types.{Account, ChannelCapability, no_evidence}
use lite2api.Config.Resolve.{
  resolved_api_key, account_supports_target_model, account_by_id, valid_reasoning_effort,
}
use lite2api.Config.Capabilities.{infer_codex_capabilities, union_strings}
use lite2api.Config.Capabilities.Laws.{infer_codex_capabilities-models, logical_models}
use lite2api.Config.Evidence.{
  validate_evidence, validate_features, validate_evidence, parse_capability_feature_key,
  capability_feature_key, invalidate_account_capability_evidence, validate_capability_evidence,
  valid_capability_feature,
}
use lite2api.Config.Evidence.Keys.{parse-feature_key}
use lite2api.Config.Evidence.Validity.{
  IsScoped, IsAbout, IsSourced, validate_capability_evidence_sound, IsAbout, IsSourced, IsScoped,
  validate_capability_evidence_sound,
}
use lite2api.Config.Evidence.Staleness.{
  IsCurrentCapability, invalidate_account_capability_evidence-IsCurrent,
}

infer_codex_capabilities-models_example :
    (map
        (λ (c : ChannelCapability). c.model)
        (infer_codex_capabilities ("gpt-5" ∷ "gpt-5-codex" ∷ []))
      ≡ union_strings [] (logical_models ("gpt-5" ∷ "gpt-5-codex" ∷ [])))
    × Distinct (
        map
          (λ (c : ChannelCapability). c.model)
          (infer_codex_capabilities ("gpt-5" ∷ "gpt-5-codex" ∷ [])))
infer_codex_capabilities-models_example =
    infer_codex_capabilities-models ("gpt-5" ∷ "gpt-5-codex" ∷ [])

feature_is_valid : valid_capability_feature "stream" ≡ true
unfolding valid_capability_feature
feature_is_valid = refl

parse-feature_key_example :
    parse_capability_feature_key (capability_feature_key "openai.chat" "stream" "high" "")
    ≡ record {
      operation = "openai.chat";
      feature = "stream";
      effort = "high";
      credential = "";
      valid = true;
    }
parse-feature_key_example =
    parse-feature_key "openai.chat" "stream" "high" "" refl feature_is_valid refl refl

abbrev capability : ChannelCapability
capability = record {
  model = "m";
  upstream_model = "u";
  reasoning_efforts = "auto" ∷ [];
  evidence = no_evidence;
  features = [];
}

passes : validate_capability_evidence (λ s. true) capability ≡ none
unfolding validate_capability_evidence validate_evidence validate_features valid_reasoning_effort
passes = refl

validate_capability_evidence_sound_example :
    (0 ≤ 64)
    × IsAbout "u" no_evidence
    × IsSourced no_evidence
    × All (IsScoped "u") capability.features
validate_capability_evidence_sound_example =
    validate_capability_evidence_sound (λ s. true) capability passes

abbrev account : Account
account = record {
  id = "a";
  name = "A";
  type = "openai";
  adapter_id = "";
  instance_id = "";
  base_url = "https://a.example";
  api_key = "k";
  api_key_env = "";
  auth_header = "";
  auth_scheme = "";
  headers = [];
  headers_env = [];
  models = [];
  model_map = [];
  capabilities = capability ∷ [];
  operations = [];
  priority = pos 0;
  weight = pos 1;
  concurrency = pos 2;
  enabled = true;
  proxy_url = "";
}

invalidate_account_capability_evidence-IsCurrent_example :
    All
      (IsCurrentCapability "https://a.example")
      (invalidate_account_capability_evidence (λ a. a.base_url) account).capabilities
invalidate_account_capability_evidence-IsCurrent_example =
    invalidate_account_capability_evidence-IsCurrent (λ a. a.base_url) account

abbrev served : Account
served = record account { capabilities = [] }

abbrev settings : ServerConfig
settings = record {
  listen = "127.0.0.1:8080";
  api_keys = "client-key" ∷ [];
  api_key_env = "";
  admin_token = "admin-token";
  admin_auto_login = false;
  admin_token_env = "";
  client_keys_path = "keys.json";
  admin_allowed_cidrs = [];
  trusted_proxy_cidrs = [];
  admin_session_ttl = seconds 3600;
  max_body_bytes = pos 67_108_864;
  max_in_flight_requests = pos 512;
  request_read_timeout = seconds 30;
  queue_timeout = seconds 5;
  response_header_timeout = seconds 60;
  stream_idle_timeout = seconds 600;
  idle_conn_timeout = seconds 90;
  max_idle_conns = pos 256;
  max_idle_conns_per_host = pos 64;
  max_conns_per_host = pos 128;
  failure_threshold = pos 3;
  circuit_cooldown = seconds 30;
  max_failover_attempts = pos 3;
  allow_private_http_upstream = false;
  request_log_path = "log.jsonl";
  request_log_max_bytes = pos 8_388_608;
  request_log_backups = pos 2;
}

abbrev routed : Config
routed = record {
  version = pos 1;
  server = settings;
  accounts = served ∷ record served { id = "b" } ∷ [];
  routes =
      (
        "m",
        record {
          all_accounts = false;
          accounts = [];
          upstream_model = "";
          strategy = "priority";
          targets =
              record { account = "a"; credential = ""; model = "u"; reasoning_effort = "low" }
              ∷ record { account = "b"; credential = ""; model = "u"; reasoning_effort = "low" }
              ∷ [];
          model = "";
          reasoning_effort = "";
        },
      )
      ∷ [];
}

abbrev plain_host : Host
plain_host = record {
  getenv = λ name. "";
  host_port = λ s. true;
  cidr = λ s. true;
  root_path = λ s. false;
  base_url = λ s private_ok. true;
  proxy_url = λ s. true;
  rfc3339 = λ s. true;
}

routed_validates : validate plain_host routed ≡ none
unfolding validate validate_parts first_of first_in gateway_keys resolved_admin_token compact
    key_check server_checks accounts_check account_check account_parts account_checks route_check
    route_parts route_form_checks route_size_checks upstream_check strategy_ok targets_check
    target_check target_form_checks target_account_check target_checks target_identity account_by_id
    account_supports_target_model valid_reasoning_effort resolved_api_key trim_space trim_left
    trim_right is_space to_lower lower_char has_prefix equal_fold
routed_validates = refl

validate-Sound_example : Sound routed
validate-Sound_example = validate-Sound plain_host routed routed_validates
