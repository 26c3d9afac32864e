-- ===== src/Requirements/Examples.antt =====
-- Runs of the requirements' checks on concrete data.
use lite2api.Common.{◌≡◌, ◌≢◌, ◌↔◌, refl, true, false, [], ◌∷◌, All}
use lite2api.Common.Int.{pos}
use lite2api.Common.Text.{trim_space}
use lite2api.Config.Types.{Account, Route, RouteTarget, ChannelCapability, no_evidence}
use lite2api.Config.Resolve.{resolve_route_target}
use lite2api.Requirements.{
  RequestRequirements, requirements_compatible, resolve_requested_reasoning, resolve_with,
}
use lite2api.Requirements.Compatible.{Permits, requirements_compatible_iff}
use lite2api.Requirements.Reasoning.{Chosen, Offers, resolve_requested_reasoning_sound}

abbrev capability : ChannelCapability
capability = record {
  model = "m";
  upstream_model = "u";
  reasoning_efforts = "high" ∷ [];
  evidence = no_evidence;
  features = [];
}

abbrev account : Account
account = record {
  id = "a";
  name = "A";
  type = "openai";
  adapter_id = "";
  instance_id = "";
  base_url = "https://a.example";
  api_key = "k";
  api_key_env = "";
  auth_header = "";
  auth_scheme = "";
  headers = [];
  headers_env = [];
  models = [];
  model_map = [];
  capabilities = capability ∷ [];
  operations = [];
  priority = pos 0;
  weight = pos 1;
  concurrency = pos 2;
  enabled = true;
  proxy_url = "";
}

abbrev route : Route
route = record {
  all_accounts = false;
  accounts = [];
  upstream_model = "";
  strategy = "";
  targets = [];
  model = "m";
  reasoning_effort = "";
}

abbrev target : RouteTarget
target = record { account = "a"; credential = ""; model = "m"; reasoning_effort = "" }

abbrev asks_high : RequestRequirements
asks_high = record { features = "stream" ∷ []; reasoning_effort = "high"; continuation = false }

requirements_compatible_iff_example :
    (requirements_compatible account "u" "openai.chat" asks_high "" "high" ≡ true)
    ↔ All (Permits "u" "openai.chat" "high" "" ("call" ∷ "stream" ∷ [])) (capability ∷ [])
requirements_compatible_iff_example =
    requirements_compatible_iff account "u" "openai.chat" asks_high "" "high"

named : trim_space "m" ≢ ""
unfolding trim_space
named e = cc

resolves : (resolve_requested_reasoning account route target asks_high).ok ≡ true
unfolding resolve_requested_reasoning resolve_with resolve_route_target
resolves = refl

resolve_requested_reasoning_sound_example :
    let r = resolve_requested_reasoning account route target asks_high in
    ((c : ChannelCapability) × Offers account (trim_space "m") r c)
    × Chosen route.reasoning_effort asks_high.reasoning_effort r.effort
resolve_requested_reasoning_sound_example =
    resolve_requested_reasoning_sound account route target asks_high named resolves
