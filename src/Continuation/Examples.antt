-- ===== src/Continuation/Examples.antt =====
-- A run of the continuation check on concrete data.
use lite2api.Common.{true, [], ◌∷◌}
use lite2api.Common.Int.{pos}
use lite2api.Config.Types.{Account}
use lite2api.Requirements.{RequestRequirements}
use lite2api.Runtime.State.{AccountRuntime, Scheduler}

abbrev account : Account
account = record {
  id = "a";
  name = "A";
  type = "openai";
  adapter_id = "";
  instance_id = "";
  base_url = "https://a.example";
  api_key = "k";
  api_key_env = "";
  auth_header = "";
  auth_scheme = "";
  headers = [];
  headers_env = [];
  models = [];
  model_map = [];
  capabilities = [];
  operations = [];
  priority = pos 0;
  weight = pos 1;
  concurrency = pos 2;
  enabled = true;
  proxy_url = "";
}

abbrev runtime : AccountRuntime
runtime = record { config = account; upstream_key = "k"; custom_headers = []; state = 0 }

abbrev scheduler : Scheduler
scheduler = record { accounts = ("a", runtime) ∷ []; routes = []; round_robin = [] }

abbrev continues : RequestRequirements
continues = record { features = []; reasoning_effort = ""; continuation = true }
