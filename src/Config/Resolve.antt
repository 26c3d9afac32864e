-- ===== src/Config/Resolve.antt =====
-- internal/config/config.go: the lookups that routing makes in an account, and the comparison of
-- secrets.
use Prim.Native.String.{len}
use lite2api.Common.{
  String, Bool, true, false, not, ◌&&◌, ◌||◌, List, [], ◌∷◌, Option, none, some, any, is_empty,
  ◌==◌, contains, eqb, if◌then◌else◌,
}
use lite2api.Common.Text.{trim_space, to_lower}
use lite2api.Common.Assoc.{Assoc, insert}
use lite2api.Config.Types.{Account, ChannelCapability, Route, RouteTarget}

-- the account and the `bool` are one option
unfoldable pub account_by_id : List Account → String → Option Account
account_by_id [] id = none
account_by_id (a ∷ rest) id = if a.id == id then some a else account_by_id rest id

unfoldable pub account_supports_target_model : Account → String → Bool
account_supports_target_model account model =
    is_empty account.models
    || any (λ c. c == "*" || c == model) account.models
    || any (λ e. e.1 == model) account.model_map

unfoldable pub valid_reasoning_effort : String → Bool
unfolding trim_space to_lower
valid_reasoning_effort effort =
    contains
      ("" ∷ "auto" ∷ "none" ∷ "minimal" ∷ "low" ∷ "medium" ∷ "high" ∷ "max" ∷ "xhigh" ∷ "ultra"
        ∷ [])
      (to_lower (trim_space effort))

-- the three results of ResolveRouteTarget
pub record Resolved : Type 0 where
  pub model : String
  pub effort : String
  pub ok : Bool

-- whether the loop goes past a capability without `continue`
unfoldable pub serves : String → String → ChannelCapability → Bool
serves logical effort capability = not (
    capability.evidence.status == "unsupported"
    || not (capability.model == logical)
    || not (contains capability.reasoning_efforts effort))

unfoldable pub resolve_in : List ChannelCapability → String → String → Resolved
unfolding serves
resolve_in [] logical effort = record { model = ""; effort = effort; ok = false }
resolve_in (c ∷ cs) logical effort =
    let rest = resolve_in cs logical effort in
    if serves logical effort c
    then record { model = c.upstream_model; effort = effort; ok = true }
    else rest

-- `strings.ToLower(strings.TrimSpace(route.ReasoningEffort))`, with "auto" for the empty text
unfoldable pub route_effort : String → String
unfolding trim_space to_lower
route_effort configured =
    let effort = to_lower (trim_space configured) in if effort == "" then "auto" else effort

unfoldable pub resolve_route_target : Account → Route → RouteTarget → Resolved
unfolding resolve_in route_effort trim_space
resolve_route_target account route target =
    let model = trim_space target.model in
    if trim_space route.model == ""
    then record { model = model; effort = target.reasoning_effort; ok = not (model == "") }
    else resolve_in account.capabilities (trim_space route.model)
        (route_effort route.reasoning_effort)

-- os.Getenv, which the host gives
module _ (getenv : String → String) where
  unfoldable pub resolved_api_key : Account → String
  unfolding trim_space
  resolved_api_key a =
      let key = trim_space (getenv a.api_key_env) in
      if not (a.api_key_env == "") && not (key == "") then key else a.api_key

  resolved_env_headers : Assoc String → Assoc String → Assoc String
  unfolding trim_space insert
  resolved_env_headers result [] = result
  resolved_env_headers result ((name, env_name) ∷ rest) =
      resolved_env_headers (insert name (trim_space (getenv env_name)) result) rest

  -- the first loop copies `Headers`
  unfoldable pub resolved_headers : Account → Assoc String
  unfolding resolved_env_headers
  resolved_headers a = resolved_env_headers a.headers a.headers_env

-- subtle.ConstantTimeCompare is 1 exactly at equal contents; `result` is the bitwise or.
unfoldable pub secure_equal : String → List String → Bool
secure_equal candidate [] = false
secure_equal candidate (key ∷ allowed) =
    (eqb (len candidate) (len key) && candidate == key) || secure_equal candidate allowed
