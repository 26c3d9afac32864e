-- ===== src/Config/Routes.antt =====
-- config.go `Validate`: the routes.
use Prim.Native.String.{len, [], ◌∷◌}
use Prim.Native.Char.{code}
use lite2api.Common.{
  [], ◌∷◌, ◌*◌, ℕ, String, Bool, true, false, not, ◌&&◌, ◌||◌, List, Option, none, some, ◌==◌, eqb,
  ltb, leb, length, any, contains, is_empty, first_error, map, suc, if◌then◌else◌,
}
use lite2api.Common.Int.{ℤ, pos, ltb_ℤ, eqb_ℤ}
use lite2api.Common.Assoc.{Assoc}
use lite2api.Common.Text.{trim_space, equal_fold}
use lite2api.Config.Types.{Account, ChannelCapability, Route, RouteTarget}
use lite2api.Config.Operations.{valid_operation}
use lite2api.Config.Resolve.{
  account_by_id, account_supports_target_model, valid_reasoning_effort, resolve_route_target,
  resolved_api_key,
}
use lite2api.Config.Evidence.{validate_capability_evidence}
use lite2api.Config.Server.{Config, Host, gateway_keys, key_check, server_checks}
use lite2api.ClientKeys.Validate.{is_none}
use lite2api.Stats.Records.{with_nul}
use lite2api.Config.Checks.{max_account_id_bytes, max_model_id_bytes, first_of, first_in, untrimmed}
pub mod Sound

-- what a target means, given the logical model of its route
unfoldable pub target_identity : Route → RouteTarget → String
target_identity route target =
    let logical = not (route.model == "") in
    with_nul (trim_space target.account) (
      with_nul (trim_space target.credential) (
        with_nul (if logical then route.model else target.model)
          (if logical then route.reasoning_effort else target.reasoning_effort)))

-- the tests of a target whose account is known
unfoldable pub target_checks : Route → List String → RouteTarget → Account → List (Bool × String)
target_checks route seen target account =
    let credential = trim_space target.credential in
    let model = trim_space target.model in
    (
      not (credential == "") && not (equal_fold (trim_space account.adapter_id) "cli-proxy-api"),
      "credential pinning requires a cli-proxy-api account",
    )
    ∷ (contains seen (target_identity route target), "target duplicates an earlier target")
    ∷ (
      not (route.model == "") && not (resolve_route_target account route target).ok,
      "channel does not support the model at the reasoning effort",
    )
    ∷ (route.model == "" && model == "", "target requires a model")
    ∷ (
      route.model == "" && not (account_supports_target_model account model),
      "account does not advertise model",
    )
    ∷ (
      route.model == "" && not (valid_reasoning_effort target.reasoning_effort),
      "target has unsupported reasoning_effort",
    )
    ∷ []

-- the tests of a target before its account is looked up
unfoldable pub target_form_checks : RouteTarget → List (Bool × String)
target_form_checks target =
    let account_id = trim_space target.account in
    (account_id == "", "target requires an account")
    ∷ (
      untrimmed target.account
          || untrimmed target.credential
          || untrimmed target.model
          || ltb max_account_id_bytes (len account_id)
          || ltb max_account_id_bytes (len (trim_space target.credential))
          || ltb max_model_id_bytes (len target.model),
      "target contains an untrimmed or oversized account, credential, or model",
    )
    ∷ []

-- the account that is found, and its tests
unfoldable pub target_account_check :
    Route → List String → RouteTarget → Option Account → Option String
target_account_check route seen target none = some "target references unknown account"
target_account_check route seen target (some account) =
    first_error (target_checks route seen target account)

unfoldable pub target_check : List Account → Route → List String → RouteTarget → Option String
target_check accounts route seen target =
    let later =
      target_account_check route seen target (account_by_id accounts (trim_space target.account)) in
    elim (first_error (target_form_checks target)) [ none ↦ later | some e ↦ some e ]

unfoldable pub targets_check : List Account → Route → List String → List RouteTarget → Option String
targets_check accounts route seen [] = none
targets_check accounts route seen (target ∷ rest) =
    let later = targets_check accounts route (target_identity route target ∷ seen) rest in
    elim (target_check accounts route seen target) [ none ↦ later | some e ↦ some e ]

-- one entry of the accounts of a route
unfoldable pub route_account_check : List Account → String → Option String
route_account_check accounts id = first_error (
    (ltb max_account_id_bytes (len id) || untrimmed id, "route contains an oversized account id")
    ∷ (not (contains (map (λ (a : Account). a.id) accounts) id), "route references unknown account")
    ∷ [])

unfoldable pub enabled_ids : List Account → List String
enabled_ids [] = []
enabled_ids (a ∷ rest) = let ids = enabled_ids rest in if a.enabled then a.id ∷ ids else ids

-- an id that is not there reads as an account without models, which supports every model
unfoldable pub advertises : List Account → String → String → Bool
advertises accounts model id = elim (account_by_id accounts id) [
  | none ↦ true
  | some account ↦ account_supports_target_model account model
]

unfoldable pub upstream_check : List Account → Route → Option String
upstream_check accounts route =
    let ids = if route.all_accounts then enabled_ids accounts else route.accounts in
    if route.upstream_model == ""
    then none
    else first_error (
        (
          any (λ id. not (advertises accounts route.upstream_model id)) ids,
          "account does not advertise upstream_model",
        )
        ∷ [])

unfoldable pub strategy_ok : String → Bool
strategy_ok s = contains ("" ∷ "least_loaded" ∷ "round_robin" ∷ "priority" ∷ "sticky" ∷ []) s

-- the tests of a route before its accounts
unfoldable pub route_form_checks : String → Route → List (Bool × String)
route_form_checks model route =
    (trim_space model == "", "route model cannot be empty")
    ∷ (
      untrimmed model || ltb max_model_id_bytes (len model),
      "route model must be trimmed and at most 256 bytes",
    )
    ∷ (
      ltb max_model_id_bytes (len route.model)
          || ltb max_model_id_bytes (len route.upstream_model)
          || untrimmed route.model
          || untrimmed route.upstream_model,
      "route contains a model identifier longer than 256 bytes",
    )
    ∷ (not (strategy_ok route.strategy), "route has unsupported strategy")
    ∷ (
      route.all_accounts && (not (is_empty route.accounts) || not (is_empty route.targets)),
      "route cannot combine all_accounts with accounts or targets",
    )
    ∷ (
      not (is_empty route.accounts) && not (is_empty route.targets),
      "route cannot combine legacy accounts with targets",
    )
    ∷ (
      not (is_empty route.targets) && (not (route.upstream_model == "") || route.all_accounts),
      "route cannot combine targets with legacy upstream_model or all_accounts",
    )
    ∷ (
      is_empty route.targets && (not (route.model == "") || not (route.reasoning_effort == "")),
      "route requires targets when model or reasoning_effort is set",
    )
    ∷ (
      route.model == "" && not (route.reasoning_effort == ""),
      "route cannot set reasoning_effort without a logical model",
    )
    ∷ (
      not route.all_accounts && is_empty route.accounts && is_empty route.targets,
      "route has no targets; set all_accounts explicitly for wildcard routing",
    )
    ∷ []

-- the tests of a route before its targets
unfoldable pub route_size_checks : Route → List (Bool × String)
route_size_checks route =
    (
      ltb 64 (length route.accounts) || ltb 64 (length route.targets),
      "route has too many targets (maximum 64)",
    )
    ∷ (
      not (route.model == "") && not (valid_reasoning_effort route.reasoning_effort),
      "route has unsupported reasoning_effort",
    )
    ∷ []

-- the parts of a route's check, in order
unfoldable pub route_parts : List Account → String → Route → List (Option String)
route_parts accounts model route =
    first_error (route_form_checks model route)
    ∷ first_in (route_account_check accounts) route.accounts
    ∷ upstream_check accounts route
    ∷ first_error (route_size_checks route)
    ∷ targets_check accounts route [] route.targets
    ∷ []

-- the body of the loop over the routes
unfoldable pub route_check : List Account → String × Route → Option String
route_check accounts (model, route) = first_of (route_parts accounts model route)
