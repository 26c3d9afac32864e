-- ===== src/Config/Validate.antt =====
-- config.go `Validate`: all the checks, in order.
use Prim.Native.String.{len, [], ◌∷◌}
use Prim.Native.Char.{code}
use lite2api.Common.{
  [], ◌∷◌, ◌*◌, ℕ, String, Bool, true, false, not, ◌&&◌, ◌||◌, List, Option, none, some, ◌==◌, eqb,
  ltb, leb, length, any, contains, is_empty, first_error, map, suc, if◌then◌else◌,
}
use lite2api.Common.Int.{ℤ, pos, ltb_ℤ, eqb_ℤ}
use lite2api.Common.Assoc.{Assoc}
use lite2api.Common.Text.{trim_space, equal_fold}
use lite2api.Config.Types.{Account, ChannelCapability, Route, RouteTarget}
use lite2api.Config.Operations.{valid_operation}
use lite2api.Config.Resolve.{
  account_by_id, account_supports_target_model, valid_reasoning_effort, resolve_route_target,
  resolved_api_key,
}
use lite2api.Config.Evidence.{validate_capability_evidence}
use lite2api.Config.Server.{Config, Host, gateway_keys, key_check, server_checks}
use lite2api.ClientKeys.Validate.{is_none}
use lite2api.Stats.Records.{with_nul}
use lite2api.Config.Checks.{max_account_id_bytes, max_model_id_bytes, first_of, first_in, untrimmed}
use lite2api.Config.Accounts.{accounts_check}
use lite2api.Config.Routes.{route_check}
pub mod Sound

unfoldable pub validate_parts : Host → Config → List (Option String)
validate_parts host c =
    first_error (
      (not (eqb_ℤ c.version (pos 1)), "unsupported config version")
      ∷ (
        ltb 4096 (length (gateway_keys host c)),
        "server gateway API key set cannot contain more than 4096 keys",
      )
      ∷ [])
    ∷ first_in (key_check host c) (gateway_keys host c)
    ∷ first_error (server_checks host c)
    ∷ first_error (
        (ltb 4096 (length c.accounts), "accounts cannot contain more than 4096 entries")
        ∷ (ltb 4096 (length c.routes), "routes cannot contain more than 4096 entries")
        ∷ [])
    ∷ accounts_check host c.server.allow_private_http_upstream [] c.accounts
    ∷ first_in (route_check c.accounts) c.routes
    ∷ []

unfoldable pub validate : Host → Config → Option String
validate host c = first_of (validate_parts host c)
