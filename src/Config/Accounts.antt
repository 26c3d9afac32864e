-- ===== src/Config/Accounts.antt =====
-- config.go `Validate`: the accounts.
use Prim.Native.String.{len, [], ◌∷◌}
use Prim.Native.Char.{code}
use lite2api.Common.{
  [], ◌∷◌, ◌*◌, ℕ, String, Bool, true, false, not, ◌&&◌, ◌||◌, List, Option, none, some, ◌==◌, eqb,
  ltb, leb, length, any, contains, is_empty, first_error, map, suc, if◌then◌else◌,
}
use lite2api.Common.Int.{ℤ, pos, ltb_ℤ, eqb_ℤ}
use lite2api.Common.Assoc.{Assoc}
use lite2api.Common.Text.{trim_space, equal_fold}
use lite2api.Config.Types.{Account, ChannelCapability, Route, RouteTarget}
use lite2api.Config.Operations.{valid_operation}
use lite2api.Config.Resolve.{
  account_by_id, account_supports_target_model, valid_reasoning_effort, resolve_route_target,
  resolved_api_key,
}
use lite2api.Config.Evidence.{validate_capability_evidence}
use lite2api.Config.Server.{Config, Host, gateway_keys, key_check, server_checks}
use lite2api.ClientKeys.Validate.{is_none}
use lite2api.Stats.Records.{with_nul}
use lite2api.Config.Checks.{max_account_id_bytes, max_model_id_bytes, first_of, first_in, untrimmed}
pub mod Sound

-- strings.ContainsRune on the marks that a header name may have
header_mark : String → ℕ → Bool
header_mark [] n = false
header_mark (c ∷ s) n = eqb (code c) n || header_mark s n

unfoldable pub header_char : ℕ → Bool
unfolding header_mark
header_char n =
    leb b'a' n && leb n b'z'
    || leb b'A' n && leb n b'Z'
    || leb b'0' n && leb n b'9'
    || header_mark "!#$%&'*+-.^_`|~" n

unfoldable pub header_chars : String → Bool
header_chars [] = true
header_chars (c ∷ s) = header_char (code c) && header_chars s

unfoldable pub valid_header_name : String → Bool
valid_header_name name = not (name == "") && header_chars name

module _ (host : Host) where
  unfoldable pub header_check : String × String → Option String
  header_check (name, value) = first_error (
      (not (valid_header_name name), "invalid header name")
      ∷ (ltb 256 (len name) || ltb 16384 (len value), "oversized header")
      ∷ [])

  unfoldable pub env_header_check : String × String → Option String
  env_header_check (name, env_name) = first_error (
      (not (valid_header_name name), "invalid environment header name")
      ∷ (ltb 256 (len name) || ltb 256 (len env_name), "oversized environment header")
      ∷ (ltb 16384 (len (trim_space (host.getenv env_name))), "resolved header cannot exceed 16KiB")
      ∷ [])

  unfoldable pub capability_check : Account → ChannelCapability → Option String
  capability_check a capability = first_error (
      (not (is_none (validate_capability_evidence host.rfc3339 capability)), "capability evidence")
      ∷ (
        trim_space capability.model == "" || trim_space capability.upstream_model == "",
        "capability requires model and upstream_model",
      )
      ∷ (
        ltb max_model_id_bytes (len capability.model)
            || ltb max_model_id_bytes (len capability.upstream_model),
        "capability model identifiers cannot exceed 256 bytes",
      )
      ∷ (
        not (account_supports_target_model a capability.upstream_model),
        "capability references unadvertised upstream model",
      )
      ∷ (is_empty capability.reasoning_efforts, "capability requires at least one reasoning effort")
      ∷ (ltb 16 (length capability.reasoning_efforts), "capability has too many reasoning efforts")
      ∷ (
        any (λ effort. not (valid_reasoning_effort effort)) capability.reasoning_efforts,
        "capability has unsupported reasoning effort",
      )
      ∷ [])

  -- the tests of an account before its headers
  unfoldable pub account_checks : List String → Account → List (Bool × String)
  account_checks seen a =
      (a.id == "", "account id is required")
      ∷ (
        untrimmed a.id || ltb max_account_id_bytes (len a.id),
        "account id must be trimmed and at most 128 bytes",
      )
      ∷ (
        ltb 256 (len a.name)
            || ltb max_account_id_bytes (len a.adapter_id)
            || ltb max_account_id_bytes (len a.instance_id),
        "oversized name or adapter identity",
      )
      ∷ (
        ltb 4096 (len a.base_url)
            || ltb 4096 (len a.proxy_url)
            || ltb 65536 (len a.api_key)
            || ltb 256 (len a.api_key_env),
        "oversized URL or credential field",
      )
      ∷ (ltb 65536 (len (resolved_api_key host.getenv a)), "resolved API key cannot exceed 64KiB")
      ∷ (contains seen a.id, "duplicate account id")
      ∷ (ltb_ℤ a.concurrency (pos 0), "concurrency cannot be negative")
      ∷ (not (a.type == "openai") && not (a.type == "anthropic"), "unsupported type")
      ∷ (any (λ operation. not (valid_operation operation)) a.operations, "unsupported operation")
      ∷ (ltb 16 (length a.operations), "too many operations")
      ∷ (
        ltb 256 (len a.auth_header)
            || not (a.auth_header == "")
              && not (valid_header_name a.auth_header)
              && not (a.auth_header == "none"),
        "invalid auth_header",
      )
      ∷ (
        ltb 64 (length a.headers) || ltb 64 (length a.headers_env),
        "cannot define more than 64 custom headers",
      )
      ∷ []

  -- the parts of an account's check, in order
  unfoldable pub account_parts : Bool → List String → Account → List (Option String)
  account_parts allow_private seen a =
      first_error (account_checks seen a)
      ∷ first_in header_check a.headers
      ∷ first_in env_header_check a.headers_env
      ∷ first_error (
          (not (host.base_url a.base_url allow_private), "base_url")
          ∷ (not (a.proxy_url == "") && not (host.proxy_url a.proxy_url), "invalid proxy_url")
          ∷ (
            ltb 4096 (length a.models) || ltb 4096 (length a.model_map),
            "cannot advertise more than 4096 models",
          )
          ∷ (
            any
                (λ model.
                  trim_space model == "" || untrimmed model || ltb max_model_id_bytes (len model))
                a.models,
            "model must be non-empty and at most 256 bytes",
          )
          ∷ (
            any
                (λ (e : String × String).
                  trim_space e.0 == ""
                  || trim_space e.1 == ""
                  || untrimmed e.0
                  || untrimmed e.1
                  || ltb max_model_id_bytes (len e.0)
                  || ltb max_model_id_bytes (len e.1))
                a.model_map,
            "invalid or oversized model mapping",
          )
          ∷ (ltb 8192 (length a.capabilities), "cannot define more than 8192 capabilities")
          ∷ [])
      ∷ first_in (capability_check a) a.capabilities
      ∷ []

  -- the body of the loop over the accounts, with the ids seen so far
  unfoldable pub account_check : Bool → List String → Account → Option String
  account_check allow_private seen a = first_of (account_parts allow_private seen a)

  unfoldable pub accounts_check : Bool → List String → List Account → Option String
  accounts_check allow_private seen [] = none
  accounts_check allow_private seen (a ∷ rest) =
      let later = accounts_check allow_private (a.id ∷ seen) rest in
      elim (account_check allow_private seen a) [ none ↦ later | some e ↦ some e ]
