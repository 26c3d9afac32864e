-- ===== src/Config/Server.antt =====
-- internal/config/config.go: the server's settings, the keys that they resolve to, and the first
-- part of `Validate`.
use Prim.Native.String.{len, [], ◌∷◌}
use Prim.Native.Char.{code}
use lite2api.Common.{
  [], ◌∷◌, ◌*◌, ◌*◌, ℕ, String, Bool, true, false, not, ◌&&◌, ◌||◌, List, ◌++◌, Option, ◌==◌, eqb,
  ltb, any, first_error, if◌then◌else◌,
}
use lite2api.Common.Int.{ℤ, pos, ltb_ℤ}
use lite2api.Common.Assoc.{Assoc}
use lite2api.Common.Text.{trim_space, has_prefix, empty_text}
use lite2api.Config.Types.{Account, Route}

-- Durations are nanoseconds.
pub record ServerConfig : Type 0 where
  pub listen : String
  pub api_keys : List String
  pub api_key_env : String
  pub admin_token : String
  pub admin_auto_login : Bool
  pub admin_token_env : String
  pub client_keys_path : String
  pub admin_allowed_cidrs : List String
  pub trusted_proxy_cidrs : List String
  pub admin_session_ttl : ℤ
  pub max_body_bytes : ℤ
  pub max_in_flight_requests : ℤ
  pub request_read_timeout : ℤ
  pub queue_timeout : ℤ
  pub response_header_timeout : ℤ
  pub stream_idle_timeout : ℤ
  pub idle_conn_timeout : ℤ
  pub max_idle_conns : ℤ
  pub max_idle_conns_per_host : ℤ
  pub max_conns_per_host : ℤ
  pub failure_threshold : ℤ
  pub circuit_cooldown : ℤ
  pub max_failover_attempts : ℤ
  pub allow_private_http_upstream : Bool
  pub request_log_path : String
  pub request_log_max_bytes : ℤ
  pub request_log_backups : ℤ

pub record Config : Type 0 where
  pub version : ℤ
  pub server : ServerConfig
  pub accounts : List Account
  pub routes : Assoc Route

-- What the host and the packages net, net/url and path/filepath give.
pub record Host : Type 0 where
  pub getenv : String → String
  -- net.SplitHostPort and net.ParseCIDR give no error
  pub host_port : String → Bool
  pub cidr : String → Bool
  -- an absolute path that is cleaned to the root
  pub root_path : String → Bool
  -- validateURL, for the flag that allows private hosts, gives no error
  pub base_url : String → Bool → Bool
  -- a proxy address that parses, with one of the three schemes
  pub proxy_url : String → Bool
  pub rfc3339 : String → Bool

-- a number of nanoseconds, from seconds
abbrev pub seconds : ℕ → ℤ
seconds n = pos (n * 1_000_000_000)

-- slices.Compact: of equal neighbours, the first
unfoldable pub compact : List String → List String
compact [] = []
compact (x ∷ xs) = keep_new x (compact xs)
  where
    keep_new : String → List String → List String
    keep_new x [] = x ∷ []
    keep_new x (y ∷ ys) = if x == y then y ∷ ys else x ∷ y ∷ ys

-- strings.Split at commas
unfoldable pub split_commas : String → List String
split_commas [] = empty_text ∷ []
split_commas (c ∷ s) = at_comma (eqb (code c) b',') (split_commas s)
  where
    at_comma : Bool → List String → List String
    at_comma true parts = empty_text ∷ parts
    at_comma false [] = []
    at_comma false (part ∷ parts) = (c ∷ part) ∷ parts

-- the parts that are not empty once they are trimmed
unfoldable pub trimmed_parts : List String → List String
trimmed_parts [] = []
trimmed_parts (part ∷ parts) =
    let key = trim_space part in
    let rest = trimmed_parts parts in if key == "" then rest else key ∷ rest

module _ (host : Host) where
  unfoldable pub gateway_keys : Config → List String
  gateway_keys c =
      let env = trim_space (host.getenv c.server.api_key_env) in
      compact (
        if env == ""
        then c.server.api_keys
        else c.server.api_keys ++ trimmed_parts (split_commas env))

  unfoldable pub resolved_admin_token : Config → String
  resolved_admin_token c =
      let token = trim_space (host.getenv c.server.admin_token_env) in
      if not (c.server.admin_token_env == "") && not (token == "")
      then token
      else c.server.admin_token

  unfoldable pub key_check : Config → String → Option String
  key_check c key =
      let admin_token = resolved_admin_token c in
      first_error (
        (ltb 512 (len key), "server gateway API keys cannot exceed 512 bytes")
        ∷ (
          has_prefix key "sk-l2a-",
          "server gateway API keys cannot use the reserved managed-key prefix sk-l2a-",
        )
        ∷ (
          not (admin_token == "") && key == admin_token,
          "admin token and client gateway API keys must be different",
        )
        ∷ [])

  unfoldable pub server_checks : Config → List (Bool × String)
  server_checks c =
      let s = c.server in
      let outside : ℕ → ℕ → ℤ → Bool =
        λ low high value. ltb_ℤ value (seconds low) || ltb_ℤ (seconds high) value in
      (ltb 65536 (len (resolved_admin_token c)), "server admin token cannot exceed 64KiB")
      ∷ (not (host.host_port s.listen), "server.listen")
      ∷ (
        outside 300 86400 s.admin_session_ttl,
        "server.admin_session_ttl must be between 5m and 24h",
      )
      ∷ (ltb_ℤ (pos 268_435_456) s.max_body_bytes, "server.max_body_bytes cannot exceed 256MiB")
      ∷ (
        ltb_ℤ (pos 65536) s.max_in_flight_requests,
        "server.max_inflight_requests cannot exceed 65536",
      )
      ∷ (
        outside 0 1800 s.request_read_timeout,
        "server.request_read_timeout must be between 0 and 30m",
      )
      ∷ (outside 0 1800 s.queue_timeout, "server.queue_timeout must be between 0 and 30m")
      ∷ (
        outside 0 1800 s.response_header_timeout,
        "server.response_header_timeout must be between 0 and 30m",
      )
      ∷ (outside 0 1800 s.idle_conn_timeout, "server.idle_conn_timeout must be between 0 and 30m")
      ∷ (
        outside 0 86400 s.stream_idle_timeout,
        "server.stream_idle_timeout must be between 0 and 24h",
      )
      ∷ (ltb_ℤ (pos 65536) s.max_idle_conns, "server.max_idle_conns cannot exceed 65536")
      ∷ (
        ltb_ℤ (pos 65536) s.max_idle_conns_per_host,
        "server.max_idle_conns_per_host cannot exceed 65536",
      )
      ∷ (ltb_ℤ (pos 65536) s.max_conns_per_host, "server.max_conns_per_host cannot exceed 65536")
      ∷ (ltb_ℤ (pos 100) s.failure_threshold, "server.failure_threshold cannot exceed 100")
      ∷ (ltb_ℤ (seconds 86400) s.circuit_cooldown, "server.circuit_cooldown cannot exceed 24h")
      ∷ (ltb_ℤ (pos 64) s.max_failover_attempts, "server.max_failover_attempts cannot exceed 64")
      ∷ (
        ltb_ℤ s.request_log_max_bytes (pos 65536)
            || ltb_ℤ (pos 268_435_456) s.request_log_max_bytes,
        "server.request_log_max_bytes must be between 64KiB and 256MiB",
      )
      ∷ (
        ltb_ℤ s.request_log_backups (pos 0) || ltb_ℤ (pos 8) s.request_log_backups,
        "server.request_log_backups must be between 0 and 8",
      )
      ∷ (host.root_path s.client_keys_path, "server.client_keys_path cannot be the filesystem root")
      ∷ (host.root_path s.request_log_path, "server.request_log_path cannot be the filesystem root")
      ∷ (
        any (λ v. not (host.cidr v)) s.admin_allowed_cidrs,
        "server.admin_allowed_cidrs contains invalid CIDR",
      )
      ∷ (
        any (λ v. not (host.cidr v)) s.trusted_proxy_cidrs,
        "server.trusted_proxy_cidrs contains invalid CIDR",
      )
      ∷ []
