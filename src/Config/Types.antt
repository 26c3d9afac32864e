-- ===== src/Config/Types.antt =====
-- internal/config/config.go and capability_evidence.go: the records of the configuration. A Go map
-- is an association list, and a nil map an empty one.
use lite2api.Common.{String, Bool, List}
use lite2api.Common.Int.{ℤ}
use lite2api.Common.Assoc.{Assoc}

pub record CapabilityEvidence : Type 0 where
  pub status : String
  pub source : String
  pub observed_at : String
  pub source_identity : String
  pub upstream_model : String
  pub credential_id : String
  pub reasoning_effort : String
  pub last_check_outcome : String
  pub last_checked_at : String
  pub last_check_message : String

-- the zero value, which a missing map key reads as
abbrev pub no_evidence : CapabilityEvidence
no_evidence = record {
  status = "";
  source = "";
  observed_at = "";
  source_identity = "";
  upstream_model = "";
  credential_id = "";
  reasoning_effort = "";
  last_check_outcome = "";
  last_checked_at = "";
  last_check_message = "";
}

pub record ChannelCapability : Type 0 where
  pub model : String
  pub upstream_model : String
  pub reasoning_efforts : List String
  pub evidence : CapabilityEvidence
  pub features : Assoc CapabilityEvidence

pub record Account : Type 0 where
  pub id : String
  pub name : String
  pub type : String
  pub adapter_id : String
  pub instance_id : String
  pub base_url : String
  pub api_key : String
  pub api_key_env : String
  pub auth_header : String
  pub auth_scheme : String
  pub headers : Assoc String
  pub headers_env : Assoc String
  pub models : List String
  pub model_map : Assoc String
  pub capabilities : List ChannelCapability
  pub operations : List String
  pub priority : ℤ
  pub weight : ℤ
  pub concurrency : ℤ
  pub enabled : Bool
  pub proxy_url : String

pub record RouteTarget : Type 0 where
  pub account : String
  pub credential : String
  pub model : String
  pub reasoning_effort : String

pub record Route : Type 0 where
  pub all_accounts : Bool
  pub accounts : List String
  pub upstream_model : String
  pub strategy : String
  pub targets : List RouteTarget
  pub model : String
  pub reasoning_effort : String
