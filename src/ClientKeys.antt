-- ===== src/ClientKeys.antt =====
-- internal/gateway/clientkeys.go: the keys that clients call with, their limits and their leases.
mod Examples
pub mod Validate
pub mod Access
pub mod Manage
use lite2api.Common.{ℕ, String, Bool, List, Option}
use lite2api.Common.Int.{ℤ}
use lite2api.Common.Assoc.{Assoc}

pub record ClientKeyRecord : Type 0 where
  pub id : String
  pub name : String
  pub prefix : String
  pub secret_hash : String
  pub enabled : Bool
  pub models : List String
  pub rpm : ℤ
  pub concurrency : ℤ
  pub expires_at : String
  pub created_at : String

-- clientKeyMeta; `models` stands for the set, `hash` for the 32 bytes
pub record KeyMeta : Type 0 where
  pub key : ClientKeyRecord
  pub hash : List ℕ
  pub models : List String
  pub expires_unix : ℤ

-- clientKeyRuntime
pub record KeyRuntime : Type 0 where
  pub meta : KeyMeta
  pub active : ℤ
  pub total : ℕ
  pub success : ℕ
  pub last_used : ℕ
  pub rate : ℕ

-- ClientKeyStore: leases keep pointers to runtimes, so `runtimes` holds them all and the snapshot
-- holds indices.
pub record KeyStore : Type 0 where
  pub runtimes : List KeyRuntime
  pub snapshot : Assoc ℕ

-- KeyLease
pub record KeyLease : Type 0 where
  pub id : String
  pub name : String
  pub models : List String
  pub runtime : Option ℕ
  pub done : Bool

pub data KeyAuthFailure : Type 0 where
  invalid rate_limited concurrency_limited : KeyAuthFailure

-- a time.Time, as far as the keys use it
pub record Moment : Type 0 where
  pub unix : ℤ
  pub is_zero : Bool

-- What the keys use of Go's library: SHA-256, the hex codec and time.Parse(time.RFC3339).
pub record Std : Type 0 where
  pub sha256 : String → List ℕ
  pub decode_hex : String → Option (List ℕ)
  pub encode_hex : List ℕ → String
  pub parse_time : String → Option Moment

abbrev pub managed_key_prefix : String
managed_key_prefix = "sk-l2a-"

-- 1 << rateCountBits, and the mask below it
abbrev pub rate_count_base : ℕ
rate_count_base = 1048576

abbrev pub rate_count_mask : ℕ
rate_count_mask = 1048575
