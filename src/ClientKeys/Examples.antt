-- ===== src/ClientKeys/Examples.antt =====
-- Runs of the client keys on concrete data.
use lite2api.Common.{
  ◌≡◌, ◌⊎◌, refl, String, true, false, [], ◌∷◌, none, some, inl, arith, set, replicate,
}
use lite2api.Common.Int.{pos, decr}
use lite2api.ClientKeys.{ClientKeyRecord, KeyMeta, KeyRuntime, KeyStore, KeyLease, Std}
use lite2api.Common.Text.{trim_space, has_prefix, trim_prefix, cut}
use lite2api.Common.Assoc.{lookup}
use lite2api.Runtime.Capacity
use lite2api.ClientKeys.Validate.{finish_meta, clean_models, is_none, build_client_key_meta}
use lite2api.ClientKeys.Validate.Bounds.{ValidKey, build_client_key_meta-ValidKey}
use lite2api.ClientKeys.Access.{
  enter, admits, equal_bytes, acquire_rpm, managed_key_id, authenticate, complete,
}
use lite2api.ClientKeys.Access.Rate.{admitted, acquire_rpm-exact}
use lite2api.ClientKeys.Access.Leases.{Entered, FromEnvironment, authenticate-lease, complete-once}
use lite2api.ClientKeys.Manage.{delete, ClientKeyUpdate, update, runtime_of}
use lite2api.ClientKeys.Manage.Atomic.{Deleted, delete-Deleted, Updated, update-Updated}

-- a stand-in for the library: every text has the same digest and every time is 5
abbrev std : Std
std = record {
  sha256 = λ s. replicate 32 7;
  decode_hex = λ s. some (replicate 32 7);
  encode_hex = λ bytes. "07";
  parse_time = λ s. some (record { unix = pos 5; is_zero = false });
}

abbrev key : ClientKeyRecord
key = record {
  id = "0123456789abcdef";
  name = "k";
  prefix = "sk-l2a-0123456789abcdef...";
  secret_hash = "07";
  enabled = true;
  models = [];
  rpm = pos 10;
  concurrency = pos 2;
  expires_at = "";
  created_at = "t";
}

abbrev meta : KeyMeta
meta = record { key = key; hash = replicate 32 7; models = []; expires_unix = pos 0 }

build-run : build_client_key_meta std key ≡ inl meta
unfolding build_client_key_meta finish_meta clean_models is_none trim_space
build-run = refl

build_client_key_meta-ValidKey_example : ValidKey meta
build_client_key_meta-ValidKey_example = build_client_key_meta-ValidKey std key meta build-run

acquire_rpm-exact_example : admitted 5 3 120 0 ≡ 3
acquire_rpm-exact_example =
    acquire_rpm-exact 5 3 120 0 (omega arith) (omega arith) (omega arith) (omega arith)

abbrev runtime : KeyRuntime
runtime = record { meta = meta; active = pos 1; total = 4; success = 2; last_used = 9; rate = 0 }

abbrev store : KeyStore
store = record { runtimes = runtime ∷ []; snapshot = ("0123456789abcdef", 0) ∷ [] }

abbrev raw : String
raw = "sk-l2a-0123456789abcdef.0123456789abcdef0123456789abcdef"

abbrev lease : KeyLease
lease = record { id = "0123456789abcdef"; name = "k"; models = []; runtime = some 0; done = false }

authenticate-run : (authenticate std store raw [] 120).1 ≡ inl lease
unfolding authenticate enter admits equal_bytes acquire_rpm managed_key_id has_prefix trim_prefix
    cut lookup Capacity.acquire
authenticate-run = refl

authenticate-lease_example :
    Entered std store raw 120 (authenticate std store raw [] 120).0 lease
    ⊎ FromEnvironment std store raw [] (authenticate std store raw [] 120).0 lease
authenticate-lease_example = authenticate-lease std store raw [] 120 lease authenticate-run

complete-once_example :
    let first = complete true lease store in
    let second = complete false first.1 first.0 in
    (second.0 ≡ first.0)
    × (first.0 ≡ record store {
      runtimes = set store.runtimes 0 (record runtime { success = 3; active = decr (pos 1) });
    })
complete-once_example = complete-once true false lease store 0 runtime refl refl refl

abbrev rename : ClientKeyUpdate
rename = record {
  name = some "other";
  models = none;
  rpm = none;
  concurrency = none;
  expires_at = none;
  enabled = some false;
}

update-Updated_example :
    Updated
      (λ records. true)
      store
      (runtime_of store "0123456789abcdef")
      (update std (λ records. true) store "0123456789abcdef" rename)
update-Updated_example = update-Updated std (λ records. true) store "0123456789abcdef" rename

delete-Deleted_example :
    Deleted
      (λ records. true)
      store
      "0123456789abcdef"
      (delete std (λ records. true) store "0123456789abcdef")
delete-Deleted_example = delete-Deleted std (λ records. true) store "0123456789abcdef"
