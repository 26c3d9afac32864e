-- ===== src/ClientKeys/Access.antt =====
-- clientkeys.go: a call is let in, counted against the key's limits, and completed.
pub mod Rate
pub mod Leases
use Prim.Native.Char.{code}
use Prim.Native.String.{len}
use Prim.Native.String
use lite2api.Common.{
  ◌⊎◌, ℕ, zero, suc, ◌+◌, ◌*◌, ◌/◌, ◌%◌, ◌^◌, String, Bool, true, false, not, ◌&&◌, ◌||◌, List, [],
  ◌∷◌, Option, none, some, any, is_empty, contains, get_elem?, set, ◌==◌, leb, ltb, eqb,
  if◌then◌else◌, inl, inr,
}
use lite2api.Common.Int.{ℤ, pos, incr, decr, leb_ℤ, pos_part}
use lite2api.Common.Text.{has_prefix, trim_prefix, cut}
use lite2api.Common.Assoc.{lookup}
use lite2api.Runtime.Capacity
use lite2api.ClientKeys.{
  ClientKeyRecord, KeyMeta, KeyRuntime, KeyStore, KeyLease, KeyAuthFailure, invalid, rate_limited,
  concurrency_limited, Std, managed_key_prefix, rate_count_base, rate_count_mask,
}

-- isLowerHex on every byte of a text
pub all_lower_hex : String → Bool
all_lower_hex String.[] = true
all_lower_hex (String.◌∷◌ c s) =
    ((leb b'0' (code c) && leb (code c) b'9') || (leb b'a' (code c) && leb (code c) b'f'))
    && all_lower_hex s

-- `dot` is the length of what is before the first dot
unfoldable pub managed_key_id : String → Option String
unfolding all_lower_hex
managed_key_id raw =
    let rest = trim_prefix raw managed_key_prefix in
    let parts = cut rest b'.' in
    if has_prefix raw managed_key_prefix
      && parts.2
      && eqb (len parts.0) 16
      && leb 48 (len rest)
      && all_lower_hex parts.0
    then some parts.0
    else none

-- subtle.ConstantTimeCompare is 1 exactly at equal contents
unfoldable pub equal_bytes : List ℕ → List ℕ → Bool
equal_bytes [] [] = true
equal_bytes [] (y ∷ ys) = false
equal_bytes (x ∷ xs) [] = false
equal_bytes (x ∷ xs) (y ∷ ys) = eqb x y && equal_bytes xs ys

-- One call of `acquireRPM` that no other call comes between. The packed word has the minute above
-- the count; words have 64 bits, and the count's bits are 0 where the minute is stored with `| 1`.
unfoldable pub acquire_rpm : ℕ → ℤ → ℕ → ℕ × Bool
acquire_rpm bucket rpm now =
    let minute = now / 60 in
    if leb_ℤ rpm (pos 0)
    then (bucket, true)
    else if not (eqb (bucket / rate_count_base) minute)
    then (minute * rate_count_base % 2 ^ 64 + 1, true)
    else if leb (pos_part rpm) (bucket % rate_count_base)
    then (bucket, false)
    else ((bucket + 1) % 2 ^ 64, true)

abbrev set_runtime : KeyStore → ℕ → KeyRuntime → KeyStore
set_runtime s i r = record s { runtimes = set s.runtimes i r }

-- the checks on a runtime that come before its counters
unfoldable pub admits : Std → KeyMeta → String → ℕ → Bool
admits std m raw now =
    equal_bytes (std.sha256 raw) m.hash
    && m.key.enabled
    && not (not (m.key.expires_at == "") && leb_ℤ m.expires_unix (pos now))

-- the rest of the managed branch, with the runtime at an index
unfoldable pub enter :
    Std → KeyStore → ℕ → KeyRuntime → String → ℕ → KeyStore × (KeyLease ⊎ KeyAuthFailure)
enter std s i r raw now =
    let rated = acquire_rpm r.rate r.meta.key.rpm now in
    let counted = record r { rate = rated.0 } in
    let lease = Capacity.acquire r.meta.key.concurrency r.active in
    if not (admits std r.meta raw now)
    then (s, inr invalid)
    else if not rated.1
    then (set_runtime s i counted, inr rate_limited)
    else if not lease.1
    then (set_runtime s i counted, inr concurrency_limited)
    else (
      set_runtime s i (record counted { active = lease.0; total = r.total + 1; last_used = now }),
      inl (record {
        id = r.meta.key.id;
        name = r.meta.key.name;
        models = r.meta.models;
        runtime = some i;
        done = false;
      }),
    )

-- `legacy` is the set of digests of the keys from the environment
unfoldable pub authenticate :
    Std → KeyStore → String → List (List ℕ) → ℕ → KeyStore × (KeyLease ⊎ KeyAuthFailure)
authenticate std s raw legacy now =
    if raw == "" || ltb 512 (len raw) then (s, inr invalid) else elim (managed_key_id raw) [
      | some id ↦ elim (lookup id s.snapshot) [
        | none ↦ (s, inr invalid)
        | some i ↦ elim (get_elem? s.runtimes i) [
          | none ↦ (s, inr invalid)
          | some r ↦ enter std s i r raw now
        ]
      ]
      | none ↦ if not (any (equal_bytes (std.sha256 raw)) legacy) then (s, inr invalid) else (
        s,
        inl (record {
          id = "legacy-env";
          name = "Legacy environment key";
          models = [];
          runtime = none;
          done = false;
        }),
      )
    ]

-- none is the nil lease
pub allows_model : Option KeyLease → String → Bool
allows_model none model = true
allows_model (some l) model = is_empty l.models || contains l.models "*" || contains l.models model

pub complete_runtime : Bool → KeyRuntime → KeyRuntime
complete_runtime success r = record r {
  success = (if success then r.success + 1 else r.success);
  active = decr r.active;
}

-- `Complete` on a lease: the first call counts
pub complete : Bool → KeyLease → KeyStore → KeyStore × KeyLease
unfolding complete_runtime
complete success l s =
    let closed = record l { done = true } in
    if l.done then (s, l) else elim l.runtime [
      | none ↦ (s, closed)
      | some i ↦ elim (get_elem? s.runtimes i) [
        | none ↦ (s, closed)
        | some r ↦ (set_runtime s i (complete_runtime success r), closed)
      ]
    ]
