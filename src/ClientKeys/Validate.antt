-- ===== src/ClientKeys/Validate.antt =====
-- clientkeys.go `buildClientKeyMeta`: the checks on a key's record, with the record made clean.
pub mod Bounds
use Prim.Native.String.{len, ◌++◌ as append}
use lite2api.Common.{
  unless_error, inl, inr, ◌⊎◌, ℕ, ◌+◌, String, Bool, true, false, not, ◌&&◌, ◌||◌, List, [], ◌∷◌,
  ◌++◌, Option, none, some, contains, length, ltb, eqb, ◌==◌, if◌then◌else◌, first_error,
}
use lite2api.Common.Int.{ℤ, pos, ltb_ℤ}
use lite2api.Common.Text.{trim_space}
use lite2api.ClientKeys.{ClientKeyRecord, KeyMeta, Moment, Std, managed_key_prefix, rate_count_mask}

pub data KeyError : Type 0 where
  bad_id_length bad_id bad_name bad_prefix bad_hash bad_rpm bad_concurrency bad_created bad_expires
        too_many_models bad_model :
      KeyError

-- the loop over the models, from the models kept so far; none is the error
unfoldable pub clean_models : List String → List String → Option (List String)
clean_models kept [] = some kept
clean_models kept (raw ∷ rest) =
    let model = trim_space raw in
    let with_model = clean_models (kept ++ model ∷ []) rest in
    let without = clean_models kept rest in
    if model == "" || ltb 128 (len model)
    then none
    else if contains kept model
    then without
    else with_model

unfoldable pub is_none : {A : Type 0} → Option A → Bool
is_none none = true
is_none (some a) = false

module _ (std : Std) where
  abbrev pub hash_of : ClientKeyRecord → List ℕ
  hash_of r = elim (std.decode_hex r.secret_hash) [ none ↦ [] | some bytes ↦ bytes ]

  abbrev pub created_ok : ClientKeyRecord → Bool
  created_ok r = elim (std.parse_time r.created_at) [
    | none ↦ false
    | some moment ↦ not moment.is_zero
  ]

  -- the record with its ID and its name trimmed
  abbrev pub trimmed : ClientKeyRecord → ClientKeyRecord
  trimmed r = record r { id = trim_space r.id; name = trim_space r.name }

  -- the early returns before the loop, in their order
  abbrev pub checks : ClientKeyRecord → List (Bool × KeyError)
  checks r =
      (not (eqb (len r.id) 16), bad_id_length)
      ∷ (is_none (std.decode_hex r.id), bad_id)
      ∷ (r.name == "" || ltb 80 (len r.name), bad_name)
      ∷ (not (r.prefix == append managed_key_prefix (append r.id "...")), bad_prefix)
      ∷ (is_none (std.decode_hex r.secret_hash) || not (eqb (length (hash_of r)) 32), bad_hash)
      ∷ (ltb_ℤ r.rpm (pos 0) || ltb_ℤ (pos rate_count_mask) r.rpm, bad_rpm)
      ∷ (ltb_ℤ r.concurrency (pos 0) || ltb_ℤ (pos 10000) r.concurrency, bad_concurrency)
      ∷ (not (created_ok r), bad_created)
      ∷ (not (r.expires_at == "") && is_none (std.parse_time r.expires_at), bad_expires)
      ∷ (ltb 256 (length r.models), too_many_models)
      ∷ []

  abbrev pub expires_of : ClientKeyRecord → ℤ
  expires_of r =
      if r.expires_at == ""
      then pos 0
      else elim (std.parse_time r.expires_at) [ none ↦ pos 0 | some moment ↦ moment.unix ]

  -- behind the loop over the models
  unfoldable pub finish_meta : ClientKeyRecord → Option (List String) → KeyMeta ⊎ KeyError
  finish_meta r none = inr bad_model
  finish_meta r (some models) = inl (record {
    key = record r { models = models };
    hash = hash_of r;
    models = models;
    expires_unix = expires_of r;
  })

  -- the right side is the error
  unfoldable pub build_client_key_meta : ClientKeyRecord → KeyMeta ⊎ KeyError
  unfolding finish_meta
  build_client_key_meta raw =
      unless_error (first_error (checks (trimmed raw)))
        (finish_meta (trimmed raw) (clean_models [] (trimmed raw).models))
