-- ===== src/ClientKeys/Manage.antt =====
-- clientkeys.go: keys are created, changed and deleted, each change written to the file before it is
-- published.
pub mod Atomic
use Prim.Native.String.{◌++◌ as append}
use lite2api.Common.{
  ℕ, ◌+◌, String, Bool, true, false, not, List, [], ◌∷◌, ◌++◌, Option, none, some, length,
  get_elem?, set, map, ◌==◌, if◌then◌else◌, inl, inr, ◌⊎◌,
}
use lite2api.Common.Int.{ℤ, pos}
use lite2api.Common.Text.{trim_space}
use lite2api.Common.Assoc.{Assoc, lookup, insert, erase}
use lite2api.Common.Sorting.{sort_by}
use lite2api.Runtime.State.{or_else}
use lite2api.Runtime.Order.{text_less}
use lite2api.ClientKeys.{ClientKeyRecord, KeyMeta, KeyRuntime, KeyStore, Std, managed_key_prefix}
use lite2api.ClientKeys.Validate.{KeyError, build_client_key_meta}

pub record ClientKeyCreate : Type 0 where
  pub name : String
  pub models : List String
  pub rpm : ℤ
  pub concurrency : ℤ
  pub expires_at : String
  pub enabled : Option Bool

pub record ClientKeyUpdate : Type 0 where
  pub name : Option String
  pub models : Option (List String)
  pub rpm : Option ℤ
  pub concurrency : Option ℤ
  pub expires_at : Option String
  pub enabled : Option Bool

pub data ManageError : Type 0 where
  no_entropy duplicate not_found not_persisted : ManageError
  rejected : KeyError → ManageError

-- the records that `persist` writes, in its order
pub records_of : List KeyRuntime → Assoc ℕ → List ClientKeyRecord
records_of runtimes [] = []
records_of runtimes ((id, i) ∷ rest) =
    let others = records_of runtimes rest in
    elim (get_elem? runtimes i) [ none ↦ others | some r ↦ r.meta.key ∷ others ]

abbrev pub sorted_records : List KeyRuntime → Assoc ℕ → List ClientKeyRecord
sorted_records runtimes snapshot =
    sort_by (λ (a : ClientKeyRecord) (b : ClientKeyRecord). text_less a.id b.id)
      (records_of runtimes snapshot)

pub new_runtime : KeyMeta → KeyRuntime
new_runtime meta = record {
  meta = meta;
  active = pos 0;
  total = 0;
  success = 0;
  last_used = 0;
  rate = 0;
}

-- the fields of an update that are given
pub apply_update : ClientKeyUpdate → ClientKeyRecord → ClientKeyRecord
apply_update u r = record r {
  name = or_else u.name r.name;
  models = or_else u.models r.models;
  rpm = or_else u.rpm r.rpm;
  concurrency = or_else u.concurrency r.concurrency;
  expires_at = or_else u.expires_at r.expires_at;
  enabled = or_else u.enabled r.enabled;
}

abbrev pub runtime_of : KeyStore → String → Option (ℕ × KeyRuntime)
runtime_of s id = elim (lookup id s.snapshot) [
  | none ↦ none
  | some i ↦ elim (get_elem? s.runtimes i) [ none ↦ none | some r ↦ some (i, r) ]
]

-- `persist` writes the file, and says whether it could
module _ (std : Std) (persist : List ClientKeyRecord → Bool) where
  -- with the random ID in hexadecimal, the random secret in base64, and the time in two formats
  pub created_record : ClientKeyCreate → String → String → String → String → ClientKeyRecord
  created_record input id secret stamp now =
      let name = trim_space input.name in
      let full = append managed_key_prefix (append id (append "." secret)) in
      record {
        id = id;
        name = if name == "" then append "API Key " stamp else name;
        prefix = append managed_key_prefix (append id "...");
        secret_hash = std.encode_hex (std.sha256 full);
        enabled = or_else input.enabled true;
        models = input.models;
        rpm = input.rpm;
        concurrency = input.concurrency;
        expires_at = input.expires_at;
        created_at = now;
      }

  pub publish_created : KeyStore → String → KeyMeta ⊎ KeyError → KeyStore × (KeyMeta ⊎ ManageError)
  publish_created s id (inr e) = (s, inr (rejected e))
  publish_created s id (inl meta) =
      let runtimes = s.runtimes ++ new_runtime meta ∷ [] in
      let next = insert id (length s.runtimes) s.snapshot in
      elim (lookup id s.snapshot) [
        | some i ↦ (s, inr duplicate)
        | none ↦
            if not (persist (sorted_records runtimes next))
            then (s, inr not_persisted)
            else (record { runtimes = runtimes; snapshot = next }, inl meta)
      ]

  -- none is a failed read of random bytes
  pub create :
      KeyStore
      → ClientKeyCreate
      → Option (String × String)
      → String
      → String
      → KeyStore × (KeyMeta ⊎ ManageError)
  unfolding created_record
  create s input none stamp now = (s, inr no_entropy)
  create s input (some (id, secret)) stamp now =
      publish_created s id (build_client_key_meta std (created_record input id secret stamp now))

  -- persistWithReplacement writes the records with the new one in place; the runtime keeps its
  -- counters.
  pub publish_update :
      KeyStore → ℕ → KeyRuntime → KeyMeta ⊎ KeyError → KeyStore × (KeyMeta ⊎ ManageError)
  publish_update s i r (inr e) = (s, inr (rejected e))
  publish_update s i r (inl meta) =
      if not (persist (sorted_records (set s.runtimes i (new_runtime meta)) s.snapshot))
      then (s, inr not_persisted)
      else (record s { runtimes = set s.runtimes i (record r { meta = meta }) }, inl meta)

  update_at :
      KeyStore → Option (ℕ × KeyRuntime) → ClientKeyUpdate → KeyStore × (KeyMeta ⊎ ManageError)
  unfolding apply_update
  update_at s none input = (s, inr not_found)
  update_at s (some (i, r)) input =
      publish_update s i r (build_client_key_meta std (apply_update input r.meta.key))

  pub update : KeyStore → String → ClientKeyUpdate → KeyStore × (KeyMeta ⊎ ManageError)
  unfolding update_at
  update s id input = update_at s (runtime_of s id) input

  -- the error, or none
  pub delete : KeyStore → String → KeyStore × Option ManageError
  delete s id = elim (lookup id s.snapshot) [
    | none ↦ (s, some not_found)
    | some i ↦
        if not (persist (sorted_records s.runtimes (erase id s.snapshot)))
        then (s, some not_persisted)
        else (record s { snapshot = erase id s.snapshot }, none)
  ]
