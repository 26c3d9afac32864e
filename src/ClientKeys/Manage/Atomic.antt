-- ===== src/ClientKeys/Manage/Atomic.antt =====
-- `update` and `delete` happen as a whole or not at all.
use lite2api.Common.{
  ◌⊎◌, not, ◌==◌, if◌then◌else◌, Bool-cases, false, true, none, some, Option, ℕ, String, ◌≡◌, refl,
  Bool, true, List, Option, none, some, ◌⊎◌, inl, inr, set, Bool-cases, Gives,
}
use lite2api.ClientKeys.{ClientKeyRecord, KeyMeta, KeyRuntime, KeyStore, Std}
use lite2api.ClientKeys.Validate.{KeyError, build_client_key_meta}
use lite2api.ClientKeys.Validate.Bounds.{ValidKey, build_client_key_meta-ValidKey}
use lite2api.Common.Assoc.{lookup, erase, lookup-erase}
use lite2api.ClientKeys.Manage.{
  delete, not_found, not_persisted, ManageError, ClientKeyUpdate, new_runtime, sorted_records,
  publish_update, update_at, update, apply_update, runtime_of,
}

-- The store after an update of the runtime at an index: an error left it alone; a success wrote the
-- file with the new record, and changed that runtime's meta alone, to a valid key.
abbrev pub Updated :
    (List ClientKeyRecord → Bool)
    → KeyStore
    → Option (ℕ × KeyRuntime)
    → KeyStore × (KeyMeta ⊎ ManageError)
    → Type 0
Updated persist s at (after, inr e) = after ≡ s
Updated persist s none (after, inl meta) = ⊥
Updated persist s (some (i, r)) (after, inl meta) =
    ValidKey meta
    × (persist (sorted_records (set s.runtimes i (new_runtime meta)) s.snapshot) ≡ true)
    × (after ≡ record s { runtimes = set s.runtimes i (record r { meta = meta }) })

module _ (std : Std) (persist : List ClientKeyRecord → Bool) where
  publish_update-Updated :
      (s : KeyStore) (i : ℕ) (r : KeyRuntime) (m : KeyMeta ⊎ KeyError)
      → Gives ValidKey m
      → Updated persist s (some (i, r)) (publish_update std persist s i r m)
  unfolding publish_update
  publish_update-Updated s i r (inr e) v = refl
  publish_update-Updated s i r (inl meta) v =
      elim (Bool-cases
        (persist (sorted_records (set s.runtimes i (new_runtime meta)) s.snapshot))) [
          | inl wrote ↦ rw wrote (v, wrote, refl)
          | inr failed ↦ rw failed refl
        ]

  valid : (r : ClientKeyRecord) → Gives ValidKey (build_client_key_meta std r)
  valid r = gives (build_client_key_meta std r) (build_client_key_meta-ValidKey std r)
    where
      gives : (o : KeyMeta ⊎ KeyError) → ((m : KeyMeta) → o ≡ inl m → ValidKey m) → Gives ValidKey o
      gives (inl m) v = v m refl
      gives (inr e) v = tt

  update_at-Updated :
      (s : KeyStore) (o : Option (ℕ × KeyRuntime)) (input : ClientKeyUpdate)
      → Updated persist s o (update_at std persist s o input)
  unfolding update_at
  update_at-Updated s none input = refl
  update_at-Updated s (some (i, r)) input =
      publish_update-Updated s i r _ (valid (apply_update input r.meta.key))

  -- An update of a key that is refused or cannot be written leaves the store as it was; one that
  -- succeeds has written the file with the new record, which is a valid key, and gives it to the
  -- runtime of that ID, whose counters and leases go on; the other runtimes stay.
  pub update-Updated :
      (s : KeyStore) (id : String) (input : ClientKeyUpdate)
      → Updated persist s (runtime_of s id) (update std persist s id input)
  unfolding update
  update-Updated s id input = update_at-Updated s (runtime_of s id) input

-- The store after a deletion: an error left it alone; a success wrote the file without the key, and
-- the snapshot has no such ID and is otherwise the same, while the runtimes stay for their leases.
abbrev pub Deleted :
    (List ClientKeyRecord → Bool) → KeyStore → String → KeyStore × Option ManageError → Type 0
Deleted persist s id (after, some e) = after ≡ s
Deleted persist s id (after, none) =
    (persist (sorted_records s.runtimes (erase id s.snapshot)) ≡ true)
    × (after.runtimes ≡ s.runtimes)
    × ((other : String)
        → lookup other after.snapshot ≡ (if id == other then none else lookup other s.snapshot))

-- A deletion that finds no key or cannot write the file leaves the store as it was; one that succeeds
-- has written the file without the key, takes exactly that ID out of the snapshot, and leaves every
-- runtime for the leases that are out.
pub delete-Deleted :
    (std : Std) (persist : List ClientKeyRecord → Bool) (s : KeyStore) (id : String)
    → Deleted persist s id (delete std persist s id)
unfolding delete
delete-Deleted std persist s id =
    elim (lookup id s.snapshot)
      as (λ (found : Option ℕ).
        Deleted persist s id (elim found as (λ x. KeyStore × Option ManageError) [
          | none ↦ (s, some not_found)
          | some i ↦
              if not (persist (sorted_records s.runtimes (erase id s.snapshot)))
              then (s, some not_persisted)
              else (record s { snapshot = erase id s.snapshot }, none)
        ])) [
          | none ↦ refl
          | some i ↦
              written (Bool-cases (persist (sorted_records s.runtimes (erase id s.snapshot))))
        ]
  where
    written :
        (persist (sorted_records s.runtimes (erase id s.snapshot)) ≡ true)
          ⊎ (persist (sorted_records s.runtimes (erase id s.snapshot)) ≡ false)
        → Deleted persist s id (
            if not (persist (sorted_records s.runtimes (erase id s.snapshot)))
            then (s, some not_persisted)
            else (record s { snapshot = erase id s.snapshot }, none))
    written (inl wrote) = rw wrote (wrote, refl, λ other. lookup-erase id other s.snapshot)
    written (inr failed) = rw failed refl
