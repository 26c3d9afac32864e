-- ===== src/ClientKeys/Access/Leases.antt =====
-- Who is let in, and what a lease gives back.
use mathlib.Core.Path.{subst}
use lite2api.Common.{
  ◌%◌, ◌/◌, ◌≢◌, ap, arith, eq_iff, [], ◌∷◌, ℕ, ◌+◌, ◌≡◌, refl, String, Bool, true, false, List,
  none, some, get_elem?, set, Bool-cases, Option-cases, inl, inr, ◌⊎◌, any, ◌||◌, ◌==◌, ltb,
  if◌then◌else◌, Gives,
}
use lite2api.Common.Int.{ℤ, pos, decr, incr, ◌≤ℤ◌, ◌<ℤ◌}
use mathlib.Core.List.{Memᴰ}
use lite2api.Common.Assoc.{lookup}
use lite2api.Runtime.Capacity
use lite2api.ClientKeys.{
  KeyMeta, rate_count_base, KeyRuntime, KeyStore, KeyLease, KeyAuthFailure, Std,
}
use lite2api.ClientKeys.Access.{
  len, managed_key_id, equal_bytes, acquire_rpm, admits, enter, authenticate, complete_runtime,
  complete,
}

equal_bytes_sound : (xs ys : List ℕ) → equal_bytes xs ys ≡ true → xs ≡ ys
unfolding equal_bytes
equal_bytes_sound [] [] h = refl
equal_bytes_sound [] (y ∷ ys) h = cc
equal_bytes_sound (x ∷ xs) [] h = cc
equal_bytes_sound (x ∷ xs) (y ∷ ys) h =
    let same : x ≡ y = ground arith in rw (same, equal_bytes_sound xs ys (ground arith)) refl

any-equal_bytes :
    (digest : List ℕ) (digests : List (List ℕ))
    → any (equal_bytes digest) digests ≡ true
    → Memᴰ digest digests
any-equal_bytes digest [] h = cc
any-equal_bytes digest (d ∷ ds) h = elim (Bool-cases (equal_bytes digest d)) [
  | inl same ↦ Memᴰ.head (equal_bytes_sound digest d same)
  | inr other ↦ Memᴰ.tail (any-equal_bytes digest ds (rw other at h))
]

admits_sound :
    (std : Std) (m : KeyMeta) (raw : String) (now : ℕ)
    → admits std m raw now ≡ true
    → (std.sha256 raw ≡ m.hash)
      × (m.key.enabled ≡ true)
      × ((m.key.expires_at ≡ "") ⊎ (pos now <ℤ m.expires_unix))
unfolding admits
admits_sound std m raw now h = (
  equal_bytes_sound (std.sha256 raw) m.hash (ground arith),
  ground arith,
  ground (arith, eq_iff m.key.expires_at ""),
)

acquire_rpm-room :
    (bucket : ℕ) (rpm : ℤ) (now : ℕ)
    → (acquire_rpm bucket rpm now).1 ≡ true
    → (rpm ≤ℤ pos 0)
      ⊎ (bucket / rate_count_base ≢ now / 60)
      ⊎ (pos (bucket % rate_count_base) <ℤ rpm)
unfolding acquire_rpm
acquire_rpm-room bucket rpm now h = ground arith

acquire-room :
    (limit active : ℤ)
    → (Capacity.acquire limit active).1 ≡ true
    → ((limit ≤ℤ pos 0) ⊎ (active <ℤ limit)) × ((Capacity.acquire limit active).0 ≡ incr active)
unfolding Capacity.acquire
acquire-room limit active h = ground arith

-- What a lease of a key says: the runtime that the snapshot has under the ID in the key, with all
-- checks passed, and counted once.
pub record Entered (std : Std) (s : KeyStore) (raw : String) (now : ℕ) (after : KeyStore)
    (l : KeyLease) : Type 0 where
  pub id : String
  pub index : ℕ
  pub runtime : KeyRuntime
  pub named : managed_key_id raw ≡ some id
  pub listed : lookup id s.snapshot ≡ some index
  pub found : get_elem? s.runtimes index ≡ some runtime
  pub digest : std.sha256 raw ≡ runtime.meta.hash
  pub enabled : runtime.meta.key.enabled ≡ true
  pub unexpired : (runtime.meta.key.expires_at ≡ "") ⊎ (pos now <ℤ runtime.meta.expires_unix)
  pub rated :
      (runtime.meta.key.rpm ≤ℤ pos 0)
      ⊎ (runtime.rate / rate_count_base ≢ now / 60)
      ⊎ (pos (runtime.rate % rate_count_base) <ℤ runtime.meta.key.rpm)
  pub granted :
      (runtime.meta.key.concurrency ≤ℤ pos 0) ⊎ (runtime.active <ℤ runtime.meta.key.concurrency)
  pub points : l.runtime ≡ some index
  pub pending : l.done ≡ false
  pub counted : after ≡ record s {
    runtimes = set s.runtimes index (record runtime {
      rate = (acquire_rpm runtime.rate runtime.meta.key.rpm now).0;
      active = incr runtime.active;
      total = runtime.total + 1;
      last_used = now;
    });
  }

-- A lease of a key from the environment: nothing is counted.
pub record FromEnvironment (std : Std) (s : KeyStore) (raw : String) (legacy : List (List ℕ))
    (after : KeyStore) (l : KeyLease) : Type 0 where
  pub unmanaged : managed_key_id raw ≡ none
  pub known : Memᴰ (std.sha256 raw) legacy
  pub untracked : l.runtime ≡ none
  pub unchanged : after ≡ s

module _ (std : Std) (s : KeyStore) (raw : String) (now : ℕ) where
  abbrev Let : List (List ℕ) → KeyStore × (KeyLease ⊎ KeyAuthFailure) → Type 0
  Let legacy out =
      Gives (λ l. Entered std s raw now out.0 l ⊎ FromEnvironment std s raw legacy out.0 l) out.1

  enter-Let :
      (legacy : List (List ℕ)) (id : String) (i : ℕ) (r : KeyRuntime)
      → managed_key_id raw ≡ some id
      → lookup id s.snapshot ≡ some i
      → get_elem? s.runtimes i ≡ some r
      → Let legacy (enter std s i r raw now)
  unfolding enter
  enter-Let legacy id i r named listed found = elim (Bool-cases (admits std r.meta raw now)) [
    | inr refused ↦ rw refused tt
    | inl admitted ↦ elim (Bool-cases (acquire_rpm r.rate r.meta.key.rpm now).1) [
      | inr limited ↦ rw (admitted, limited) tt
      | inl rated ↦ elim (Bool-cases (Capacity.acquire r.meta.key.concurrency r.active).1) [
        | inr full ↦ rw (admitted, rated, full) tt
        | inl granted ↦
            let passed = admits_sound std r.meta raw now admitted in
            rw (admitted, rated, granted)
              (inl (record {
                id = id;
                index = i;
                runtime = r;
                named = named;
                listed = listed;
                found = found;
                digest = passed.0;
                enabled = passed.1;
                unexpired = passed.2;
                rated = acquire_rpm-room r.rate r.meta.key.rpm now rated;
                granted = (acquire-room r.meta.key.concurrency r.active granted).0;
                points = refl;
                pending = refl;
                counted =
                    ap
                      (λ n. record s {
                        runtimes = set s.runtimes i (record r {
                          rate = (acquire_rpm r.rate r.meta.key.rpm now).0;
                          active = n;
                          total = r.total + 1;
                          last_used = now;
                        });
                      })
                      (acquire-room r.meta.key.concurrency r.active granted).1;
              }))
      ]
    ]
  ]

  authenticate-Let : (legacy : List (List ℕ)) → Let legacy (authenticate std s raw legacy now)
  unfolding authenticate
  authenticate-Let legacy = elim (Bool-cases (raw == "" || ltb 512 (len raw))) [
    | inl refused ↦ rw refused tt
    | inr fits ↦ rw fits (elim (Option-cases (managed_key_id raw)) [
      | inl unmanaged ↦
          rw unmanaged (elim (Bool-cases (any (equal_bytes (std.sha256 raw)) legacy)) [
            | inr unknown ↦ rw unknown tt
            | inl known ↦ rw known (
                inr (record {
                  unmanaged = unmanaged;
                  known = any-equal_bytes (std.sha256 raw) legacy known;
                  untracked = refl;
                  unchanged = refl;
                }))
          ])
      | inr (id, named) ↦ rw named (elim (Option-cases (lookup id s.snapshot)) [
        | inl unlisted ↦ rw unlisted tt
        | inr (i, listed) ↦ rw listed (elim (Option-cases (get_elem? s.runtimes i)) [
          | inl missing ↦ rw missing tt
          | inr (r, found) ↦ rw found (enter-Let legacy id i r named listed found)
        ])
      ])
    ])
  ]

-- Whoever gets a lease showed a text with the digest of a key that the snapshot has under the ID in
-- the text, which is enabled and has not expired, with room in its rate and its concurrency, and one
-- more active call is counted in it; or a text without such an ID whose digest is one of those from
-- the environment, and nothing changed.
pub authenticate-lease :
    (std : Std) (s : KeyStore) (raw : String) (legacy : List (List ℕ)) (now : ℕ) (l : KeyLease)
    → (authenticate std s raw legacy now).1 ≡ inl l
    → Entered std s raw now (authenticate std s raw legacy now).0 l
      ⊎ FromEnvironment std s raw legacy (authenticate std s raw legacy now).0 l
authenticate-lease std s raw legacy now l h =
    subst
      (Gives (λ k.
        Entered std s raw now (authenticate std s raw legacy now).0 k
        ⊎ FromEnvironment std s raw legacy (authenticate std s raw legacy now).0 k))
      h (authenticate-Let std s raw now legacy)

-- Completing a lease of a stored key twice counts it once: one call fewer is active, one more
-- succeeded where it did, the second call changes nothing, and no other runtime is touched.
pub complete-once :
    (success again : Bool) (l : KeyLease) (s : KeyStore) (i : ℕ) (r : KeyRuntime)
    → l.done ≡ false
    → l.runtime ≡ some i
    → get_elem? s.runtimes i ≡ some r
    → let first = complete success l s in
      let second = complete again first.1 first.0 in
      (second.0 ≡ first.0)
      × (first.0 ≡ record s {
        runtimes = set s.runtimes i (record r {
          success = (if success then r.success + 1 else r.success);
          active = decr r.active;
        });
      })
unfolding complete complete_runtime
complete-once success again l s i r pending points found = rw (pending, points, found) (refl, refl)
