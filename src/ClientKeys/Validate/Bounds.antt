-- ===== src/ClientKeys/Validate/Bounds.antt =====
-- What a key that passed the checks keeps to.
use Prim.Native.String.{len}
use mathlib.Core.Path.{subst}
use lite2api.Common.{
  Gives, unless_error-Gives, none-some, not-ltb→le, ◌==◌, some_eq, ltb, ◌||◌, ◌≤◌, ◌≡◌, refl,
  String, List, [], ◌∷◌, ◌++◌, Option, none, some, contains, All, Distinct, Distinct-snoc,
  first_error, first_error-none, Bool-cases, inl, inr, arith, eq_iff, ◌≢◌,
}
use lite2api.Common.Int.{pos, ◌≤ℤ◌}
use lite2api.ClientKeys.{ClientKeyRecord, KeyMeta, Std, rate_count_mask}
use lite2api.ClientKeys.Validate.{
  finish_meta, trim_space, length, clean_models, build_client_key_meta, trimmed, checks,
}

abbrev pub GoodModel : String → Type 0
GoodModel m = (m ≢ "") × (len m ≤ 128)

All-snoc :
    (P : String → Type 0) (xs : List String) (a : String) → All P xs → P a → All P (xs ++ a ∷ [])
All-snoc P [] a h p = (p, tt)
All-snoc P (x ∷ xs) a h p = (h.0, All-snoc P xs a h.1 p)

clean_models-good :
    (kept raws models : List String)
    → Distinct kept
    → All GoodModel kept
    → clean_models kept raws ≡ some models
    → Distinct models × All GoodModel models
unfolding clean_models
clean_models-good kept [] models d g h =
    subst (λ ms. Distinct ms × All GoodModel ms) (some_eq kept models h) (d, g)
clean_models-good kept (raw ∷ rest) models d g h =
    elim (Bool-cases (trim_space raw == "" || ltb 128 (len (trim_space raw)))) [
      | inl bad ↦ absurd (none-some models (rw bad at h))
      | inr good ↦ elim (Bool-cases (contains kept (trim_space raw))) [
        | inl known ↦ clean_models-good kept rest models d g (rw (good, known) at h)
        | inr fresh ↦
            clean_models-good (kept ++ trim_space raw ∷ []) rest models
              (Distinct-snoc kept (trim_space raw) d fresh)
              (All-snoc GoodModel kept (trim_space raw) g (
                ground (arith, eq_iff (trim_space raw) ""),
                omega (arith, not-ltb→le 128 (len (trim_space raw)) (ground arith)),
              ))
              (rw (good, fresh) at h)
      ]
    ]

-- What a validated key keeps to.
pub record ValidKey (m : KeyMeta) : Type 0 where
  pub id_length : len m.key.id ≡ 16
  pub name_given : m.key.name ≢ ""
  pub name_bound : len m.key.name ≤ 80
  pub hash_length : length m.hash ≡ 32
  pub rpm_bound : (pos 0 ≤ℤ m.key.rpm) × (m.key.rpm ≤ℤ pos rate_count_mask)
  pub concurrency_bound : (pos 0 ≤ℤ m.key.concurrency) × (m.key.concurrency ≤ℤ pos 10000)
  pub same_models : m.models ≡ m.key.models
  pub distinct_models : Distinct m.models
  pub good_models : All GoodModel m.models

finish_meta-ValidKey :
    (std : Std) (r : ClientKeyRecord) (o : Option (List String))
    → first_error (checks std r) ≡ none
    → clean_models [] r.models ≡ o
    → Gives ValidKey (finish_meta std r o)
unfolding finish_meta
finish_meta-ValidKey std r none passed cleaned = tt
finish_meta-ValidKey std r (some models) passed cleaned =
    let (c0, c) = first_error-none (checks std r) passed in
    let good = clean_models-good [] r.models models tt tt cleaned in
    record {
      id_length = ground (arith, c0);
      name_given = ground (arith, c.1.0, eq_iff r.name "");
      name_bound = ground (arith, c.1.0);
      hash_length = ground (arith, c.1.1.1.0);
      rpm_bound = ground (arith, c.1.1.1.1.0);
      concurrency_bound = ground (arith, c.1.1.1.1.1.0);
      same_models = refl;
      distinct_models = good.0;
      good_models = good.1;
    }

-- A record that builds gives a key with an ID of 16 bytes, a name of 1 to 80 bytes, a hash of 32
-- bytes, a rate that fits the packed counter, at most 10000 concurrent calls, and models that are
-- not empty, have at most 128 bytes and occur once.
pub build_client_key_meta-ValidKey :
    (std : Std) (r : ClientKeyRecord) (m : KeyMeta)
    → build_client_key_meta std r ≡ inl m
    → ValidKey m
unfolding build_client_key_meta
build_client_key_meta-ValidKey std r m h = subst (Gives ValidKey) h (
    unless_error-Gives ValidKey (first_error (checks std (trimmed std r)))
      (finish_meta std (trimmed std r) (clean_models [] (trimmed std r).models))
      (λ passed. finish_meta-ValidKey std (trimmed std r) _ passed refl))
