-- ===== src/Config/Checks.antt =====
-- config.go: how the checks of a configuration follow one another. An error is its message without
-- the names that are filled in.
use lite2api.Common.{
  ◌≡◌, refl, sym, ap, ◌∙◌, arith, ℕ, String, Bool, true, false, not, List, [], ◌∷◌, Option, none,
  some, ◌==◌, eq_iff, eq_refl, All, Distinct, contains, text_cases, inl, inr,
}
use mathlib.Core.Bool.{false≢true}
use lite2api.Common.Text.{trim_space}

abbrev pub max_account_id_bytes : ℕ
max_account_id_bytes = 128

abbrev pub max_model_id_bytes : ℕ
max_model_id_bytes = 256

-- the first error of the checks in order
unfoldable pub first_of : List (Option String) → Option String
first_of [] = none
first_of (o ∷ os) = let later = first_of os in elim o [ none ↦ later | some e ↦ some e ]

-- the first error of a loop
unfoldable pub first_in {ℓ} : {A : Type ℓ} → (A → Option String) → List A → Option String
first_in check [] = none
first_in check (x ∷ xs) =
    let later = first_in check xs in elim (check x) [ none ↦ later | some e ↦ some e ]

-- strings.TrimSpace(s) != s
abbrev pub untrimmed : String → Bool
untrimmed s = not (trim_space s == s)

unfoldable pub first_of-none :
    (os : List (Option String)) → first_of os ≡ none → All (λ o. o ≡ none) os
unfolding first_of
first_of-none [] e = tt
first_of-none (none ∷ os) e = (refl, first_of-none os e)
first_of-none (some m ∷ os) e = cc

unfoldable pub first_in-none {ℓ} :
    {A : Type ℓ} (check : A → Option String) (xs : List A)
    → first_in check xs ≡ none
    → All (λ x. check x ≡ none) xs
unfolding first_in
first_in-none check [] e = tt
first_in-none check (x ∷ xs) e =
    elim (check x)
        as (λ o.
          (check x ≡ o)
          → (elim o [ none ↦ first_in check xs | some m ↦ some m ]) ≡ none
          → All (λ y. check y ≡ none) (x ∷ xs)) [
            | none ↦ λ q r. (q, first_in-none check xs r)
            | some m ↦ λ q r. cc
          ]
      refl e

pub none-then :
    (o later : Option String)
    → (elim o [ none ↦ later | some e ↦ some e ]) ≡ none
    → (o ≡ none) × (later ≡ none)
none-then none later e = (refl, e)
none-then (some m) later e = cc

pub trimmed : (s : String) → untrimmed s ≡ false → trim_space s ≡ s
trimmed s e = ground (arith, eq_iff (trim_space s) s)

-- the ids of the accounts are not among those seen, and differ from one another
abbrev pub Apart : List String → List String → Type 0
Apart seen [] = Unit
Apart seen (x ∷ xs) = (contains seen x ≡ false) × Apart (x ∷ seen) xs

Apart-seen :
    (seen xs : List String) (y : String)
    → Apart seen xs
    → contains seen y ≡ true
    → contains xs y ≡ false
Apart-seen seen [] y a s = refl
Apart-seen seen (x ∷ xs) y a s =
    let rest = Apart-seen (x ∷ seen) xs y a.1 (ground arith) in
    elim (text_cases x y) [
      | inl (t, e) ↦ absurd (false≢true (sym a.0 ∙ ap (contains seen) e ∙ s))
      | inr (t, ne) ↦ rw t rest
    ]

pub Apart-Distinct : (seen xs : List String) → Apart seen xs → Distinct xs
Apart-Distinct seen [] a = tt
Apart-Distinct seen (x ∷ xs) a =
    (Apart-seen (x ∷ seen) xs x a.1 (ground (arith, eq_refl x)), Apart-Distinct (x ∷ seen) xs a.1)
