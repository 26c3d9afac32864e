-- ===== src/Common/Assoc.antt =====
-- Go maps with string keys, as association lists. The order of the entries stands for the order in
-- which one `range` over the map meets them.
use Prim.Native.Nat.{◌+◌, ◌≤◌}
use Prim.Native.String.{String}
use mathlib.Core.Path.{◌≡◌, refl}
use mathlib.Core.Logic.{◌≢◌}
use mathlib.Core.Bool.{true, Bool}
use mathlib.Core.List.{List, [], ◌∷◌}
use mathlib.Core.Option.{Option, none, some}
use native.Mathlib.Omega.{arith}
use text.Mathlib.Text.{◌==◌}
use text.Mathlib.TextEquality.{eq_iff}
use text.Mathlib.TextPositions.{eq_refl}
use mathlib.Core.Logic.{inl, inr}
use lite2api.Common.Tests.{text_cases, some_eq, if-both, if◌then◌else◌}
use lite2api.Common.Lists.{length}

abbrev pub Assoc {ℓ} : Type ℓ → Type ℓ
Assoc V = List (String × V)

module _ {ℓ} {V : Type ℓ} where
  -- m[k], with the `ok` of the two-value form
  unfoldable pub lookup : String → Assoc V → Option V
  lookup key [] = none
  lookup key ((at, value) ∷ entries) = if at == key then some value else lookup key entries

  -- m[k] = v
  unfoldable pub insert : String → V → Assoc V → Assoc V
  insert key value [] = (key, value) ∷ []
  insert key value ((at, old) ∷ entries) =
      if at == key then (key, value) ∷ entries else (at, old) ∷ insert key value entries

  -- delete(m, k)
  unfoldable pub erase : String → Assoc V → Assoc V
  erase key [] = []
  erase key ((at, old) ∷ entries) =
      let rest = erase key entries in if at == key then rest else (at, old) ∷ rest

  -- the entries that a `range` with a `delete` under a test leaves
  unfoldable pub keep : (String → V → Bool) → Assoc V → Assoc V
  keep test [] = []
  keep test ((at, old) ∷ entries) =
      let rest = keep test entries in if test at old then (at, old) ∷ rest else rest

  pub lookup-insert :
      (key at : String) (value : V) (entries : Assoc V)
      → lookup at (insert key value entries) ≡ (if key == at then some value else lookup at entries)
  unfolding lookup insert
  lookup-insert key at value [] = refl
  lookup-insert key at value ((here, old) ∷ entries) =
      ground
        (arith, eq_iff key at, eq_iff here key, eq_iff here at, lookup-insert key at value entries)

  pub lookup-erase :
      (key at : String) (entries : Assoc V)
      → lookup at (erase key entries) ≡ (if key == at then none else lookup at entries)
  unfolding lookup erase
  lookup-erase key at [] = ground arith
  lookup-erase key at ((here, old) ∷ entries) =
      ground (arith, eq_iff key at, eq_iff here key, eq_iff here at, lookup-erase key at entries)

  pub lookup-insert_self :
      (key : String) (value : V) (entries : Assoc V)
      → lookup key (insert key value entries) ≡ some value
  lookup-insert_self key value entries = simp (lookup-insert, eq_refl)

  pub lookup-insert_ne :
      (key at : String) (value : V) (entries : Assoc V)
      → key ≢ at
      → lookup at (insert key value entries) ≡ lookup at entries
  lookup-insert_ne key at value entries found = rw lookup-insert (ground (arith, eq_iff key at))

  pub length-insert-le :
      (key : String) (value : V) (entries : Assoc V)
      → length (insert key value entries) ≤ length entries + 1
  unfolding insert
  length-insert-le key value [] = omega arith
  length-insert-le key value ((at, old) ∷ entries) =
      ground (arith, length-insert-le key value entries)

  pub length-keep-le :
      (test : String → V → Bool) (entries : Assoc V) → length (keep test entries) ≤ length entries
  unfolding keep
  length-keep-le test [] = omega arith
  length-keep-le test ((at, old) ∷ entries) = ground (arith, length-keep-le test entries)

  pub length-erase-le :
      (key : String) (entries : Assoc V) → length (erase key entries) ≤ length entries
  unfolding erase
  length-erase-le key [] = omega arith
  length-erase-le key ((at, old) ∷ entries) = ground (arith, length-erase-le key entries)

  -- A kept entry is still found.
  pub lookup-keep :
      (test : String → V → Bool) (key : String) (value : V) (entries : Assoc V)
      → lookup key entries ≡ some value
      → test key value ≡ true
      → lookup key (keep test entries) ≡ some value
  unfolding lookup keep
  lookup-keep test key value [] found good = found
  lookup-keep test key value ((at, old) ∷ entries) found good = elim (text_cases at key) [
    | inl (t, e) ↦
        let w_is : old ≡ value = some_eq old value (rw t at found) in
        rw (e, w_is, good, eq_refl key) refl
    | inr (t, e) ↦
        let rest = lookup-keep test key value entries (rw t at found) good in
        if-both (λ r. lookup key r ≡ some value) (test at old) (rw t rest) rest
  ]

pub ruleset assoc_laws = (lookup-insert, lookup-erase)
