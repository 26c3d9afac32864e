-- ===== src/Common/Sorting.antt =====
-- `sort.SliceStable`: an insertion sort, which is stable, and what it keeps. `sort.Slice` may give
-- the ties in any order; the lists that it gets here come from maps, in any order themselves.
use mathlib.Core.Bool.{Bool, true, false}
use mathlib.Core.List.Perm
use mathlib.Core.List.{List, [], ◌∷◌, Perm}
use mathlib.Core.Logic.{inl, inr}
use mathlib.Core.Path.{◌≡◌}
use lite2api.Common.Lists.{All, All-map}
use lite2api.Common.Tests.{if◌then◌else◌, Bool-cases}

module _ {ℓ} {A : Type ℓ} where
  -- `x` goes before the first entry that is not less than it, so entries that are neither less nor
  -- greater keep their order.
  unfoldable pub insert_by : (A → A → Bool) → A → List A → List A
  insert_by less x [] = x ∷ []
  insert_by less x (y ∷ ys) = if less y x then y ∷ insert_by less x ys else x ∷ y ∷ ys

  unfoldable pub sort_by : (A → A → Bool) → List A → List A
  unfolding insert_by
  sort_by less [] = []
  sort_by less (x ∷ xs) = insert_by less x (sort_by less xs)

  insert_by-perm : (less : A → A → Bool) (x : A) (xs : List A) → Perm (insert_by less x xs) (x ∷ xs)
  unfolding insert_by
  insert_by-perm less x [] = Perm.refl (x ∷ [])
  insert_by-perm less x (y ∷ ys) = elim (Bool-cases (less y x)) [
    | inl before ↦
        rw before (Perm.trans (Perm.cons y (insert_by-perm less x ys)) (Perm.swap x y ys))
    | inr here ↦ rw here (Perm.refl (x ∷ y ∷ ys))
  ]

  pub sort_by-perm : (less : A → A → Bool) (xs : List A) → Perm (sort_by less xs) xs
  unfolding sort_by
  sort_by-perm less [] = Perm.refl []
  sort_by-perm less (x ∷ xs) =
      Perm.trans (insert_by-perm less x (sort_by less xs)) (Perm.cons x (sort_by-perm less xs))

module _ {ℓ κ} {A : Type ℓ} where
  -- Each entry is related to all behind it.
  abbrev pub Sorted : (A → A → Type κ) → List A → Type κ
  Sorted R [] = Unit
  Sorted R (x ∷ xs) = All (R x) xs × Sorted R xs

  insert_by-All :
      (P : A → Type κ) (less : A → A → Bool) (x : A) (xs : List A)
      → P x
      → All P xs
      → All P (insert_by less x xs)
  unfolding insert_by
  insert_by-All P less x [] p ps = (p, tt)
  insert_by-All P less x (y ∷ ys) p ps = elim (Bool-cases (less y x)) [
    | inl before ↦ rw before (ps.0, insert_by-All P less x ys p ps.1)
    | inr here ↦ rw here (p, ps)
  ]

  pub sort_by-All :
      (P : A → Type κ) (less : A → A → Bool) (xs : List A) → All P xs → All P (sort_by less xs)
  unfolding sort_by
  sort_by-All P less [] ps = tt
  sort_by-All P less (x ∷ xs) ps =
      insert_by-All P less x (sort_by less xs) ps.0 (sort_by-All P less xs ps.1)

  -- A comparison that decides a transitive relation sorts by it.
  module _ (R : A → A → Type κ) (less : A → A → Bool) (trans : (x y z : A) → R x y → R y z → R x z)
      (before : (x y : A) → less x y ≡ true → R x y)
      (after : (x y : A) → less x y ≡ false → R y x) where
    insert_by-Sorted : (x : A) (xs : List A) → Sorted R xs → Sorted R (insert_by less x xs)
    unfolding insert_by
    insert_by-Sorted x [] s = (tt, tt)
    insert_by-Sorted x (y ∷ ys) s = elim (Bool-cases (less y x)) [
      | inl lower ↦
          rw lower (insert_by-All (R y) less x ys (before y x lower) s.0, insert_by-Sorted x ys s.1)
      | inr higher ↦
          let r = after y x higher in rw higher ((r, All-map (λ z q. trans x y z r q) ys s.0), s)
    ]

    pub sort_by-Sorted : (xs : List A) → Sorted R (sort_by less xs)
    unfolding sort_by
    sort_by-Sorted [] = tt
    sort_by-Sorted (x ∷ xs) = insert_by-Sorted x (sort_by less xs) (sort_by-Sorted xs)
