-- ===== src/Stats/Ring.antt =====
-- stats.go: the bounded ring behind the recent requests, the closed trend buckets and the latency
-- samples: a slice that grows up to a limit, and the place of the next write.
use lite2api.Common.{
  ◌>>=◌, ℕ, zero, suc, ◌+◌, ◌%◌, List, [], ◌∷◌, ◌++◌, Option, none, some, length, get_elem?, set,
  ltb, if◌then◌else◌,
}
pub mod Reads

module _ {ℓ} {A : Type ℓ} where
  -- A write out of range panics, which is `none`.
  pub ring_put : ℕ → A → List A → ℕ → Option (List A × ℕ)
  ring_put limit x items next =
      if ltb (length items) limit
      then some (items ++ x ∷ [], suc (length items) % limit)
      else if ltb next (length items)
      then some (set items next x, suc next % limit)
      else none

  -- an index out of range panics too
  -- for i := from, n rounds: out = append(out, items[index(i)])
  pub read_at : List A → (ℕ → ℕ) → ℕ → ℕ → Option (List A)
  read_at items index i zero = some []
  read_at items index i (suc n) =
      let rest = read_at items index (suc i) n in
      do x ← get_elem? items (index i); xs ← rest; some (x ∷ xs)
