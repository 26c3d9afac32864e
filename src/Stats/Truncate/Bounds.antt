-- ===== src/Stats/Truncate/Bounds.antt =====
-- A truncated text fits its budget.
use Prim.Native.Char.{len_utf8}
use Prim.Native.String.{[], ◌∷◌, len}
use Prim.Native.String.len
use text.Mathlib.TextPositions.{len-append}
use lite2api.Common.{◌⊎◌, ℕ, ◌-◌, ◌≤◌, ◌<◌, String, ◌≡◌, leb, arith, Bool-cases, inl, inr}
use lite2api.Stats.Truncate.{cut_valid, suffix, truncate}

len-cut_valid-le : (n : ℕ) (s : String) → len (cut_valid n s) ≤ n
unfolding cut_valid
len-cut_valid-le n [] = omega arith
len-cut_valid-le n (c ∷ s) = elim (Bool-cases (leb (len_utf8 c) n)) [
  | inl fits ↦ rw (fits, len.cons) (ground (arith, len-cut_valid-le (n - len_utf8 c) s))
  | inr over ↦ rw over (omega arith)
]

-- With a positive limit, a truncated text has at most as many bytes as the limit says, and a text
-- within the limit is unchanged.
pub len-truncate-le :
    (value : String) (limit : ℕ)
    → 0 < limit
    → (len (truncate value limit) ≤ limit) × ((limit < len value) ⊎ (truncate value limit ≡ value))
unfolding truncate
len-truncate-le value limit h = (
  ground (
    arith,
    len-cut_valid-le limit value,
    len-cut_valid-le (limit - 3) value,
    len-append (cut_valid (limit - 3) value) suffix,
  ),
  elim (Bool-cases (leb (len value) limit)) [
    | inl small ↦ inr (ground arith)
    | inr large ↦ inl (ground arith)
  ],
)
