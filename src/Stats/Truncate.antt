-- ===== src/Stats/Truncate.antt =====
-- stats.go `truncate`: the byte budget of every text that is recorded.
pub mod Bounds
use Prim.Native.Char.{code, len_utf8}
use Prim.Native.String.{[], ◌∷◌, len, ◌++◌ as append}
use lite2api.Common.{ℕ, ◌-◌, String, Bool, true, false, ◌||◌, leb, eqb, if◌then◌else◌}

-- `value[:cut]` for the largest cut up to the given number of bytes at which it is valid UTF-8: the
-- loop `for cut > 0 && !utf8.ValidString(value[:cut])`, on a value that is valid itself.
pub cut_valid : ℕ → String → String
cut_valid n [] = []
cut_valid n (c ∷ s) =
    let rest = cut_valid (n - len_utf8 c) s in if leb (len_utf8 c) n then c ∷ rest else []

-- "…", three bytes
abbrev pub suffix : String
suffix = "…"

pub truncate : String → ℕ → String
unfolding cut_valid
truncate value limit =
    if eqb limit 0 || leb (len value) limit
    then value
    else if leb limit (len suffix)
    then cut_valid limit value
    else append (cut_valid (limit - len suffix) value) suffix
