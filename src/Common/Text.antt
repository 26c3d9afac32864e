-- ===== src/Common/Text.antt =====
-- What the source uses of Go's `strings` package, over Unicode code points.
use Prim.Native.Char.{Char, code, nul}
use Prim.Native.String.{String, [], ◌∷◌, char_at}
use Prim.Native.Nat.{ℕ, ◌-◌}
use mathlib.Core.Bool.{Bool, true, false, ◌||◌, ◌&&◌}
use text.Mathlib.Text.{◌==◌}
use lite2api.Common.Tests.{leb, eqb, if◌then◌else◌}

-- unicode.IsSpace
unfoldable pub is_space : ℕ → Bool
is_space c =
    (leb 9 c && leb c 13)
    || eqb c 32
    || eqb c 0x85
    || eqb c 0xa0
    || eqb c 0x1680
    || (leb 0x2000 c && leb c 0x200a)
    || eqb c 0x2028
    || eqb c 0x2029
    || eqb c 0x202f
    || eqb c 0x205f
    || eqb c 0x3000

unfoldable pub trim_left : String → String
unfolding is_space
trim_left [] = []
trim_left (c ∷ s) = let rest = trim_left s in if is_space (code c) then rest else c ∷ s

unfoldable pub trim_right : String → String
unfolding is_space
trim_right [] = []
trim_right (c ∷ s) =
    let rest = trim_right s in if is_space (code c) && rest == [] then [] else c ∷ rest

-- strings.TrimSpace
unfoldable pub trim_space : String → String
unfolding trim_left trim_right
trim_space s = trim_right (trim_left s)

-- unicode.ToLower at the code points whose lower case is in ASCII. Other letters stay: the source
-- compares lowered texts with ASCII constants only.
unfoldable pub lower_char : Char → Char
lower_char c =
    if leb b'A' (code c) && leb (code c) b'Z'
    then char_at "abcdefghijklmnopqrstuvwxyz" (code c - b'A')
    else if eqb (code c) 0x130
    then char_at "i" 0
    else if eqb (code c) 0x212a
    then char_at "k" 0
    else c

-- strings.ToLower
unfoldable pub to_lower : String → String
unfolding lower_char
to_lower [] = []
to_lower (c ∷ s) = lower_char c ∷ to_lower s

-- The simple folding of strings.EqualFold to ASCII: U+212A folds to k, U+017F to s.
fold_char : Char → Char
fold_char c =
    if leb b'A' (code c) && leb (code c) b'Z'
    then char_at "abcdefghijklmnopqrstuvwxyz" (code c - b'A')
    else if eqb (code c) 0x212a
    then char_at "k" 0
    else if eqb (code c) 0x17f
    then char_at "s" 0
    else c

fold : String → String
unfolding fold_char
fold [] = []
fold (c ∷ s) = fold_char c ∷ fold s

-- strings.EqualFold(s, t) for an ASCII constant t
unfoldable pub equal_fold : String → String → Bool
unfolding fold
equal_fold s t = fold s == fold t

-- strings.HasPrefix
unfoldable pub has_prefix : String → String → Bool
has_prefix s [] = true
has_prefix [] (d ∷ t) = false
has_prefix (c ∷ s) (d ∷ t) = eqb (code c) (code d) && has_prefix s t

after : String → String → String
after s [] = s
after [] (d ∷ t) = []
after (c ∷ s) (d ∷ t) = after s t

-- strings.TrimPrefix
unfoldable pub trim_prefix : String → String → String
unfolding has_prefix after
trim_prefix s t = if has_prefix s t then after s t else s

-- strings.Contains
unfoldable pub contains_text : String → String → Bool
unfolding has_prefix
contains_text [] t = has_prefix [] t
contains_text (c ∷ s) t = has_prefix (c ∷ s) t || contains_text s t

-- strings.Cut at a separator of one character: before it, after it, and whether it is there
unfoldable pub cut : String → ℕ → String × String × Bool
cut [] sep = ([], [], false)
cut (c ∷ s) sep =
    let rest = cut s sep in if eqb (code c) sep then ([], s, true) else (c ∷ rest.0, rest.1, rest.2)

abbrev pub empty_text : String
empty_text = []

-- "\x00"
abbrev pub nul_text : String
nul_text = nul ∷ []
