-- ===== src/Runtime/Hash.antt =====
-- hash/fnv and the decimal formatting that runtime.go uses, and its keys and scores.
use Prim.Native.Nat.{bit_xor}
use Prim.Native.Char.{Char, code}
use Prim.Native.String.{char_at, ◌++◌ as append}
use lite2api.Common.{
  ℕ, zero, suc, ◌+◌, ◌-◌, ◌*◌, ◌/◌, ◌%◌, ◌^◌, String, ◌&&◌, List, [], ◌∷◌, ◌++◌, ltb, leb,
  if◌then◌else◌,
}
use lite2api.Common.Int.{ℤ, pos_part}
use lite2api.Common.Text.{nul_text}

-- the UTF-8 bytes of a code point
char_bytes : ℕ → List ℕ
char_bytes c =
    if ltb c 0x80
    then c ∷ []
    else if ltb c 0x800
    then (0xc0 + c / 0x40) ∷ (0x80 + c % 0x40) ∷ []
    else if ltb c 0x10000
    then (0xe0 + c / 0x1000) ∷ (0x80 + c / 0x40 % 0x40) ∷ (0x80 + c % 0x40) ∷ []
    else (0xf0 + c / 0x40000)
      ∷ (0x80 + c / 0x1000 % 0x40)
      ∷ (0x80 + c / 0x40 % 0x40)
      ∷ (0x80 + c % 0x40)
      ∷ []

pub bytes : String → List ℕ
unfolding char_bytes
bytes String.[] = []
bytes (String.◌∷◌ c s) = char_bytes (code c) ++ bytes s

-- FNV-1a
fnv_from : ℕ → ℕ → ℕ → List ℕ → ℕ
fnv_from prime modulus h [] = h
fnv_from prime modulus h (b ∷ bs) = fnv_from prime modulus (bit_xor h b * prime % modulus) bs

unfoldable pub fnv32a : String → ℕ
unfolding fnv_from bytes
fnv32a s = fnv_from 16777619 (2 ^ 32) 2166136261 (bytes s)

unfoldable pub fnv64a : String → ℕ
unfolding fnv_from bytes
fnv64a s = fnv_from 1099511628211 (2 ^ 64) 14695981039346656037 (bytes s)

digit : ℕ → Char
digit n = char_at "0123456789" n

-- "%02d" below 100
unfoldable pub two_digits : ℕ → String
unfolding digit
two_digits n = String.◌∷◌ (digit (n / 10)) (String.◌∷◌ (digit (n % 10)) String.[])

digits_from : ℕ → ℕ → String → String
unfolding digit
digits_from zero n acc = acc
digits_from (suc fuel) n acc =
    let more = digits_from fuel (n / 10) (String.◌∷◌ (digit (n % 10)) acc) in
    if ltb n 10 then String.◌∷◌ (digit n) acc else more

-- "%d": n + 1 rounds are enough, since each divides by ten
unfoldable pub decimal : ℕ → String
unfolding digits_from
decimal n = digits_from (suc n) n ""

-- max(weight, 1), as an unsigned number
abbrev pub at_least_one : ℤ → ℕ
at_least_one w = if leb (pos_part w) 1 then 1 else pos_part w

-- `rendezvousScore`; the product is taken only where it stays below 2^64
unfoldable pub rendezvous_score : String → String → String → ℤ → ℕ
unfolding fnv64a
rendezvous_score session model id weight =
    let score = fnv64a (append session (append nul_text (append model (append nul_text id)))) in
    let w = at_least_one weight in
    if ltb 1 w && leb score ((2 ^ 64 - 1) / w) then score * w else score
