-- ===== src/Runtime/Capacity/Bounds.antt =====
-- The counter counts the leases, and a limit is never passed, whatever the interleaving.
use mathlib.Core.Path.{subst}
use lite2api.Common.{
  ◌⊎◌, Bool-cases, sym, ap, ◌∙◌, ◌-◌, ℕ, zero, suc, ◌+◌, ◌≤◌, ◌≡◌, refl, List, [], ◌∷◌, some,
  get_elem?, set, arith, Option-cases, inl, inr, replicate,
}
use lite2api.Common.Int.{leb_ℤ, ℤ, pos, negsuc, ◌<ℤ◌, ◌≤ℤ◌}
use lite2api.Runtime.Capacity.{Thread, outside, holding, loaded, advance, Shared, step, run}

abbrev pub held : Thread → ℕ
held outside = 0
held holding = 1
held (loaded n) = 0

abbrev pub holders : List Thread → ℕ
holders [] = 0
holders (t ∷ ts) = held t + holders ts

holders-set :
    (ts : List Thread) (i : ℕ) (t u : Thread)
    → get_elem? ts i ≡ some t
    → holders (set ts i u) + held t ≡ holders ts + held u
holders-set [] i t u h = cc
holders-set (x ∷ ts) zero t u h = ground arith
holders-set (x ∷ ts) (suc i) t u h = omega (arith, holders-set ts i t u h)

-- The counter is the number of leases, which respects a positive limit.
pub record Inv (limit : ℤ) (s : Shared) : Type 0 where
  pub counts : s.active ≡ pos (holders s.threads)
  pub bounded : pos 0 <ℤ limit → pos (holders s.threads) ≤ℤ limit

-- one access, where `h` leases are out
advance-counts :
    (limit : ℤ) (t : Thread) (h : ℕ)
    → held t ≤ h
    → (advance limit t (pos h)).1 ≡ pos (h + held (advance limit t (pos h)).0 - held t)
unfolding advance
advance-counts limit outside h le = ground arith
advance-counts limit (loaded (pos c)) h le = ground arith
advance-counts limit (loaded (negsuc c)) h le = ground arith
advance-counts limit holding h le = ground arith

advance-bounded :
    (limit : ℤ) (t : Thread) (h : ℕ)
    → held t ≤ h
    → pos 0 <ℤ limit
    → pos h ≤ℤ limit
    → (advance limit t (pos h)).1 ≤ℤ limit
unfolding advance
advance-bounded limit outside h le p b = ground arith
advance-bounded limit (loaded (pos c)) h le p b = ground arith
advance-bounded limit (loaded (negsuc c)) h le p b = ground arith
advance-bounded limit holding h le p b = ground arith

held-le-holders :
    (ts : List Thread) (i : ℕ) (t : Thread) → get_elem? ts i ≡ some t → held t ≤ holders ts
held-le-holders [] i t h = cc
held-le-holders (x ∷ ts) zero t h = ground arith
held-le-holders (x ∷ ts) (suc i) t h = omega (arith, held-le-holders ts i t h)

step-Inv : (limit : ℤ) (i : ℕ) (s : Shared) → Inv limit s → Inv limit (step limit i s)
unfolding step
step-Inv limit i s v = elim (Option-cases (get_elem? s.threads i)) [
  | inl missing ↦ rw (missing, step) v
  | inr (t, found) ↦
      let h = holders s.threads in
      let next = advance limit t s.active in
      let le = held-le-holders s.threads i t found in
      let counts : next.1 ≡ pos (holders (set s.threads i next.0)) = rw v.counts (
        advance-counts limit t h le
        ∙ ap pos
            (omega (arith, le, holders-set s.threads i t (advance limit t (pos h)).0 found))) in
      rw (found, step)
        (record {
          counts = counts;
          bounded = λ p.
              subst (λ a. a ≤ℤ limit) counts
                (rw v.counts (advance-bounded limit t h le p (v.bounded p)));
        })
]

run-Inv :
    (limit : ℤ) (schedule : List ℕ) (s : Shared) → Inv limit s → Inv limit (run limit schedule s)
unfolding run
run-Inv limit [] s v = v
run-Inv limit (i ∷ schedule) s v = run-Inv limit schedule (step limit i s) (step-Inv limit i s v)

abbrev pub idle : ℕ → Shared
idle n = record { active = pos 0; threads = replicate n outside }

holders-idle : (n : ℕ) → holders (replicate n outside) ≡ 0
holders-idle zero = refl
holders-idle (suc n) = omega (arith, holders-idle n)

-- However the accesses of n goroutines interleave, from the start on the counter is exactly the
-- number of goroutines with a lease, and with a positive limit it never passes the limit.
pub run-bounded :
    (limit : ℤ) (n : ℕ) (schedule : List ℕ)
    → ((run limit schedule (idle n)).active ≡ pos (holders (run limit schedule (idle n)).threads))
      × ((limit ≤ℤ pos 0) ⊎ ((run limit schedule (idle n)).active ≤ℤ limit))
run-bounded limit n schedule =
    let start : Inv limit (idle n) = record {
      counts = ap pos (sym (holders-idle n));
      bounded = λ p. rw holders-idle (omega arith);
    } in
    let v = run-Inv limit schedule (idle n) start in
    (
      v.counts,
      elim (Bool-cases (leb_ℤ limit (pos 0))) [
        | inl unlimited ↦ inl (ground arith)
        | inr limited ↦ inr (rw v.counts (v.bounded (ground arith)))
      ],
    )
