-- ===== src/Gateway/Budget/Balance.antt =====
-- The counter of the body bytes is the sum of what the leases hold.
use mathlib.Core.Path.{subst}
use lite2api.Common.{
  ℕ, zero, suc, ◌+◌, ◌≤◌, ◌≡◌, refl, ap, ◌∙◌, arith, true, false, not, List, [], ◌∷◌, ◌++◌, Option,
  none, some, get_elem?, set, any, Bool-cases, inl, inr, ◌⊎◌, All, some_eq, none-some,
}
use lite2api.Gateway.Budget.{
  BodyByteLease, Charge, acquire, shrink_to, release, Ledger, empty_ledger, BodyStep, on_lease,
  body_step, body_steps, try_acquire_body_bytes,
}

abbrev pub total_reserved : List BodyByteLease → ℕ
total_reserved [] = 0
total_reserved (l ∷ ls) = l.reserved + total_reserved ls

-- A call moves the counter by what it moves the lease, and leaves nothing in a released lease.
abbrev Fair : (Charge → Charge) → Type 0
Fair call =
    (total : ℕ) (l : BodyByteLease)
    → l.reserved ≤ total
    → (l.released ≡ false) ⊎ (l.reserved ≡ 0)
    → ((call (total, l)).0 + l.reserved ≡ total + (call (total, l)).1.reserved)
      × (((call (total, l)).1.released ≡ false) ⊎ ((call (total, l)).1.reserved ≡ 0))

acquire-Fair : (bytes : ℕ) → Fair (λ c. (acquire bytes c).0)
unfolding acquire try_acquire_body_bytes
acquire-Fair bytes total l h e = ground arith

shrink_to-Fair : (bytes : ℕ) → Fair (shrink_to bytes)
unfolding shrink_to
shrink_to-Fair bytes total l h e = ground arith

release-Fair : Fair release
unfolding release
release-Fair total l h e = ground arith

abbrev Closed : BodyByteLease → Type 0
Closed l = (l.released ≡ false) ⊎ (l.reserved ≡ 0)

pub record Balanced (s : Ledger) : Type 0 where
  pub sum : s.body_bytes ≡ total_reserved s.leases
  pub closed : All Closed s.leases

total_reserved-set :
    (ls : List BodyByteLease) (i : ℕ) (l m : BodyByteLease)
    → get_elem? ls i ≡ some l
    → (total_reserved (set ls i m) + l.reserved ≡ total_reserved ls + m.reserved)
      × (l.reserved ≤ total_reserved ls)
total_reserved-set [] i l m e = absurd (none-some l e)
total_reserved-set (x ∷ ls) zero l m e =
    let same : x.reserved ≡ l.reserved = ap (λ (k : BodyByteLease). k.reserved) (some_eq x l e) in
    (omega (arith, same), omega (arith, same))
total_reserved-set (x ∷ ls) (suc i) l m e =
    let rest = total_reserved-set ls i l m e in (omega (arith, rest.0), omega (arith, rest.1))

All-set {ℓ κ} :
    {A : Type ℓ} (P : A → Type κ) (xs : List A) (i : ℕ) (v : A)
    → All P xs
    → P v
    → All P (set xs i v)
All-set P [] i v ps p = tt
All-set P (x ∷ xs) zero v ps p = (p, ps.1)
All-set P (x ∷ xs) (suc i) v ps p = (ps.0, All-set P xs i v ps.1 p)

All-get_elem? {ℓ κ} :
    {A : Type ℓ} (P : A → Type κ) (xs : List A) (i : ℕ) (v : A)
    → All P xs
    → get_elem? xs i ≡ some v
    → P v
All-get_elem? P [] i v ps e = absurd (none-some v e)
All-get_elem? P (x ∷ xs) zero v ps e = subst P (some_eq x v e) ps.0
All-get_elem? P (x ∷ xs) (suc i) v ps e = All-get_elem? P xs i v ps.1 e

on_found-Balanced :
    (call : Charge → Charge) (i : ℕ) (s : Ledger) (o : Option BodyByteLease)
    → get_elem? s.leases i ≡ o
    → Fair call
    → Balanced s
    → Balanced (elim o [
      | none ↦ s
      | some l ↦
          let out = call (s.body_bytes, l) in
          record { body_bytes = out.0; leases = set s.leases i out.1 }
    ])
on_found-Balanced call i s none e fair h = h
on_found-Balanced call i s (some l) e fair h =
    let after = (call (s.body_bytes, l)).1 in
    let moved = total_reserved-set s.leases i l after e in
    let kept =
      fair s.body_bytes l (omega (arith, moved.1, h.sum))
        (All-get_elem? Closed s.leases i l h.closed e) in
    record {
      sum = omega (arith, moved.0, kept.0, h.sum);
      closed = All-set Closed s.leases i after h.closed kept.1;
    }

opened-Balanced :
    (ls : List BodyByteLease) (limit : ℕ)
    → All Closed ls
    → (total_reserved (ls ++ (record { limit = limit; reserved = 0; released = false }) ∷ [])
        ≡ total_reserved ls)
      × All Closed (ls ++ (record { limit = limit; reserved = 0; released = false }) ∷ [])
opened-Balanced [] limit h = (refl, (inl refl, tt))
opened-Balanced (l ∷ ls) limit h =
    let rest = opened-Balanced ls limit h.1 in (omega (arith, rest.0), (h.0, rest.1))

body_step-Balanced : (step : BodyStep) (s : Ledger) → Balanced s → Balanced (body_step step s)
unfolding body_step on_lease
body_step-Balanced (BodyStep.opens limit) s h =
    let opened = opened-Balanced s.leases limit h.closed in
    record { sum = omega (arith, opened.0, h.sum); closed = opened.1 }
body_step-Balanced (BodyStep.acquires i bytes) s h =
    on_found-Balanced (λ c. (acquire bytes c).0) i s (get_elem? s.leases i) refl
      (acquire-Fair bytes) h
body_step-Balanced (BodyStep.shrinks i bytes) s h =
    on_found-Balanced (shrink_to bytes) i s (get_elem? s.leases i) refl (shrink_to-Fair bytes) h
body_step-Balanced (BodyStep.releases i) s h =
    on_found-Balanced release i s (get_elem? s.leases i) refl release-Fair h

body_steps-run : (steps : List BodyStep) (s : Ledger) → Balanced s → Balanced (body_steps steps s)
unfolding body_steps
body_steps-run [] s h = h
body_steps-run (step ∷ steps) s h =
    body_steps-run steps (body_step step s) (body_step-Balanced step s h)

released-total :
    (ls : List BodyByteLease)
    → All Closed ls
    → any (λ (l : BodyByteLease). not l.released) ls ≡ false
    → total_reserved ls ≡ 0
released-total [] h e = refl
released-total (l ∷ ls) h e = let rest = released-total ls h.1 (ground arith) in ground (arith, h.0)

-- However the calls of several requests on the shared budget interleave, the counter of body bytes
-- is the sum of what the leases of the requests hold; and once each lease is released, it is 0.
pub body_steps-Balanced :
    (steps : List BodyStep)
    → ((body_steps steps empty_ledger).body_bytes
        ≡ total_reserved (body_steps steps empty_ledger).leases)
      × ((any (λ (l : BodyByteLease). not l.released) (body_steps steps empty_ledger).leases ≡ true)
          ⊎ ((body_steps steps empty_ledger).body_bytes ≡ 0))
body_steps-Balanced steps =
    let s = body_steps steps empty_ledger in
    let h = body_steps-run steps empty_ledger (record { sum = refl; closed = tt }) in
    (
      h.sum,
      elim (Bool-cases (any (λ (l : BodyByteLease). not l.released) s.leases)) [
        | inl some_open ↦ inl some_open
        | inr all_closed ↦ inr (h.sum ∙ released-total s.leases h.closed all_closed)
      ],
    )
