-- ===== src/Runtime/Order/Laws.antt =====
-- Ordering keeps the candidates; round robin and priority try them as their names say.
use mathlib.Core.List.{Perm, perm_append_comm}
use mathlib.Core.List.Perm
use mathlib.Core.Path.{subst}
use lite2api.Common.{
  if-both, ℕ, zero, suc, ◌+◌, ◌-◌, ◌%◌, ◌<◌, ◌≤◌, String, ◌≡◌, refl, ◌⊎◌, true, false, not, ◌&&◌,
  ◌||◌, List, [], ◌∷◌, ◌++◌, ◌==◌, ltb, length, take, drop, take-append-drop, get_elem?,
  if◌then◌else◌, arith, All,
}
use lite2api.Common.Int.{◌<ℤ◌}
use lite2api.Common.Text.{trim_space}
use lite2api.Common.Sorting.{sort_by, sort_by-perm, sort_by-All, sort_by-Sorted, Sorted}
use lite2api.Runtime.State.{Heap, AccountRuntime}
use lite2api.Runtime.Order.{
  Float64, Candidate, rotate, sticky_less, policy_less, order_route_target_candidates, account_less,
  order_candidates,
}

rotate-perm {ℓ} : {A : Type ℓ} (counter : ℕ) (xs : List A) → Perm (rotate counter xs) xs
unfolding rotate
rotate-perm counter xs =
    let offset = if ltb 0 counter then (counter - 1) % length xs else 0 in
    subst (λ ys. Perm (drop offset xs ++ take offset xs) ys) (take-append-drop offset xs)
      (perm_append_comm (drop offset xs) (take offset xs))

All-append {ℓ κ} :
    {A : Type ℓ} (P : A → Type κ) (front back : List A)
    → All P front
    → All P back
    → All P (front ++ back)
All-append P [] back f b = b
All-append P (a ∷ front) back (p, f) b = (p, All-append P front back f b)

All-split {ℓ κ} :
    {A : Type ℓ} (P : A → Type κ) (n : ℕ) (xs : List A)
    → All P xs
    → All P (take n xs) × All P (drop n xs)
All-split P zero xs h = (tt, h)
All-split P (suc n) [] h = (tt, tt)
All-split P (suc n) (x ∷ xs) h = let (t, d) = All-split P n xs h.1 in ((h.0, t), d)

rotate-All {ℓ κ} :
    {A : Type ℓ} (P : A → Type κ) (counter : ℕ) (xs : List A) → All P xs → All P (rotate counter xs)
unfolding rotate
rotate-All P counter xs h =
    let offset = if ltb 0 counter then (counter - 1) % length xs else 0 in
    let (t, d) = All-split P offset xs h in All-append P (drop offset xs) (take offset xs) d t

first-drop {ℓ} :
    {A : Type ℓ} (n : ℕ) (xs ys : List A)
    → n < length xs
    → get_elem? (drop n xs ++ ys) 0 ≡ get_elem? xs n
first-drop zero (x ∷ xs) ys h = refl
first-drop zero [] ys h = absurd (omega arith)
first-drop (suc n) [] ys h = absurd (omega arith)
first-drop (suc n) (x ∷ xs) ys h = first-drop n xs ys (omega arith)

module _ (float : Float64) (heap : Heap) where
  -- Ordering the targets of a route loses none and adds none, whatever the strategy.
  pub order_route_target_candidates-perm :
      (cs : List Candidate) (strategy model session : String) (counter : ℕ)
      → Perm (order_route_target_candidates float heap cs strategy model session counter) cs
  unfolding order_route_target_candidates
  order_route_target_candidates-perm cs strategy model session counter =
      let s = trim_space strategy in
      if-both (λ ys. Perm ys cs) (ltb (length cs) 2 || s == "") (Perm.refl cs)
        (if-both (λ ys. Perm ys cs) (s == "round_robin") (rotate-perm counter cs)
          (if-both (λ ys. Perm ys cs) (s == "sticky" && not (session == ""))
            (sort_by-perm (sticky_less float heap model session) cs)
            (sort_by-perm (policy_less float heap s) cs)))

  pub order_route_target_candidates-All {κ} :
      (P : Candidate → Type κ) (cs : List Candidate) (strategy model session : String) (counter : ℕ)
      → All P cs
      → All P (order_route_target_candidates float heap cs strategy model session counter)
  unfolding order_route_target_candidates
  order_route_target_candidates-All P cs strategy model session counter h =
      let s = trim_space strategy in
      if-both (λ ys. All P ys) (ltb (length cs) 2 || s == "") h
        (if-both (λ ys. All P ys) (s == "round_robin") (rotate-All P counter cs h)
          (if-both (λ ys. All P ys) (s == "sticky" && not (session == ""))
            (sort_by-All P (sticky_less float heap model session) cs h)
            (sort_by-All P (policy_less float heap s) cs h)))

  -- The legacy candidates too are only reordered.
  pub order_candidates-perm :
      (xs : List AccountRuntime) (strategy model session : String) (counter : ℕ)
      → Perm (order_candidates float heap xs strategy model session counter) xs
  unfolding order_candidates
  order_candidates-perm xs strategy model session counter =
      let sorted = sort_by-perm (account_less float heap strategy) xs in
      if-both (λ ys. Perm ys xs) (strategy == "sticky" && not (session == "")) (sort_by-perm _ xs)
        (if-both (λ ys. Perm ys xs) (strategy == "round_robin" && ltb 1 (length xs))
          (Perm.trans (rotate-perm counter (sort_by (account_less float heap strategy) xs)) sorted)
          sorted)

  pub order_candidates-All {κ} :
      (P : AccountRuntime → Type κ) (xs : List AccountRuntime) (strategy model session : String)
      (counter : ℕ)
      → All P xs
      → All P (order_candidates float heap xs strategy model session counter)
  unfolding order_candidates
  order_candidates-All P xs strategy model session counter h =
      let sorted = sort_by-All P (account_less float heap strategy) xs h in
      if-both (λ ys. All P ys) (strategy == "sticky" && not (session == "")) (sort_by-All P _ xs h)
        (if-both (λ ys. All P ys) (strategy == "round_robin" && ltb 1 (length xs))
          (rotate-All P counter (sort_by (account_less float heap strategy) xs) sorted) sorted)

  -- Round robin over two candidates or more: the request with counter k + 1 tries candidate number
  -- k modulo their number first, so consecutive requests start at consecutive candidates.
  pub round_robin_first :
      (cs : List Candidate) (model session : String) (k : ℕ)
      → 2 ≤ length cs
      → get_elem?
          (order_route_target_candidates float heap cs "round_robin" model session (k + 1))
          0
        ≡ get_elem? cs (k % length cs)
  unfolding order_route_target_candidates rotate trim_space
  round_robin_first cs model session k h =
      let small : ltb (length cs) 2 ≡ false = ground arith in
      let turned : ltb 0 (k + 1) ≡ true = ground arith in
      let back : k + 1 - 1 ≡ k = omega arith in
      rw (small, turned, back)
        (first-drop (k % length cs) cs (take (k % length cs) cs) (grind arith))

  -- The order of the priority strategy: lower numbers first, then the authored order.
  abbrev pub PriorityLe : Candidate → Candidate → Type 0
  PriorityLe i j =
      (i.account.config.priority <ℤ j.account.config.priority)
      ⊎ ((i.account.config.priority ≡ j.account.config.priority) × (i.index ≤ j.index))

  priority_before :
      (i j : Candidate) → policy_less float heap "priority" i j ≡ true → PriorityLe i j
  unfolding policy_less
  priority_before i j h = ground arith

  priority_after :
      (i j : Candidate) → policy_less float heap "priority" i j ≡ false → PriorityLe j i
  unfolding policy_less
  priority_after i j h = ground arith

  priority_trans : (i j k : Candidate) → PriorityLe i j → PriorityLe j k → PriorityLe i k
  priority_trans i j k p q = ground arith

  -- Under the priority strategy a candidate is tried only after all those of a lower priority
  -- number, and after those of the same number that stand before it in the route.
  pub priority-Sorted :
      (cs : List Candidate) (model session : String) (counter : ℕ)
      → 2 ≤ length cs
      → Sorted PriorityLe
          (order_route_target_candidates float heap cs "priority" model session counter)
  unfolding order_route_target_candidates trim_space
  priority-Sorted cs model session counter h =
      let small : ltb (length cs) 2 ≡ false = ground arith in
      rw small (
        sort_by-Sorted PriorityLe (policy_less float heap "priority") priority_trans priority_before
          priority_after cs)
