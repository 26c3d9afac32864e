-- ===== src/Runtime/Select/Leases.antt =====
-- Which lease the loops of `trySelect` take.
use mathlib.Core.Path.{subst}
use lite2api.Runtime.Capacity
use lite2api.Common.Int.{ℤ, pos}
use lite2api.Common.{
  ℕ, zero, suc, ap, ◌∙◌, Bool, false, set, get_elem?, if◌then◌else◌, some_eq, String, ◌≡◌, refl,
  true, ◌&&◌, List, [], ◌∷◌, none, some, arith, All, Bool-cases, inl, inr,
}
use lite2api.Runtime.State.{Heap, AccountRuntime, or_else, capacity_of, active_at, set_active}
use lite2api.Runtime.Health.{try_acquire, available}
use lite2api.Runtime.Order.{Candidate}
use lite2api.Runtime.Targets.{Query}
use lite2api.Runtime.Select.{first_lease, walk}

set-same {ℓ} :
    {A : Type ℓ} (xs : List A) (i : ℕ) (d : A) → set xs i (or_else (get_elem? xs i) d) ≡ xs
set-same [] i d = refl
set-same (x ∷ xs) zero d = refl
set-same (x ∷ xs) (suc i) d = ap (λ ys. x ∷ ys) (set-same xs i d)

refused-acquire :
    (limit active : ℤ)
    → (Capacity.acquire limit active).1 ≡ false
    → (Capacity.acquire limit active).0 ≡ active
unfolding Capacity.acquire
refused-acquire limit active h = ground arith

-- A lease that is refused leaves every counter.
refused-try_acquire :
    (a : AccountRuntime) (heap : Heap)
    → (try_acquire a heap).1 ≡ false
    → (try_acquire a heap).0 ≡ heap
unfolding try_acquire set_active active_at
refused-try_acquire a heap h =
    let capacity = capacity_of heap a in
    ap (λ (cs : List ℤ). record heap { capacities = cs })
      (ap (set heap.capacities capacity) (
          refused-acquire a.config.concurrency
            (or_else (get_elem? heap.capacities capacity) (pos 0)) h)
        ∙ set-same heap.capacities capacity (pos 0))

-- what a candidate that is passed over leaves
passed-over :
    (free : Bool) (a : AccountRuntime) (heap : Heap)
    → free && (try_acquire a heap).1 ≡ false
    → (if free then (try_acquire a heap).0 else heap) ≡ heap
passed-over true a heap h = refused-try_acquire a heap h
passed-over false a heap h = refl

-- A choice of the walk is a candidate that was free, with one more lease; a refusal leaves the heap.
pub record Leased (q : Query) (heap : Heap) (after : Heap) (a : AccountRuntime)
    (model credential : String) : Type 0 where
  pub free : available heap q.now a q.operation model credential ≡ true
  pub granted : (try_acquire a heap).1 ≡ true
  pub taken_once : after ≡ (try_acquire a heap).0

pub walk-Leased :
    (P : Candidate → Type 0) (q : Query) (cs : List Candidate) (heap : Heap) (c : Candidate)
    → All P cs
    → (walk q cs heap).chosen ≡ some c
    → P c × Leased q heap (walk q cs heap).heap c.account c.model c.credential
unfolding walk
walk-Leased P q [] heap c ps h = cc
walk-Leased P q (x ∷ cs) heap c (p, ps) h =
    elim (Bool-cases (
      available heap q.now x.account q.operation x.model x.credential
      && (try_acquire x.account heap).1)) [
        | inl both ↦ rw both (
            subst
              (λ y.
                P y × Leased q heap (try_acquire x.account heap).0 y.account y.model y.credential)
              (some_eq x c (rw both at h))
              (p, record { free = ground arith; granted = ground arith; taken_once = refl }))
        | inr neither ↦
            let same = passed-over _ x.account heap neither in
            rw (neither, same) (walk-Leased P q cs heap c ps (rw (neither, same) at h))
      ]

pub walk-refuses :
    (q : Query) (cs : List Candidate) (heap : Heap)
    → (walk q cs heap).chosen ≡ none
    → (walk q cs heap).heap ≡ heap
unfolding walk
walk-refuses q [] heap h = refl
walk-refuses q (x ∷ cs) heap h =
    elim (Bool-cases (
      available heap q.now x.account q.operation x.model x.credential
      && (try_acquire x.account heap).1)) [
        | inl both ↦ cc
        | inr neither ↦
            let same = passed-over _ x.account heap neither in
            rw (neither, same) (walk-refuses q cs heap (rw (neither, same) at h))
      ]

pub first_lease-granted :
    (P : AccountRuntime → Type 0) (heap : Heap) (accounts : List AccountRuntime)
    (a : AccountRuntime)
    → All P accounts
    → (first_lease accounts heap).0 ≡ some a
    → P a
      × ((try_acquire a heap).1 ≡ true)
      × ((first_lease accounts heap).1 ≡ (try_acquire a heap).0)
unfolding first_lease
first_lease-granted P heap [] a ps h = cc
first_lease-granted P heap (x ∷ rest) a (p, ps) h = elim (Bool-cases (try_acquire x heap).1) [
  | inl granted ↦ rw granted (
      subst
        (λ y.
          P y × ((try_acquire y heap).1 ≡ true) × ((try_acquire x heap).0 ≡ (try_acquire y heap).0))
        (some_eq x a (rw granted at h)) (p, granted, refl))
  | inr full ↦
      let same = refused-try_acquire x heap full in
      rw (full, same) (first_lease-granted P heap rest a ps (rw (full, same) at h))
]

pub first_lease-refuses :
    (heap : Heap) (accounts : List AccountRuntime)
    → (first_lease accounts heap).0 ≡ none
    → (first_lease accounts heap).1 ≡ heap
unfolding first_lease
first_lease-refuses heap [] h = refl
first_lease-refuses heap (x ∷ rest) h = elim (Bool-cases (try_acquire x heap).1) [
  | inl granted ↦ absurd (clash x (rw granted at h))
  | inr full ↦
      let same = refused-try_acquire x heap full in
      rw (full, same) (first_lease-refuses heap rest (rw (full, same) at h))
]
  where
    clash : {A : Type 0} (a : A) → some a ≡ none → ⊥
    clash a e = cc
