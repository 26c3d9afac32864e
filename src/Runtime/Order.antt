-- ===== src/Runtime/Order.antt =====
-- runtime.go: the order in which candidates are tried.
pub mod Laws
use Prim.Native.String.{compare, ◌++◌ as append}
use text.Mathlib.Text.{is_lt}
use lite2api.Common.{
  ℕ, ◌-◌, ◌%◌, String, Bool, true, false, not, ◌&&◌, ◌||◌, List, [], ◌∷◌, ◌++◌, ◌==◌, ltb, leb, eqb,
  length, take, drop, if◌then◌else◌,
}
use lite2api.Common.Int.{ℤ, pos, leb_ℤ, ltb_ℤ, eqb_ℤ}
use lite2api.Common.Text.{trim_space, nul_text}
use lite2api.Common.Sorting.{sort_by}
use lite2api.Runtime.Hash.{at_least_one, rendezvous_score}
use lite2api.Runtime.State.{Heap, AccountRuntime, active_at, capacity_of}

-- What `load` uses of Go's float64, which the model leaves open.
pub record Float64 : Type 1 where
  pub F : Type 0
  pub of_int : ℤ → F
  pub of_ℕ : ℕ → F
  pub div : F → F → F
  pub less : F → F → Bool
  pub same : F → F → Bool

-- routeTargetCandidate
pub record Candidate : Type 0 where
  pub index : ℕ
  pub account : AccountRuntime
  pub key : String
  pub model : String
  pub reasoning_effort : String
  pub credential : String

abbrev pub text_less : String → String → Bool
text_less a b = is_lt (compare a b)

-- The rotation of round robin: the first request, with counter 1, starts at the first candidate.
pub rotate {ℓ} : {A : Type ℓ} → ℕ → List A → List A
rotate counter xs =
    let offset = if ltb 0 counter then (counter - 1) % length xs else 0 in
    drop offset xs ++ take offset xs

module _ (float : Float64) (heap : Heap) where
  open float use {F, of_int, of_ℕ, div, less, same}

  pub load : AccountRuntime → F
  load a =
      let active = of_int (active_at heap (capacity_of heap a)) in
      if leb_ℤ a.config.concurrency (pos 0)
      then div active (of_ℕ (at_least_one a.config.weight))
      else div (div active (of_int a.config.concurrency)) (of_ℕ (at_least_one a.config.weight))

  abbrev pub score : String → String → AccountRuntime → ℕ
  score session key a = rendezvous_score session key a.config.id a.config.weight

  -- the comparison of the sticky strategy with a session
  pub sticky_less : String → String → Candidate → Candidate → Bool
  sticky_less model session i j =
      let i_score = score session (append model (append nul_text i.key)) i.account in
      let j_score = score session (append model (append nul_text j.key)) j.account in
      if not (eqb i_score j_score) then ltb j_score i_score else ltb i.index j.index

  -- the last comparison: priority, ID, authored order
  pub policy_less : String → Candidate → Candidate → Bool
  policy_less strategy i j =
      let a = i.account.config in
      let b = j.account.config in
      let by_policy = not (strategy == "priority") in
      if by_policy && not (same (load i.account) (load j.account))
      then less (load i.account) (load j.account)
      else if not (eqb_ℤ a.priority b.priority)
      then ltb_ℤ a.priority b.priority
      else if not (a.id == b.id) && by_policy
      then text_less a.id b.id
      else ltb i.index j.index

  pub order_route_target_candidates : List Candidate → String → String → String → ℕ → List Candidate
  order_route_target_candidates candidates configured model session counter =
      let strategy = trim_space configured in
      if ltb (length candidates) 2 || strategy == ""
      then candidates
      else if strategy == "round_robin"
      then rotate counter candidates
      else if strategy == "sticky" && not (session == "")
      then sort_by (sticky_less model session) candidates
      else sort_by (policy_less strategy) candidates

  pub account_less : String → AccountRuntime → AccountRuntime → Bool
  account_less strategy i j =
      let a = i.config in
      let b = j.config in
      if strategy == "priority" && not (eqb_ℤ a.priority b.priority)
      then ltb_ℤ a.priority b.priority
      else if strategy == "priority" || strategy == "round_robin"
      then text_less a.id b.id
      else if not (same (load i) (load j))
      then less (load i) (load j)
      else if not (eqb_ℤ a.priority b.priority)
      then ltb_ℤ a.priority b.priority
      else text_less a.id b.id

  unfoldable pub order_candidates :
      List AccountRuntime → String → String → String → ℕ → List AccountRuntime
  order_candidates accounts strategy model session counter =
      if strategy == "sticky" && not (session == "")
      then sort_by (λ i j. ltb (score session model j) (score session model i)) accounts
      else let sorted = sort_by (account_less strategy) accounts in
        if strategy == "round_robin" && ltb 1 (length accounts)
        then rotate counter sorted
        else sorted
