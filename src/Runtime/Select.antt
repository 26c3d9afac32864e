-- ===== src/Runtime/Select.antt =====
-- runtime.go `trySelect`: one attempt to choose an account and take a lease of it.
pub mod Fits
pub mod Leases
pub mod Sound
use Prim.Native.String.{◌++◌ as append}
use lite2api.Common.{
  ℕ, zero, suc, ◌+◌, String, Bool, true, false, not, ◌&&◌, ◌||◌, List, [], ◌∷◌, ◌++◌, Option, none,
  some, ◌==◌, ltb, length, is_empty, contains, if◌then◌else◌,
}
use lite2api.Common.Assoc.{Assoc, lookup, insert}
use lite2api.Config.Types.{Account, Route, RouteTarget}
use lite2api.Config.Operations.{anthropic_messages, account_supports_operation}
use lite2api.Config.Resolve.{Resolved, account_supports_target_model}
use lite2api.Requirements.{
  RequestRequirements, requirements_compatible, resolve_requested_reasoning,
  supports_requested_reasoning,
}
use lite2api.Runtime.State.{Heap, AccountRuntime, Scheduler, or_else}
use lite2api.Runtime.Hash.{decimal}
use lite2api.Runtime.Health.{try_acquire, available, supports, request_upstream_model}
use lite2api.Runtime.Order.{Float64, Candidate, order_route_target_candidates, order_candidates}
use lite2api.Runtime.Targets.{
  Selection, Query, Outcome, is_excluded, exclude_all, next_counter, Collected, collect_targets,
}

-- The second loop: the first candidate with a lease, the heap, the keys passed over before it, and
-- whether capacity blocked one.
pub record Walk : Type 0 where
  pub chosen : Option Candidate
  pub heap : Heap
  pub passed : List String
  pub blocked : Bool

pub walk : Query → List Candidate → Heap → Walk
walk q [] heap = record { chosen = none; heap = heap; passed = []; blocked = false }
walk q (c ∷ cs) heap =
    let free = available heap q.now c.account q.operation c.model c.credential in
    let lease = try_acquire c.account heap in
    let rest = walk q cs (if free then lease.0 else heap) in
    if free && lease.1
    then record { chosen = some c; heap = lease.0; passed = []; blocked = false }
    else record rest { passed = c.key ∷ rest.passed; blocked = free || rest.blocked }

select_candidate : Candidate → Selection
select_candidate c = record {
  account = c.account;
  credential = c.credential;
  model = c.model;
  reasoning_effort = c.reasoning_effort;
  key = c.key;
  targeted = true;
  released = false;
}

-- behind the walk
pub finish_targets :
    Scheduler → Option (List String) → List String → Bool → Assoc ℕ → Walk → Outcome
unfolding select_candidate
finish_targets s excluded skipped_keys eligible counters w = elim w.chosen [
  | none ↦ record {
    selection = none;
    eligible = eligible;
    capacity_blocked = w.blocked;
    heap = w.heap;
    round_robin = counters;
    excluded = excluded;
  }
  | some c ↦ record {
    selection = some (select_candidate c);
    eligible = eligible;
    capacity_blocked = w.blocked;
    heap = w.heap;
    round_robin = counters;
    excluded = exclude_all (skipped_keys ++ w.passed) excluded;
  }
]

abbrev pub legacy_model : Query → Option Route → AccountRuntime → String
legacy_model q route a =
    request_upstream_model a q.model (elim route [ none ↦ "" | some r ↦ r.upstream_model ])
      q.requirements

-- An account of the legacy loop: the guards before `eligible = true`.
unfoldable pub legacy_eligible :
    Query → Option (List String) → Option Route → String → AccountRuntime → Bool
legacy_eligible q excluded route id a =
    let effort = q.requirements.reasoning_effort in
    let model = legacy_model q route a in
    not (is_excluded excluded id)
    && a.config.enabled
    && account_supports_operation a.config q.operation
    && (elim route [
      | none ↦ supports a q.model
      | some r ↦ r.all_accounts || contains r.accounts id
    ])
    && account_supports_target_model a.config model
    && requirements_compatible a.config model q.operation q.requirements "" effort
    && (effort == "" || effort == "auto" || supports_requested_reasoning a.config model effort)

-- the eligible accounts, then those of them whose circuit is closed
unfoldable pub legacy_accounts :
    Query → Option (List String) → Option Route → Assoc AccountRuntime → List AccountRuntime
legacy_accounts q excluded route [] = []
legacy_accounts q excluded route ((id, a) ∷ rest) =
    let others = legacy_accounts q excluded route rest in
    if legacy_eligible q excluded route id a then a ∷ others else others

unfoldable pub open_accounts :
    Query → Option Route → Heap → List AccountRuntime → List AccountRuntime
open_accounts q route heap [] = []
open_accounts q route heap (a ∷ rest) =
    let others = open_accounts q route heap rest in
    if available heap q.now a q.operation (legacy_model q route a) "" then a ∷ others else others

-- the first account with a lease
unfoldable pub first_lease : List AccountRuntime → Heap → Option AccountRuntime × Heap
first_lease [] heap = (none, heap)
first_lease (a ∷ rest) heap =
    let lease = try_acquire a heap in
    let later = first_lease rest lease.0 in if lease.1 then (some a, lease.0) else later

unfoldable pub finish_legacy :
    Query
    → Option Route
    → Option (List String)
    → Bool
    → Bool
    → Assoc ℕ
    → Option AccountRuntime × Heap
    → Outcome
finish_legacy q route excluded eligible blocked counters (none, heap) = record {
  selection = none;
  eligible = eligible;
  capacity_blocked = blocked;
  heap = heap;
  round_robin = counters;
  excluded = excluded;
}
finish_legacy q route excluded eligible blocked counters (some a, heap) = record {
  selection = some (record {
    account = a;
    credential = "";
    model = legacy_model q route a;
    reasoning_effort = q.requirements.reasoning_effort;
    key = a.config.id;
    targeted = false;
    released = false;
  });
  eligible = eligible;
  capacity_blocked = false;
  heap = heap;
  round_robin = counters;
  excluded = excluded;
}

module _ (float : Float64) where
  -- the branch for a route with targets
  pub select_target : Scheduler → Heap → Query → Option (List String) → Route → Outcome
  select_target s heap q excluded route =
      let found = collect_targets s q excluded route 0 route.targets in
      let turn = next_counter q.model s.round_robin in
      let counted = route.strategy == "round_robin" && ltb 1 (length found.candidates) in
      let counter = if counted then turn.0 else 0 in
      finish_targets s excluded found.skipped_keys (not (is_empty found.candidates))
        (if counted then turn.1 else s.round_robin)
        (walk q
          (order_route_target_candidates float heap found.candidates route.strategy q.model
            q.session counter)
          heap)

  -- the branch for all other models
  unfoldable pub select_legacy :
      Scheduler → Heap → Query → Option (List String) → Option Route → Outcome
  select_legacy s heap q excluded route =
      let configured : String = elim route [ none ↦ "" | some r ↦ r.strategy ] in
      let strategy = if configured == "" then "least_loaded" else configured in
      let able = legacy_accounts q excluded route s.accounts in
      let candidates = open_accounts q route heap able in
      let turn = next_counter q.model s.round_robin in
      let counted = strategy == "round_robin" && not (is_empty candidates) in
      let counter = if counted then turn.0 else 0 in
      finish_legacy q route excluded (not (is_empty able)) (not (is_empty candidates))
        (if counted then turn.1 else s.round_robin)
        (first_lease (order_candidates float heap candidates strategy q.model q.session counter)
          heap)

  unfoldable pub try_select : Scheduler → Heap → Query → Option (List String) → Outcome
  try_select s heap q excluded = elim (lookup q.model s.routes) [
    | none ↦ select_legacy s heap q excluded none
    | some route ↦
        if not (is_empty route.targets)
        then select_target s heap q excluded route
        else select_legacy s heap q excluded (some route)
  ]
