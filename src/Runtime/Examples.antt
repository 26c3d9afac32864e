-- ===== src/Runtime/Examples.antt =====
-- Runs of the scheduler on concrete data.
use lite2api.Common.{
  get_elem?, ◌<◌, ℕ, ◌<◌, ◌≡◌, ◌⊎◌, refl, true, false, List, [], ◌∷◌, none, some, arith, ltb, eqb,
  get_elem?,
}
use lite2api.Common.Int.{pos, pos_part, ◌≤ℤ◌}
use lite2api.Config.Types.{Account}
use lite2api.Common.Assoc.{lookup}
use lite2api.Common.Sorting.{Sorted, sort_by, insert_by}
use lite2api.Config.Operations.{account_supports_operation}
use lite2api.Config.Resolve.{account_supports_target_model}
use lite2api.Requirements.{requirements_compatible}
use lite2api.Runtime.Capacity
use lite2api.Runtime.Capacity.Bounds.{run-bounded, idle, holders}
use lite2api.Runtime.Breaker.{next_attempt, new_breaker, Policy, record_success, record_failure}
use lite2api.Runtime.Breaker.Fencing.{
  Event, apply, replay, begin, failure, open_circuit_caused, success_wins, failure_wins,
  open_circuit_caused, replay, begin, failure,
}
use lite2api.Runtime.State.{
  health_at, active_at, set_active, Heap, AccountRuntime, Scheduler, no_health,
}
use lite2api.Runtime.Health.{
  first_upstream, supports, available, request_upstream_model, upstream_model, try_acquire,
}
use lite2api.Runtime.Order.{
  Candidate, order_route_target_candidates, Float64, Candidate, order_route_target_candidates,
  order_candidates,
}
use lite2api.Runtime.Order.Laws.{
  round_robin_first, priority-Sorted, PriorityLe, round_robin_first, priority-Sorted, PriorityLe,
}
use lite2api.Runtime.Targets.{Query, Selection}
use lite2api.Runtime.Select.{
  select_legacy, legacy_accounts, legacy_eligible, open_accounts, first_lease, finish_legacy,
  try_select,
}
use lite2api.Runtime.Select.Fits.{Keyed}
use lite2api.Runtime.Select.Sound.{Sound, try_select-Sound, try_select_refuses}
use lite2api.Runtime.Wait.{Round, changed, expired, selected, select_for_request, after_attempt}
use lite2api.Runtime.Wait.Rounds.{ServedIn, select_for_request-ServedIn}
use lite2api.Runtime.Reload.{new_scheduler_with_previous, release_selection}
use lite2api.Runtime.Reload.Keys.{new_scheduler_with_previous-Keyed, release_selection-try_acquire}

-- three goroutines on two leases
run-bounded_example :
    ((Capacity.run (pos 2) (0 ∷ 1 ∷ 0 ∷ 1 ∷ 2 ∷ 2 ∷ []) (idle 3)).active
      ≡ pos (holders (Capacity.run (pos 2) (0 ∷ 1 ∷ 0 ∷ 1 ∷ 2 ∷ 2 ∷ []) (idle 3)).threads))
    × ((pos 2 ≤ℤ pos 0)
        ⊎ ((Capacity.run (pos 2) (0 ∷ 1 ∷ 0 ∷ 1 ∷ 2 ∷ 2 ∷ []) (idle 3)).active ≤ℤ pos 2))
run-bounded_example = run-bounded (pos 2) 3 (0 ∷ 1 ∷ 0 ∷ 1 ∷ 2 ∷ 2 ∷ [])

abbrev policy : Policy
policy = record { threshold = pos 3; cooldown = 30 }

success_wins_example :
    let late = record_failure policy true 100 "down" 1 (record_success 2 new_breaker) in
    let early = record_success 2 (record_failure policy true 100 "down" 1 new_breaker) in
    (late.failures ≡ 0)
    × (late.circuit_until ≡ 0)
    × (early.failures ≡ 0)
    × (early.circuit_until ≡ 0)
success_wins_example =
    success_wins policy true 100 "down" 1 2 new_breaker (omega arith) (omega arith)

failure_wins_example :
    let failed = record_failure policy true 100 "down" 2 new_breaker in
    (record_success 1 failed ≡ failed) × (failed.failures ≡ 1) × (failed.circuit_until ≡ 130)
failure_wins_example =
    failure_wins policy true 100 "down" 1 2 new_breaker (omega arith) (omega arith)

abbrev forced : List Event
forced = begin ∷ failure policy true 7 "down" 1 ∷ []

open_circuit_caused_example :
    (0 < (replay forced new_breaker).failures)
    × ((replay forced new_breaker).latest_non_failure_seq
        < (replay forced new_breaker).latest_failure_seq)
unfolding replay apply record_failure next_attempt
open_circuit_caused_example = open_circuit_caused forced (omega arith)

abbrev account : Account
account = record {
  id = "a";
  name = "A";
  type = "openai";
  adapter_id = "";
  instance_id = "";
  base_url = "https://a.example";
  api_key = "k";
  api_key_env = "";
  auth_header = "";
  auth_scheme = "";
  headers = [];
  headers_env = [];
  models = [];
  model_map = [];
  capabilities = [];
  operations = [];
  priority = pos 0;
  weight = pos 1;
  concurrency = pos 2;
  enabled = true;
  proxy_url = "";
}

abbrev runtime : AccountRuntime
runtime = record { config = account; upstream_key = "k"; custom_headers = []; state = 0 }

abbrev heap : Heap
heap = record {
  states = ("a", 0) ∷ [];
  capacities = pos 0 ∷ [];
  healths = no_health ∷ [];
  broadcasts = 0;
}

abbrev scheduler : Scheduler
scheduler = record { accounts = ("a", runtime) ∷ []; routes = []; round_robin = [] }

abbrev query : Query
query = record {
  model = "m";
  operation = "openai.chat";
  session = "";
  requirements = record { features = []; reasoning_effort = ""; continuation = false };
  now = 1;
}

abbrev float : Float64
float = record { F = ℕ; of_int = pos_part; of_ℕ = λ n. n; div = λ a b. a; less = ltb; same = eqb }

abbrev selection : Selection
selection = record {
  account = runtime;
  credential = "";
  model = "m";
  reasoning_effort = "";
  key = "a";
  targeted = false;
  released = false;
}

try_select-run : (try_select float scheduler heap query none).selection ≡ some selection
unfolding first_upstream try_select select_legacy legacy_accounts legacy_eligible open_accounts
    first_lease finish_legacy order_candidates try_acquire supports available request_upstream_model
    upstream_model health_at active_at set_active Capacity.acquire account_supports_operation
    account_supports_target_model requirements_compatible lookup sort_by insert_by
try_select-run = refl

try_select-Sound_example :
    Sound scheduler heap query none (try_select float scheduler heap query none) selection
try_select-Sound_example =
    try_select-Sound float scheduler heap query none selection (refl, tt) try_select-run

-- the account's two leases are taken
abbrev full : Heap
full = record heap { capacities = pos 2 ∷ [] }

try_select-refusal : (try_select float scheduler full query none).selection ≡ none
unfolding first_upstream try_select select_legacy legacy_accounts legacy_eligible open_accounts
    first_lease finish_legacy order_candidates try_acquire supports available request_upstream_model
    upstream_model health_at active_at set_active Capacity.acquire account_supports_operation
    account_supports_target_model requirements_compatible lookup sort_by insert_by
try_select-refusal = refl

try_select_refuses_example :
    ((try_select float scheduler full query none).heap ≡ full)
    × ((try_select float scheduler full query none).excluded ≡ none)
try_select_refuses_example = try_select_refuses float scheduler full query none try_select-refusal

new_scheduler_with_previous-Keyed_example :
    Keyed
      (new_scheduler_with_previous
        (λ name. "")
        (λ i. i.api_key)
        (account ∷ [])
        []
        (some scheduler)
        heap).1.accounts
new_scheduler_with_previous-Keyed_example =
    new_scheduler_with_previous-Keyed (λ name. "") (λ i. i.api_key) (account ∷ []) []
      (some scheduler) heap

try_acquire-run : (try_acquire runtime heap).1 ≡ true
unfolding try_acquire health_at active_at set_active Capacity.acquire
try_acquire-run = refl

release_selection-try_acquire_example :
    let once = release_selection selection (try_acquire runtime heap).0 in
    let twice = release_selection once.1 once.0 in
    (once.0 ≡ record heap { broadcasts = 1 }) × (twice.0 ≡ once.0)
unfolding health_at
release_selection-try_acquire_example =
    release_selection-try_acquire selection heap refl (omega arith) try_acquire-run

abbrev candidate : ℕ → Candidate
candidate index = record {
  index = index;
  account = runtime;
  key = "";
  model = "m";
  reasoning_effort = "";
  credential = "";
}

abbrev candidates : List Candidate
candidates = candidate 0 ∷ candidate 1 ∷ candidate 2 ∷ []

round_robin_first_example :
    get_elem? (order_route_target_candidates float heap candidates "round_robin" "m" "" 5) 0
    ≡ some (candidate 1)
round_robin_first_example = round_robin_first float heap candidates "m" "" 4 (omega arith)

priority-Sorted_example :
    Sorted
      (PriorityLe float heap)
      (order_route_target_candidates float heap candidates "priority" "m" "" 0)
priority-Sorted_example = priority-Sorted float heap candidates "m" "" 0 (omega arith)

abbrev rounds : List Round
rounds =
    record { heap = record heap { capacities = pos 2 ∷ [] }; now = 10; later = 11; wake = changed }
    ∷ record { heap = heap; now = 20; later = 21; wake = expired }
    ∷ []

select_for_request-run :
    select_for_request float (pos 5) 100 query none scheduler rounds
    ≡ selected selection (record heap { capacities = pos 1 ∷ [] })
unfolding first_upstream try_select select_legacy legacy_accounts legacy_eligible open_accounts
    first_lease finish_legacy order_candidates try_acquire supports available request_upstream_model
    upstream_model health_at active_at set_active Capacity.acquire account_supports_operation
    account_supports_target_model requirements_compatible lookup sort_by insert_by
    select_for_request after_attempt
select_for_request-run = refl

select_for_request-ServedIn_example :
    ServedIn float
      (pos 5)
      100
      query
      none
      scheduler
      rounds
      selection
      (record heap { capacities = pos 1 ∷ [] })
select_for_request-ServedIn_example =
    select_for_request-ServedIn float (pos 5) 100 query none scheduler rounds selection
      (record heap { capacities = pos 1 ∷ [] }) (refl, tt) select_for_request-run
