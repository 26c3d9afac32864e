-- ===== src/Runtime/Reload.antt =====
-- runtime.go: how a scheduler is made for a configuration, with what it takes over from the one
-- before, and what it says of its routes and models.
pub mod Keys
use lite2api.Common.{
  ℕ, ◌+◌, String, Bool, true, false, not, ◌&&◌, ◌||◌, List, [], ◌∷◌, ◌++◌, Option, none, some, any,
  is_empty, contains, length, ◌==◌, if◌then◌else◌,
}
use lite2api.Common.Int.{ℤ, pos}
use lite2api.Common.Sorting.{sort_by}
use lite2api.Common.Assoc.{Assoc, lookup, insert}
use lite2api.Config.Types.{Account, Route, RouteTarget, ChannelCapability}
use lite2api.Config.Resolve.{resolved_api_key, resolved_headers}
use lite2api.Runtime.State.{
  Identity, Health, Heap, AccountRuntime, Scheduler, no_health, health_at, or_else,
}
use lite2api.Runtime.Health.{release}
use lite2api.Runtime.Targets.{Selection}

-- newScheduler without a previous one: a new notifier and a new registry
abbrev pub empty_heap : Heap
empty_heap = record { states = []; capacities = []; healths = []; broadcasts = 0 }

pub get_or_create : String → Heap → Heap × ℕ
get_or_create id heap = elim (lookup id heap.states) [
  | some capacity ↦ (heap, capacity)
  | none ↦
      let capacity = length heap.capacities in
      (
        record heap {
          states = insert id capacity heap.states;
          capacities = heap.capacities ++ pos 0 ∷ [];
        },
        capacity,
      )
]

-- os.Getenv, and SHA-256 of the JSON text of an identity
module _ (getenv : String → String) (digest : Identity → String) where
  pub account_identity : Account → String
  account_identity account = digest (record {
    type = account.type;
    adapter_id = account.adapter_id;
    instance_id = account.instance_id;
    base_url = account.base_url;
    api_key = resolved_api_key getenv account;
    auth_header = account.auth_header;
    auth_scheme = account.auth_scheme;
    proxy_url = account.proxy_url;
    headers = resolved_headers getenv account;
  })

  -- The capacity is never nil where NewSchedulerWithPrevious calls this.
  pub new_account_runtime : Account → Option ℕ → ℕ → Heap → Heap × AccountRuntime
  unfolding account_identity
  new_account_runtime account shared capacity heap =
      let fresh : Health = record no_health {
        capacity = capacity;
        identity = account_identity account;
      } in
      let made : Heap × ℕ = elim shared [
        | some state ↦ (heap, state)
        | none ↦ (record heap { healths = heap.healths ++ fresh ∷ [] }, length heap.healths)
      ] in
      (
        made.0,
        record {
          config = account;
          upstream_key = resolved_api_key getenv account;
          custom_headers = resolved_headers getenv account;
          state = made.1;
        },
      )

  -- the state of the previous account, where its identity is the same
  pub shared_state : Option Scheduler → Heap → Account → Option ℕ
  unfolding account_identity
  shared_state none heap account = none
  shared_state (some previous) heap account = elim (lookup account.id previous.accounts) [
    | none ↦ none
    | some old ↦
        if (health_at heap old.state).identity == account_identity account
        then some old.state
        else none
  ]

  -- one round of the loop over `cfg.Accounts`
  pub add_account :
      Option Scheduler → Account → Heap × Assoc AccountRuntime → Heap × Assoc AccountRuntime
  unfolding get_or_create
  add_account previous account (heap, accounts) =
      let capacity = get_or_create account.id heap in
      let shared = shared_state previous capacity.0 account in
      let made = new_account_runtime account shared capacity.1 capacity.0 in
      (made.0, insert account.id made.1 accounts)

  pub add_accounts :
      Option Scheduler → List Account → Heap × Assoc AccountRuntime → Heap × Assoc AccountRuntime
  add_accounts previous [] built = built
  add_accounts previous (account ∷ rest) built =
      add_accounts previous rest (add_account previous account built)

  -- With a previous scheduler the notifier and the registry are shared: the heap goes on.
  pub new_scheduler_with_previous :
      List Account → Assoc Route → Option Scheduler → Heap → Heap × Scheduler
  new_scheduler_with_previous accounts routes previous heap =
      let built = add_accounts previous accounts (heap, []) in
      (built.0, record { accounts = built.1; routes = routes; round_robin = [] })

abbrev enabled_account : Scheduler → String → Bool
enabled_account s id = elim (lookup id s.accounts) [ none ↦ false | some a ↦ a.config.enabled ]

pub route_enabled : Scheduler → Route → Bool
route_enabled s route =
    if not (is_empty route.targets)
    then any (λ (t : RouteTarget). enabled_account s t.account) route.targets
    else if route.all_accounts
    then any (λ (e : String × AccountRuntime). e.1.config.enabled) s.accounts
    else any (enabled_account s) route.accounts

pub attempt_limit : Scheduler → String → ℕ → ℕ
attempt_limit s model legacy_limit = elim (lookup model s.routes) [
  | none ↦ legacy_limit
  | some route ↦ if not (is_empty route.targets) then length route.targets else legacy_limit
]

-- `Selection.Release` with the function that both branches of `trySelect` give it: the first call
-- gives the lease back and wakes the waiters.
pub release_selection : Selection → Heap → Heap × Selection
release_selection sel heap =
    let freed = release sel.account heap in
    if sel.released
    then (heap, sel)
    else (record freed { broadcasts = freed.broadcasts + 1 }, record sel { released = true })

-- `releaseAccount`, for leases that are not of a selection
pub release_account : Option AccountRuntime → Heap → Heap
release_account none heap = heap
release_account (some a) heap =
    let freed = release a heap in record freed { broadcasts = freed.broadcasts + 1 }
