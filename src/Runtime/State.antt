-- ===== src/Runtime/State.antt =====
-- runtime.go: the state of the scheduler. Accounts of several configuration generations share their
-- counters and their health history through pointers, which are indices into a heap here.
use lite2api.Common.{ℕ, String, List, [], Option, none, some, get_elem?, set}
use lite2api.Common.Int.{ℤ, pos}
use lite2api.Common.Assoc.{Assoc}
use lite2api.Config.Types.{Account, Route}
use lite2api.Runtime.Breaker.{Breaker}

-- the fields that `accountIdentity` digests
pub record Identity : Type 0 where
  pub type : String
  pub adapter_id : String
  pub instance_id : String
  pub base_url : String
  pub api_key : String
  pub auth_header : String
  pub auth_scheme : String
  pub proxy_url : String
  pub headers : Assoc String

-- accountRuntimeState; `capacity` points into the heap, `breakers` is the sync.Map
pub record Health : Type 0 where
  pub capacity : ℕ
  pub identity : String
  pub total : ℕ
  pub success : ℕ
  pub latency_nanos : ℕ
  pub breakers : Assoc Breaker

-- the shared objects: `states` is the map of accountCapacityRegistry, which points into
-- `capacities`; `broadcasts` counts the generations of schedulerNotifier
pub record Heap : Type 0 where
  pub states : Assoc ℕ
  pub capacities : List ℤ
  pub healths : List Health
  pub broadcasts : ℕ

-- AccountRuntime; `state` points into `healths`
pub record AccountRuntime : Type 0 where
  pub config : Account
  pub upstream_key : String
  pub custom_headers : Assoc String
  pub state : ℕ

-- `mu` and the shared registry and notifier are left out: the heap holds them
pub record Scheduler : Type 0 where
  pub accounts : Assoc AccountRuntime
  pub routes : Assoc Route
  pub round_robin : Assoc ℕ

abbrev pub no_health : Health
no_health = record {
  capacity = 0;
  identity = "";
  total = 0;
  success = 0;
  latency_nanos = 0;
  breakers = [];
}

abbrev pub or_else {ℓ} : {A : Type ℓ} → Option A → A → A
or_else none d = d
or_else (some a) d = a

-- Pointers are followed at allocated indices only; the defaults stand for no other case.
unfoldable pub health_at : Heap → ℕ → Health
health_at heap state = or_else (get_elem? heap.healths state) no_health

unfoldable pub active_at : Heap → ℕ → ℤ
active_at heap capacity = or_else (get_elem? heap.capacities capacity) (pos 0)

-- `a.state.capacity`
abbrev pub capacity_of : Heap → AccountRuntime → ℕ
capacity_of heap a = (health_at heap a.state).capacity

unfoldable pub set_active : Heap → ℕ → ℤ → Heap
set_active heap capacity n = record heap { capacities = set heap.capacities capacity n }

pub set_health : Heap → ℕ → Health → Heap
set_health heap state h = record heap { healths = set heap.healths state h }
