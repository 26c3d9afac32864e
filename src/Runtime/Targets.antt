-- ===== src/Runtime/Targets.antt =====
-- runtime.go `trySelect`: the request, the result, and the first loop, over the targets of a route.
use Prim.Native.String.{◌++◌ as append}
use lite2api.Common.{
  ℕ, ◌+◌, String, Bool, false, not, ◌&&◌, ◌||◌, List, [], ◌∷◌, ◌++◌, Option, none, some, ◌==◌,
  contains, if◌then◌else◌,
}
use lite2api.Common.Assoc.{Assoc, lookup, insert}
use lite2api.Config.Types.{Route, RouteTarget}
use lite2api.Config.Operations.{anthropic_messages, account_supports_operation}
use lite2api.Requirements.{
  RequestRequirements, requirements_compatible, resolve_requested_reasoning,
}
use lite2api.Runtime.State.{Heap, AccountRuntime, Scheduler, or_else}
use lite2api.Runtime.Hash.{decimal}
use lite2api.Runtime.Order.{Candidate}

-- Selection; `released` is the state of its sync.Once
pub record Selection : Type 0 where
  pub account : AccountRuntime
  pub credential : String
  pub model : String
  pub reasoning_effort : String
  pub key : String
  pub targeted : Bool
  pub released : Bool

-- What one call is asked for: its arguments and the time that it reads.
pub record Query : Type 0 where
  pub model : String
  pub operation : String
  pub session : String
  pub requirements : RequestRequirements
  pub now : ℕ

-- The results of a call with what it leaves behind: `excluded` is none for a nil map.
pub record Outcome : Type 0 where
  pub selection : Option Selection
  pub eligible : Bool
  pub capacity_blocked : Bool
  pub heap : Heap
  pub round_robin : Assoc ℕ
  pub excluded : Option (List String)

abbrev pub is_excluded : Option (List String) → String → Bool
is_excluded none key = false
is_excluded (some keys) key = contains keys key

-- the loop that adds the skipped keys to `excluded`
pub exclude_all : List String → Option (List String) → Option (List String)
exclude_all skipped none = none
exclude_all skipped (some keys) = some (skipped ++ keys)

pub route_target_key : ℕ → RouteTarget → String
route_target_key index target = append "target:" (
    append (decimal index) (
      append ":" (
        append target.account (
          append ":" (
            append target.credential
              (append ":" (append target.model (append ":" target.reasoning_effort))))))))

-- `counter`: the new value, and the map with it
pub next_counter : String → Assoc ℕ → ℕ × Assoc ℕ
next_counter model counters =
    let n = or_else (lookup model counters) 0 + 1 in (n, insert model n counters)

-- What the first loop makes of a target.
pub data Verdict : Type 0 where
  ignored skipped : Verdict
  taken : Candidate → Verdict

-- the second half, where the account is there, enabled, and has the operation
unfoldable pub judge_model : Query → Route → ℕ → RouteTarget → AccountRuntime → Verdict
judge_model q route index target account =
    let r = resolve_requested_reasoning account.config route target q.requirements in
    let refused =
      q.operation == anthropic_messages && not (r.effort == "") && not (r.effort == "auto") in
    if not r.ok
      || refused
      || not (
          requirements_compatible account.config r.model q.operation q.requirements
            target.credential r.effort)
    then skipped
    else taken (record {
      index = index;
      account = account;
      key = route_target_key index target;
      model = r.model;
      reasoning_effort = r.effort;
      credential = target.credential;
    })

unfoldable pub judge_target :
    Scheduler → Query → Option (List String) → Route → ℕ → RouteTarget → Verdict
judge_target s q excluded route index target =
    if is_excluded excluded (route_target_key index target)
    then ignored
    else elim (lookup target.account s.accounts) [
      | none ↦ skipped
      | some account ↦
          if not account.config.enabled
            || not (account_supports_operation account.config q.operation)
          then skipped
          else judge_model q route index target account
    ]

-- `skipped` and `candidates` behind the first loop; `eligible` is set where a candidate is taken
pub record Collected : Type 0 where
  pub skipped_keys : List String
  pub candidates : List Candidate

unfoldable pub collect_verdict : String → Verdict → Collected → Collected
collect_verdict key ignored rest = rest
collect_verdict key skipped rest = record rest { skipped_keys = key ∷ rest.skipped_keys }
collect_verdict key (taken c) rest = record rest { candidates = c ∷ rest.candidates }

unfoldable pub collect_targets :
    Scheduler → Query → Option (List String) → Route → ℕ → List RouteTarget → Collected
collect_targets s q excluded route index [] = record { skipped_keys = []; candidates = [] }
collect_targets s q excluded route index (target ∷ targets) =
    collect_verdict (route_target_key index target) (judge_target s q excluded route index target)
      (collect_targets s q excluded route (index + 1) targets)
