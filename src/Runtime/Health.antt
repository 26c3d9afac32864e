-- ===== src/Runtime/Health.antt =====
-- runtime.go: the methods of AccountRuntime on leases, breakers and models.
use Prim.Native.String.{◌++◌ as append}
use lite2api.Common.{
  ℕ, ◌+◌, ◌%◌, String, Bool, true, not, ◌&&◌, ◌||◌, List, [], ◌∷◌, Option, none, some, any,
  is_empty, contains, ◌==◌, if◌then◌else◌,
}
use lite2api.Common.Text.{trim_space, nul_text}
use lite2api.Common.Assoc.{lookup, insert}
use lite2api.Config.Types.{Account, ChannelCapability}
use lite2api.Requirements.{RequestRequirements}
use lite2api.Runtime.Capacity
use lite2api.Runtime.Breaker.{
  Breaker, new_breaker, next_attempt, record_success, Policy, record_failure, closed_at,
}
use lite2api.Runtime.Hash.{fnv32a, two_digits}
use lite2api.Runtime.State.{
  Health, Heap, AccountRuntime, or_else, health_at, active_at, capacity_of, set_active, set_health,
}

unfoldable pub try_acquire : AccountRuntime → Heap → Heap × Bool
try_acquire a heap =
    let capacity = capacity_of heap a in
    let next = Capacity.acquire a.config.concurrency (active_at heap capacity) in
    (set_active heap capacity next.0, next.1)

unfoldable pub release : AccountRuntime → Heap → Heap
release a heap =
    let capacity = capacity_of heap a in
    set_active heap capacity (Capacity.release (active_at heap capacity))

abbrev pub max_wildcard_breaker_buckets : ℕ
max_wildcard_breaker_buckets = 64

pub breaker_key : String → String → String → String
breaker_key operation model credential =
    append operation (append nul_text (append model (append nul_text (trim_space credential))))

-- the three loops that return the model itself
pub knows_model : Account → String → Bool
knows_model account model =
    any (λ c. c == model) account.models
    || any (λ e. e.1 == model) account.model_map
    || any (λ c. c.upstream_model == model) account.capabilities

pub breaker_model_key : Account → String → String
breaker_model_key account model =
    if knows_model account model
    then model
    else append "wildcard:" (two_digits (fnv32a model % max_wildcard_breaker_buckets))

abbrev pub scope_key : Account → String → String → String → String
scope_key account operation model credential =
    breaker_key operation (breaker_model_key account model) credential

-- `breaker`: LoadOrStore of a fresh breaker
pub load_breaker : String → Health → Breaker
load_breaker key h = or_else (lookup key h.breakers) new_breaker

pub store_breaker : String → Breaker → Health → Health
store_breaker key b h = record h { breakers = insert key b h.breakers }

unfoldable pub available : Heap → ℕ → AccountRuntime → String → String → String → Bool
available heap now a operation model credential =
    a.config.enabled
    && (elim (lookup (scope_key a.config operation model credential)
        (health_at heap a.state).breakers) [ none ↦ true | some b ↦ closed_at now b ])

unfoldable pub supports : AccountRuntime → String → Bool
supports a model =
    is_empty a.config.models
    || any (λ c. c == "*" || c == model) a.config.models
    || any (λ e. e.0 == model) a.config.model_map
    || any (λ c. c.model == model) a.config.capabilities

-- the upstream model of the first capability that passes the test
unfoldable pub first_upstream : (ChannelCapability → Bool) → List ChannelCapability → Option String
first_upstream p [] = none
first_upstream p (c ∷ cs) = if p c then some c.upstream_model else first_upstream p cs

-- `a.Config.ModelMap[requested]`, empty where it is missing
abbrev pub mapped_model : AccountRuntime → String → String
mapped_model a requested = or_else (lookup requested a.config.model_map) ""

unfoldable pub upstream_model : AccountRuntime → String → String → String
upstream_model a requested route_model =
    if not (route_model == "")
    then route_model
    else if not (mapped_model a requested == "")
    then mapped_model a requested
    else or_else
        (first_upstream (λ c. c.model == requested && not (c.evidence.status == "unsupported"))
          a.config.capabilities)
        requested

-- `requestUpstreamModel` of request_requirements.go
unfoldable pub request_upstream_model :
    AccountRuntime → String → String → RequestRequirements → String
request_upstream_model a requested route_model requirements =
    let effort = requirements.reasoning_effort in
    if not (effort == "")
      && not (effort == "auto")
      && route_model == ""
      && mapped_model a requested == ""
    then or_else
        (first_upstream
          (λ c.
            c.model == requested
            && not (c.evidence.status == "unsupported")
            && contains c.reasoning_efforts effort)
          a.config.capabilities)
        (upstream_model a requested route_model)
    else upstream_model a requested route_model

-- healthAttempt: the breaker as its key, and the number of the attempt
pub record HealthAttempt : Type 0 where
  pub breaker : String
  pub sequence : ℕ

pub begin_attempt : AccountRuntime → String → String → String → Heap → Heap × HealthAttempt
begin_attempt a operation model credential heap =
    let h = health_at heap a.state in
    let key = scope_key a.config operation model credential in
    let b = next_attempt (load_breaker key h) in
    (
      set_health heap a.state (store_breaker key b h),
      record { breaker = key; sequence = b.attempt_seq },
    )

-- The attempt is none where its breaker is nil.
report_to : (Breaker → Breaker) → Option HealthAttempt → Health → Health
report_to f none h = h
report_to f (some attempt) h = store_breaker attempt.breaker (f (load_breaker attempt.breaker h)) h

sequence_of : Option HealthAttempt → ℕ
sequence_of none = 0
sequence_of (some attempt) = attempt.sequence

pub report_success : AccountRuntime → Option HealthAttempt → ℕ → Heap → Heap
unfolding report_to sequence_of
report_success a attempt elapsed heap =
    let h = health_at heap a.state in
    set_health heap a.state (
      report_to (record_success (sequence_of attempt)) attempt (record h {
        total = h.total + 1;
        success = h.success + 1;
        latency_nanos = h.latency_nanos + elapsed;
      }))

pub report_neutral : AccountRuntime → Heap → Heap
report_neutral a heap =
    let h = health_at heap a.state in set_health heap a.state (record h { total = h.total + 1 })

pub report_failure :
    AccountRuntime → Option HealthAttempt → String → Policy → Bool → ℕ → Heap → Heap
unfolding report_to sequence_of
report_failure a attempt message policy force now heap =
    let h = health_at heap a.state in
    set_health heap a.state (
      report_to (record_failure policy force now message (sequence_of attempt)) attempt
        (record h { total = h.total + 1 }))
