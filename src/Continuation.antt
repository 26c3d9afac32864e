-- ===== src/Continuation.antt =====
-- internal/gateway/continuation.go: whether a native continuation has one fixed upstream.
pub mod Fixed
pub mod Fits
pub mod Found
pub mod Direct
mod Examples
use lite2api.Common.{
  ℕ, String, Bool, true, false, not, ◌&&◌, ◌||◌, List, [], ◌∷◌, Option, none, some, any, is_empty,
  contains, length, ◌==◌, eqb, if◌then◌else◌,
}
use lite2api.Common.Text.{trim_space, to_lower}
use lite2api.Common.Assoc.{Assoc, lookup}
use lite2api.Config.Types.{Account, ChannelCapability, Route, RouteTarget}
use lite2api.Config.Operations.{account_supports_operation}
use lite2api.Config.Resolve.{account_supports_target_model}
use lite2api.Requirements.{
  RequestRequirements, requirements_compatible, resolve_requested_reasoning,
  supports_requested_reasoning,
}
use lite2api.Runtime.State.{AccountRuntime, Scheduler}
use lite2api.Runtime.Health.{supports, request_upstream_model, mapped_model}

-- `owner`, the key of the map
pub record Owner : Type 0 where
  pub account_id : String
  pub upstream_model : String
  pub credential : String

-- the map and the flag that the closure `add` changes
pub record Owners : Type 0 where
  pub owners : List (Owner × AccountRuntime)
  pub stable : Bool

pub data ContinuationError : Type 0 where
  not_fixed unsupported_adapter : ContinuationError

abbrev same_owner : Owner → Owner → Bool
same_owner a b =
    a.account_id == b.account_id
    && a.upstream_model == b.upstream_model
    && a.credential == b.credential

-- `owners[o] = a`
pub put_owner :
    Owner → AccountRuntime → List (Owner × AccountRuntime) → List (Owner × AccountRuntime)
put_owner o a [] = (o, a) ∷ []
put_owner o a (e ∷ rest) =
    let later = put_owner o a rest in if same_owner e.0 o then (o, a) ∷ rest else e ∷ later

-- the loop of stableLogicalModel, from the upstream model seen so far
pub stable_from : String → List ChannelCapability → String → Bool
stable_from logical [] upstream = true
stable_from logical (c ∷ cs) upstream =
    let skip = stable_from logical cs upstream in
    let next = stable_from logical cs c.upstream_model in
    if not (c.model == logical) || c.evidence.status == "unsupported"
    then skip
    else if not (upstream == "") && not (upstream == c.upstream_model)
    then false
    else next

pub stable_logical_model : Account → String → Bool
unfolding stable_from
stable_logical_model account logical = stable_from logical account.capabilities ""

-- the closure `add`
pub add_owner :
    String
    → RequestRequirements
    → AccountRuntime
    → String
    → String
    → Bool
    → String
    → Owners
    → Owners
add_owner operation requirements a upstream_model credential fixed effort found =
    if not
      (requirements_compatible a.config upstream_model operation requirements credential effort)
    then found
    else record {
      owners =
          put_owner
            (record {
              account_id = a.config.id;
              upstream_model = upstream_model;
              credential = credential;
            })
            a found.owners;
      stable = found.stable && fixed;
    }

-- one round of the loop over the targets, with the target's account
pub add_found :
    String → RequestRequirements → Route → RouteTarget → Option AccountRuntime → Owners → Owners
add_found operation requirements route target none found = found
add_found operation requirements route target (some a) found =
    let r = resolve_requested_reasoning a.config route target requirements in
    if not a.config.enabled || not (account_supports_operation a.config operation) || not r.ok
    then found
    else add_owner operation requirements a r.model target.credential
        (route.model == "" || stable_logical_model a.config route.model) r.effort found

pub add_targets :
    Scheduler → String → RequestRequirements → Route → List RouteTarget → Owners → Owners
add_targets s operation requirements route [] found = found
add_targets s operation requirements route (t ∷ ts) found =
    add_targets s operation requirements route ts
      (add_found operation requirements route t (lookup t.account s.accounts) found)

-- whether the route allows the account; none is a model without a route
pub in_route : String → Option Route → String → AccountRuntime → Bool
in_route model none id a = supports a model
in_route model (some r) id a = r.all_accounts || contains r.accounts id

-- `route.UpstreamModel`
pub route_upstream : Option Route → String
route_upstream none = ""
route_upstream (some r) = r.upstream_model

-- the third `continue` of the loop over the accounts
pub lacks_model : RequestRequirements → AccountRuntime → String → Bool
lacks_model requirements a upstream =
    let effort = requirements.reasoning_effort in
    not (account_supports_target_model a.config upstream)
    || (not (effort == "")
        && not (effort == "auto")
        && not (supports_requested_reasoning a.config upstream effort))

-- one round of that loop
pub add_account :
    String → String → RequestRequirements → Option Route → String × AccountRuntime → Owners → Owners
add_account model operation requirements route (id, a) found =
    let fixed_model = route_upstream route in
    let upstream = request_upstream_model a model fixed_model requirements in
    if not a.config.enabled
      || not (account_supports_operation a.config operation)
      || not (in_route model route id a)
    then found
    else if lacks_model requirements a upstream
    then found
    else add_owner operation requirements a upstream ""
        (not (fixed_model == "")
          || not (mapped_model a model == "")
          || stable_logical_model a.config model)
        requirements.reasoning_effort found

pub add_accounts :
    String → String → RequestRequirements → Option Route → Assoc AccountRuntime → Owners → Owners
add_accounts model operation requirements route [] found = found
add_accounts model operation requirements route (e ∷ rest) found =
    add_accounts model operation requirements route rest
      (add_account model operation requirements route e found)

abbrev no_owners : Owners
no_owners = record { owners = []; stable = true }

pub find_owners : Scheduler → String → String → RequestRequirements → Owners
find_owners s model operation requirements = elim (lookup model s.routes) [
  | none ↦ add_accounts model operation requirements none s.accounts no_owners
  | some route ↦
      if not (is_empty route.targets)
      then add_targets s operation requirements route route.targets no_owners
      else add_accounts model operation requirements (some route) s.accounts no_owners
]

-- the test of the last loop
pub refuses_adapter : Owner × AccountRuntime → Bool
refuses_adapter (o, a) =
    let adapter = to_lower (trim_space a.config.adapter_id) in
    not (a.config.type == "openai")
    || (not (adapter == "") && not (adapter == "generic-openai"))
    || not (o.credential == "")

pub judge_owners : Owners → Option ContinuationError
unfolding refuses_adapter
judge_owners found =
    if not (eqb (length found.owners) 1) || not found.stable
    then some not_fixed
    else if any refuses_adapter found.owners
    then some unsupported_adapter
    else none

-- the error, or none
pub validate_continuation :
    Scheduler → String → String → RequestRequirements → Option ContinuationError
validate_continuation s model operation requirements =
    if not requirements.continuation
    then none
    else judge_owners (find_owners s model operation requirements)
