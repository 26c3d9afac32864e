-- ===== src/Continuation/Fits.antt =====
-- What the owners are that a continuation may have.
use mathlib.Core.List.{Memᴰ}
use lite2api.Common.{
  ◌≢◌, if-both, String, ◌≡◌, ◌⊎◌, Bool, true, List, [], ◌∷◌, Option, some, All, arith, Bool-cases,
  inl, inr, if-both,
}
use lite2api.Common.Assoc.{lookup}
use lite2api.Config.Types.{Route, RouteTarget}
use lite2api.Config.Operations.{account_supports_operation}
use lite2api.Requirements.{RequestRequirements, requirements_compatible}
use lite2api.Runtime.State.{AccountRuntime, Scheduler}
use lite2api.Requirements.{resolve_requested_reasoning}
use lite2api.Runtime.Health.{request_upstream_model}
use lite2api.Continuation.{route_upstream, put_owner, same_owner, add_owner, Owner, Owners}
use lite2api.Config.Resolve.{account_supports_target_model}
use lite2api.Requirements.{supports_requested_reasoning}
use lite2api.Runtime.Health.{mapped_model}
use lite2api.Continuation.Fixed.{OneUpstream, Allowed}

module _ (s : Scheduler) (model operation : String) (requirements : RequestRequirements) where
  -- An owner that a target of the route stands for: with the upstream model and the effort that are
  -- resolved for the request on that target, and the target's credential.
  pub record FromTarget (route : Route) (e : Owner × AccountRuntime) : Type 0 where
    pub target : RouteTarget
    pub listed : Memᴰ target route.targets
    pub stored : lookup target.account s.accounts ≡ some e.1
    pub resolved : (resolve_requested_reasoning e.1.config route target requirements).ok ≡ true
    pub upstream :
        e.0.upstream_model
        ≡ (resolve_requested_reasoning e.1.config route target requirements).model
    pub credential : e.0.credential ≡ target.credential
    pub compatible :
        requirements_compatible e.1.config e.0.upstream_model operation requirements
          target.credential
          (resolve_requested_reasoning e.1.config route target requirements).effort
        ≡ true
    pub fixed : (route.model ≡ "") ⊎ OneUpstream e.1.config.capabilities route.model

  -- An owner without a target: an account that the model's route allows, or that supports the model
  -- where it has no route, with the upstream model and the effort of the request.
  pub record FromAccount (route : Option Route) (e : Owner × AccountRuntime) : Type 0 where
    pub id : String
    pub stored : Memᴰ (id, e.1) s.accounts
    pub allowed : Allowed model route id e.1
    pub upstream :
        e.0.upstream_model ≡ request_upstream_model e.1 model (route_upstream route) requirements
    pub advertised : account_supports_target_model e.1.config e.0.upstream_model ≡ true
    pub effort :
        (requirements.reasoning_effort ≡ "")
        ⊎ (requirements.reasoning_effort ≡ "auto")
        ⊎ (supports_requested_reasoning e.1.config e.0.upstream_model requirements.reasoning_effort
            ≡ true)
    pub compatible :
        requirements_compatible e.1.config e.0.upstream_model operation requirements ""
          requirements.reasoning_effort
        ≡ true
    pub fixed :
        (route_upstream route ≢ "")
        ⊎ (mapped_model e.1 model ≢ "")
        ⊎ OneUpstream e.1.config.capabilities model

  pub record OwnerFits (e : Owner × AccountRuntime) : Type 0 where
    pub named : e.0.account_id ≡ e.1.config.id
    pub enabled : e.1.config.enabled ≡ true
    pub able : account_supports_operation e.1.config operation ≡ true
    pub origin :
        ((route : Route) × (lookup model s.routes ≡ some route) × FromTarget route e)
        ⊎ FromAccount (lookup model s.routes) e

  -- what holds of the owners while the flag is still set
  abbrev pub Kept : Owners → Type 0
  Kept found = found.stable ≡ true → All OwnerFits found.owners

  put_owner-fits :
      (o : Owner) (a : AccountRuntime) (found : List (Owner × AccountRuntime))
      → OwnerFits (o, a)
      → All OwnerFits found
      → All OwnerFits (put_owner o a found)
  unfolding put_owner
  put_owner-fits o a [] f h = (f, tt)
  put_owner-fits o a (e ∷ rest) f (h, hs) =
      if-both (All OwnerFits) (same_owner e.0 o) (f, hs) (h, put_owner-fits o a rest f hs)

  pub add_owner-Kept :
      (a : AccountRuntime) (upstream credential : String) (fixed : Bool) (effort : String)
      (found : Owners)
      → (requirements_compatible a.config upstream operation requirements credential effort ≡ true
          → fixed ≡ true
          → OwnerFits (
            record { account_id = a.config.id; upstream_model = upstream; credential = credential },
            a,
          ))
      → Kept found
      → Kept (add_owner operation requirements a upstream credential fixed effort found)
  unfolding add_owner
  add_owner-Kept a upstream credential fixed effort found new h =
      elim (Bool-cases
        (requirements_compatible a.config upstream operation requirements credential effort)) [
          | inr denied ↦ rw denied h
          | inl compatible ↦ rw compatible (λ stable.
              put_owner-fits _ a found.owners (new compatible (ground arith)) (h (ground arith)))
        ]
