-- ===== src/Continuation/Found.antt =====
-- The owners that the loops of `ValidateContinuation` find.
use mathlib.Core.List.{Memᴰ}
use lite2api.Common.{
  Option-cases, not, is_empty, is_empty, not, if-both, String, ◌≡◌, ◌⊎◌, refl, true, false, not,
  ◌||◌, List, [], ◌∷◌, Option, none, some, arith, Bool-cases, inl, inr, if-both, eq_iff, is_empty,
}
use lite2api.Common.Assoc.{Assoc, lookup}
use lite2api.Config.Types.{Route, RouteTarget}
use lite2api.Config.Operations.{account_supports_operation}
use lite2api.Requirements.{RequestRequirements}
use lite2api.Runtime.State.{AccountRuntime, Scheduler}
use lite2api.Requirements.{resolve_requested_reasoning}
use lite2api.Runtime.Health.{request_upstream_model}
use lite2api.Continuation.{
  find_owners, no_owners, in_route, route_upstream, lacks_model, add_account, add_accounts,
  add_found, add_targets, add_account, add_accounts, Owners, find_owners,
}
use lite2api.Config.Resolve.{account_supports_target_model}
use lite2api.Requirements.{supports_requested_reasoning}
use lite2api.Runtime.Health.{mapped_model}
use lite2api.Continuation.Fixed.{stable_logical_model_one, in_route-Allowed}
use lite2api.Continuation.Fits.{Kept, add_owner-Kept}

module _ (s : Scheduler) (model operation : String) (requirements : RequestRequirements) where
  add_found-Kept :
      (route : Route) (target : RouteTarget) (o : Option AccountRuntime) (found : Owners)
      → lookup model s.routes ≡ some route
      → Memᴰ target route.targets
      → lookup target.account s.accounts ≡ o
      → Kept s model operation requirements found
      → Kept s model operation requirements (add_found operation requirements route target o found)
  unfolding add_found
  add_found-Kept route target none found routed listed stored h = h
  add_found-Kept route target (some a) found routed listed stored h =
      elim (Bool-cases (
        not a.config.enabled
        || not (account_supports_operation a.config operation)
        || not (resolve_requested_reasoning a.config route target requirements).ok)) [
          | inl refused ↦ rw refused h
          | inr passed ↦ rw passed (
              add_owner-Kept s model operation requirements a _ target.credential _ _ found
                (λ compatible fixed. record {
                  named = refl;
                  enabled = ground arith;
                  able = ground arith;
                  origin = inl (
                    route,
                    routed,
                    record {
                      target = target;
                      listed = listed;
                      stored = stored;
                      resolved = ground arith;
                      upstream = refl;
                      credential = refl;
                      compatible = compatible;
                      fixed = ground (
                        arith,
                        eq_iff route.model "",
                        stable_logical_model_one a.config route.model,
                      );
                    },
                  );
                })
                h)
        ]

  add_targets-Kept :
      (route : Route) (targets : List RouteTarget) (found : Owners)
      → lookup model s.routes ≡ some route
      → ((t : RouteTarget) → Memᴰ t targets → Memᴰ t route.targets)
      → Kept s model operation requirements found
      → Kept s model operation requirements
          (add_targets s operation requirements route targets found)
  unfolding add_targets
  add_targets-Kept route [] found routed sub h = h
  add_targets-Kept route (t ∷ ts) found routed sub h =
      add_targets-Kept route ts _ routed (λ x m. sub x (Memᴰ.tail m))
        (add_found-Kept route t (lookup t.account s.accounts) found routed (sub t (Memᴰ.head refl))
          refl h)

  lacks_model-refused :
      (a : AccountRuntime) (upstream : String)
      → lacks_model requirements a upstream ≡ false
      → (account_supports_target_model a.config upstream ≡ true)
        × ((requirements.reasoning_effort ≡ "")
            ⊎ (requirements.reasoning_effort ≡ "auto")
            ⊎ (supports_requested_reasoning a.config upstream requirements.reasoning_effort ≡ true))
  unfolding lacks_model
  lacks_model-refused a upstream h = (
    ground arith,
    ground (
      arith,
      eq_iff requirements.reasoning_effort "",
      eq_iff requirements.reasoning_effort "auto",
    ),
  )

  add_account-Kept :
      (route : Option Route) (id : String) (a : AccountRuntime) (found : Owners)
      → lookup model s.routes ≡ route
      → Memᴰ (id, a) s.accounts
      → Kept s model operation requirements found
      → Kept s model operation requirements
          (add_account model operation requirements route (id, a) found)
  unfolding add_account
  add_account-Kept route id a found routed stored h =
      elim (Bool-cases (
        not a.config.enabled
        || not (account_supports_operation a.config operation)
        || not (in_route model route id a))) [
          | inl refused ↦ rw refused h
          | inr passed ↦
              let upstream = request_upstream_model a model (route_upstream route) requirements in
              elim (Bool-cases (lacks_model requirements a upstream)) [
                | inl lacks ↦ rw (passed, lacks) h
                | inr has ↦
                    let serves = lacks_model-refused a upstream has in
                    rw (passed, has)
                      (add_owner-Kept s model operation requirements a upstream "" _
                        requirements.reasoning_effort found
                        (λ compatible fixed. record {
                          named = refl;
                          enabled = ground arith;
                          able = ground arith;
                          origin = inr (
                              rw routed (record {
                                id = id;
                                stored = stored;
                                allowed = in_route-Allowed model route id a (ground arith);
                                upstream = refl;
                                advertised = serves.0;
                                effort = serves.1;
                                compatible = compatible;
                                fixed = ground (
                                  arith,
                                  eq_iff (route_upstream route) "",
                                  eq_iff (mapped_model a model) "",
                                  stable_logical_model_one a.config model,
                                );
                              }));
                        })
                        h)
              ]
        ]

  add_accounts-Kept :
      (route : Option Route) (accounts : Assoc AccountRuntime) (found : Owners)
      → lookup model s.routes ≡ route
      → ((e : String × AccountRuntime) → Memᴰ e accounts → Memᴰ e s.accounts)
      → Kept s model operation requirements found
      → Kept s model operation requirements
          (add_accounts model operation requirements route accounts found)
  unfolding add_accounts
  add_accounts-Kept route [] found routed sub h = h
  add_accounts-Kept route ((id, a) ∷ rest) found routed sub h =
      add_accounts-Kept route rest _ routed (λ e m. sub e (Memᴰ.tail m))
        (add_account-Kept route id a found routed (sub (id, a) (Memᴰ.head refl)) h)

  pub find_owners-Kept :
      Kept s model operation requirements (find_owners s model operation requirements)
  unfolding find_owners
  find_owners-Kept = elim (Option-cases (lookup model s.routes)) [
    | inl missing ↦
        rw (missing, find_owners)
          (add_accounts-Kept none s.accounts no_owners missing (λ e m. m) (λ h. tt))
    | inr (route, found) ↦
        rw (found, find_owners)
          (if-both (Kept s model operation requirements) (not (is_empty route.targets))
            (add_targets-Kept route route.targets no_owners found (λ t m. m) (λ h. tt))
            (add_accounts-Kept (some route) s.accounts no_owners found (λ e m. m) (λ h. tt)))
  ]
