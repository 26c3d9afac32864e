-- ===== src/Config/Routes/Sound.antt =====
-- A route that validates has targets that can be used.
use lite2api.Common.{
  ap, ◌∙◌, text_cases, ◌≡◌, ◌≢◌, ◌⊎◌, inl, inr, refl, sym, arith, String, true, false, List, [],
  ◌∷◌, none, some, eq_iff, length, All, All-map, Distinct, contains, map, first_error,
  first_error-none, ◌≤◌, is_empty,
}
use lite2api.Common.Text.{trim_space}
use lite2api.Config.Types.{Account, Route, RouteTarget}
use lite2api.Config.Resolve.{
  account_by_id, account_supports_target_model, valid_reasoning_effort, resolve_route_target,
}
use lite2api.Config.Checks.{first_of-none, first_in-none, none-then, trimmed, Apart, Apart-Distinct}
use lite2api.Config.Routes.{
  route_parts, target_account_check, target_checks, target_form_checks, route_form_checks,
  route_size_checks, target_identity, target_check, targets_check, route_account_check, route_check,
}

-- A target that routing can use: its account is there, and it serves the route's logical model, or
-- advertises the target's own.
pub record TargetSound (accounts : List Account) (route : Route) (target : RouteTarget)
    : Type 0 where
  pub account : Account
  pub found : account_by_id accounts target.account ≡ some account
  pub serves :
      ((route.model ≢ "") × ((resolve_route_target account route target).ok ≡ true))
      ⊎ ((route.model ≡ "")
          × (trim_space target.model ≢ "")
          × (account_supports_target_model account (trim_space target.model) ≡ true)
          × (valid_reasoning_effort target.reasoning_effort ≡ true))

pub record RouteSound (accounts : List Account) (entry : String × Route) : Type 0 where
  pub accounts_known :
      All (λ id. contains (map (λ (a : Account). a.id) accounts) id ≡ true) entry.1.accounts
  pub targets_sound : All (TargetSound accounts entry.1) entry.1.targets
  pub targets_distinct : Distinct (map (target_identity entry.1) entry.1.targets)
  pub kinds :
      (entry.1.all_accounts ≡ true)
      ⊎ (is_empty entry.1.accounts ≡ false)
      ⊎ (is_empty entry.1.targets ≡ false)
  pub few : (length entry.1.accounts ≤ 64) × (length entry.1.targets ≤ 64)

target_on-serves :
    (route : Route) (seen : List String) (target : RouteTarget) (account : Account)
    → first_error (target_checks route seen target account) ≡ none
    → (contains seen (target_identity route target) ≡ false)
      × (((route.model ≢ "") × ((resolve_route_target account route target).ok ≡ true))
          ⊎ ((route.model ≡ "")
              × (trim_space target.model ≢ "")
              × (account_supports_target_model account (trim_space target.model) ≡ true)
              × (valid_reasoning_effort target.reasoning_effort ≡ true)))
unfolding target_checks
target_on-serves route seen target account e =
    let checks = first_error-none (target_checks route seen target account) e in
    (
      checks.1.0,
      elim (text_cases route.model "") [
        | inl (t, q) ↦ inr (
          q,
          ground (arith, eq_iff (trim_space target.model) "", checks.1.1.1.0),
          ground (arith, checks.1.1.1.1.0),
          ground (arith, checks.1.1.1.1.1.0),
        )
        | inr (t, ne) ↦ inl (ne, ground (arith, checks.1.1.0))
      ],
    )

target_check-Sound :
    (accounts : List Account) (route : Route) (seen : List String) (target : RouteTarget)
    → target_check accounts route seen target ≡ none
    → (contains seen (target_identity route target) ≡ false) × TargetSound accounts route target
unfolding target_check target_account_check target_form_checks
target_check-Sound accounts route seen target e =
    let split = none-then (first_error (target_form_checks target)) _ e in
    let form = first_error-none (target_form_checks target) split.0 in
    let trim_is = trimmed target.account (ground (arith, form.1.0)) in
    elim (account_by_id accounts (trim_space target.account))
        as (λ o.
          account_by_id accounts (trim_space target.account) ≡ o
          → target_account_check route seen target o ≡ none
          → (contains seen (target_identity route target) ≡ false)
            × TargetSound accounts route target) [
              | none ↦ λ q n. cc
              | some account ↦ λ q n.
                  let on = target_on-serves route seen target account n in
                  (
                    on.0,
                    record {
                      account = account;
                      found = ap (account_by_id accounts) (sym trim_is) ∙ q;
                      serves = on.1;
                    },
                  )
            ]
      refl split.1

targets_check-Sound :
    (accounts : List Account) (route : Route) (seen : List String) (targets : List RouteTarget)
    → targets_check accounts route seen targets ≡ none
    → Apart seen (map (target_identity route) targets) × All (TargetSound accounts route) targets
unfolding targets_check
targets_check-Sound accounts route seen [] e = (tt, tt)
targets_check-Sound accounts route seen (target ∷ rest) e =
    let split =
      none-then (target_check accounts route seen target)
        (targets_check accounts route (target_identity route target ∷ seen) rest) e in
    let first = target_check-Sound accounts route seen target split.0 in
    let later =
      targets_check-Sound accounts route (target_identity route target ∷ seen) rest split.1 in
    ((first.0, later.0), (first.1, later.1))

known :
    (accounts : List Account) (id : String)
    → route_account_check accounts id ≡ none
    → contains (map (λ (a : Account). a.id) accounts) id ≡ true
unfolding route_account_check
known accounts id e = ground arith

pub route_check-Sound :
    (accounts : List Account) (entry : String × Route)
    → route_check accounts entry ≡ none
    → RouteSound accounts entry
unfolding route_check route_parts route_form_checks route_size_checks route_account_check
route_check-Sound accounts (model, route) e =
    let parts = first_of-none (route_parts accounts model route) e in
    let form = first_error-none (route_form_checks model route) parts.0 in
    let size = first_error-none (route_size_checks route) parts.1.1.1.0 in
    let targets = targets_check-Sound accounts route [] route.targets parts.1.1.1.1.0 in
    record {
      accounts_known =
          All-map (λ id q. known accounts id q) route.accounts
            (first_in-none (route_account_check accounts) route.accounts parts.1.0);
      targets_sound = targets.1;
      targets_distinct = Apart-Distinct [] (map (target_identity route) route.targets) targets.0;
      kinds = ground (arith, form.1.1.1.1.1.1.1.1.1.0);
      few = (ground (arith, size.0), ground (arith, size.0));
    }
