-- ===== src/Config/Validate/Sound.antt =====
-- A configuration that validates has what routing relies on.
use lite2api.Common.{◌≡◌, ◌≢◌, [], none, All, All-map, Distinct, map}
use lite2api.Common.Text.{trim_space}
use lite2api.Config.Types.{Account}
use lite2api.Config.Server.{Config, Host}
use lite2api.Config.Checks.{first_of-none, first_in-none, Apart-Distinct}
use lite2api.Config.Accounts.Sound.{accounts_check-Apart}
use lite2api.Config.Routes.{route_check}
use lite2api.Config.Routes.Sound.{RouteSound, route_check-Sound}
use lite2api.Config.Validate.{validate, validate_parts}

pub record Sound (c : Config) : Type 0 where
  pub ids_distinct : Distinct (map (λ (a : Account). a.id) c.accounts)
  pub ids_given : All (λ (a : Account). (a.id ≢ "") × (trim_space a.id ≡ a.id)) c.accounts
  pub routes_sound : All (RouteSound c.accounts) c.routes

-- A valid configuration has distinct account ids, given and trimmed; each of its routes names at
-- most 64 accounts and 64 targets, and accounts that exist only; and each target of a route is on an
-- account that exists and serves the route's logical model or advertises the target's own, and
-- means something else than the other targets of its route.
pub validate-Sound : (host : Host) (c : Config) → validate host c ≡ none → Sound c
unfolding validate validate_parts
validate-Sound host c e =
    let parts = first_of-none (validate_parts host c) e in
    let accounts =
      accounts_check-Apart host c.server.allow_private_http_upstream [] c.accounts
        parts.1.1.1.1.0 in
    record {
      ids_distinct = Apart-Distinct [] _ accounts.0;
      ids_given = accounts.1;
      routes_sound =
          All-map (route_check-Sound c.accounts) c.routes
            (first_in-none (route_check c.accounts) c.routes parts.1.1.1.1.1.0);
    }
