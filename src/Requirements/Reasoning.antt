-- ===== src/Requirements/Reasoning.antt =====
-- What the resolution of a route target answers.
use lite2api.Common.Text.{trim_space, to_lower}
use lite2api.Requirements.{rejected, RequestRequirements, resolve_requested_reasoning, resolve_with}
use lite2api.Common.{
  ◌&&◌, not, text_cases, false, ◌==◌, ◌⊎◌, String, ◌≡◌, ◌≢◌, refl, inl, inr, true, List, [], ◌∷◌,
  contains, arith, eq_iff, Bool-cases,
}
use mathlib.Core.Bool.{false≢true}
use mathlib.Core.Path.{◌∙◌}
use mathlib.Core.List.{Memᴰ}
use lite2api.Config.Types.{RouteTarget, Route, ChannelCapability, Account}
use lite2api.Config.Resolve.{route_effort, resolve_route_target, Resolved, serves, resolve_in}

-- The capability that a resolution found: for the logical model, not known as unsupported, with the
-- effort among those that it accepts.
abbrev pub Offers : Account → String → Resolved → ChannelCapability → Type 0
Offers account logical r c =
    Memᴰ c account.capabilities
    × (c.model ≡ logical)
    × (c.evidence.status ≢ "unsupported")
    × (contains c.reasoning_efforts r.effort ≡ true)
    × (c.upstream_model ≡ r.model)

-- The effort that a text means: the text in lower case without outer white space, or "auto" where
-- that is empty.
abbrev pub Means : String → String → Type 0
Means written effort =
    ((to_lower (trim_space written) ≢ "") × (effort ≡ to_lower (trim_space written)))
    ⊎ ((to_lower (trim_space written) ≡ "") × (effort ≡ "auto"))

route_effort-Means : (written : String) → Means written (route_effort written)
unfolding route_effort
route_effort-Means written = elim (text_cases (to_lower (trim_space written)) "") [
  | inl (empty, e) ↦ inr (e, rw empty refl)
  | inr (given, other) ↦ inl (other, rw given refl)
]

serves_sound :
    (logical effort : String) (c : ChannelCapability)
    → serves logical effort c ≡ true
    → (c.model ≡ logical)
      × (c.evidence.status ≢ "unsupported")
      × (contains c.reasoning_efforts effort ≡ true)
unfolding serves
serves_sound logical effort c h = (
  ground (arith, eq_iff c.model logical),
  λ e. ground (arith, eq_iff c.evidence.status "unsupported"),
  ground arith,
)

resolve_in_sound :
    (cs : List ChannelCapability) (logical effort : String)
    → (resolve_in cs logical effort).ok ≡ true
    → (c : ChannelCapability) × Memᴰ c cs
      × (serves logical effort c ≡ true)
      × (resolve_in cs logical effort
          ≡ record { model = c.upstream_model; effort = effort; ok = true })
unfolding resolve_in
resolve_in_sound [] logical effort h = cc
resolve_in_sound (c ∷ cs) logical effort h = elim (Bool-cases (serves logical effort c)) [
  | inl yes_here ↦ (c, Memᴰ.head refl, yes_here, rw yes_here refl)
  | inr skip ↦
      let (d, m, s, e) = resolve_in_sound cs logical effort (rw skip at h) in
      (d, Memᴰ.tail m, s, rw skip e)
]

abbrev effort_set : Route → String → Route
effort_set route effort = record route { reasoning_effort = effort }

routed :
    (account : Account) (route : Route) (target : RouteTarget)
    → trim_space route.model ≢ ""
    → resolve_route_target account route target
      ≡ resolve_in account.capabilities
          (trim_space route.model)
          (route_effort route.reasoning_effort)
unfolding resolve_route_target
routed account route target h = ground (arith, eq_iff (trim_space route.model) "")

resolve_with-routed :
    (account : Account) (route : Route) (target : RouteTarget) (requested : String)
    → (route.model == "") ≡ false
    → resolve_with account route target requested ≡ resolve_route_target account route target
unfolding resolve_with
resolve_with-routed account route target requested h =
    let r = resolve_route_target account route target in ground arith

offered :
    (account : Account) (logical effort : String) (r : Resolved)
    → r ≡ resolve_in account.capabilities logical effort
    → r.ok ≡ true
    → ((c : ChannelCapability) × Offers account logical r c) × (r.effort ≡ effort)
offered account logical effort r e h =
    let (c, m, s, found) = resolve_in_sound account.capabilities logical effort (rw e at h) in
    let (same_model, supported, accepted) = serves_sound logical effort c s in
    rw (e, found) ((c, (m, same_model, supported, accepted, refl)), refl)

trim-nonempty : (s : String) → trim_space s ≢ "" → (s == "") ≡ false
unfolding trim_space
trim-nonempty s h = elim (text_cases s "") [
  | inl (_, e) ↦ absurd (h (rw e refl))
  | inr (other, _) ↦ other
]

-- The route's effort where the request asks for none, or what the request asks for and the route
-- does not contradict.
abbrev pub Chosen : String → String → String → Type 0
Chosen configured asked effort =
    (((asked ≡ "") ⊎ (asked ≡ "auto")) × Means configured effort)
    ⊎ (Means asked effort × ((configured ≡ "") ⊎ (configured ≡ "auto") ⊎ (configured ≡ asked)))

-- For a route with a logical model, a target that is resolved names the upstream model of one of the
-- account's own capabilities for that model, which is not known as unsupported and accepts the
-- resolved effort. That effort is the one the request asks for, in lower case without outer white
-- space, and the route does not configure another; or, where the request asks for none or for "auto",
-- the one the route configures. What is blank stands for "auto".
pub resolve_requested_reasoning_sound :
    (account : Account) (route : Route) (target : RouteTarget) (requirements : RequestRequirements)
    → trim_space route.model ≢ ""
    → (resolve_requested_reasoning account route target requirements).ok ≡ true
    → let r = resolve_requested_reasoning account route target requirements in
      ((c : ChannelCapability) × Offers account (trim_space route.model) r c)
      × Chosen route.reasoning_effort requirements.reasoning_effort r.effort
unfolding resolve_requested_reasoning rejected
resolve_requested_reasoning_sound account route target requirements named ok =
    let asked = requirements.reasoning_effort in
    let caps = account.capabilities in
    let logical = trim_space route.model in
    let here = trim-nonempty route.model named in
    let r = resolve_requested_reasoning account route target requirements in
    let plain =
      resolve_with-routed account route target "" here ∙ routed account route target named in
    elim (text_cases asked "auto") [
      | inl (auto, is_auto) ↦
          let e : r ≡ resolve_in caps logical (route_effort route.reasoning_effort) =
            rw auto plain in
          let (found, same) =
            offered account logical (route_effort route.reasoning_effort) r e ok in
          (found, inl (inr is_auto, rw same (route_effort-Means route.reasoning_effort)))
      | inr (not_auto, _) ↦ elim (text_cases asked "") [
        | inl (empty, is_empty) ↦
            let e : r ≡ resolve_in caps logical (route_effort route.reasoning_effort) =
              rw (not_auto, empty) (rw is_empty plain) in
            let (found, same) =
              offered account logical (route_effort route.reasoning_effort) r e ok in
            (found, inl (inl is_empty, rw same (route_effort-Means route.reasoning_effort)))
        | inr (present, _) ↦
            let conf = route.reasoning_effort in
            elim (Bool-cases (not (conf == "") && not (conf == "auto") && not (conf == asked))) [
              | inl clash ↦ absurd (false≢true (rw (not_auto, present, here, clash) at ok))
              | inr agrees ↦
                  let e : r ≡ resolve_in caps logical (route_effort asked) =
                    rw (not_auto, present, here, agrees)
                      (resolve_with-routed account (effort_set route asked) target asked here
                        ∙ routed account (effort_set route asked) target named) in
                  let (found, same) = offered account logical (route_effort asked) r e ok in
                  (
                    found,
                    inr (
                      rw same (route_effort-Means asked),
                      ground (arith, eq_iff conf "", eq_iff conf "auto", eq_iff conf asked),
                    ),
                  )
            ]
      ]
    ]
