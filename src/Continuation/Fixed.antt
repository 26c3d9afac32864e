-- ===== src/Continuation/Fixed.antt =====
-- Which upstream model and which accounts a continuation may stay with.
use lite2api.Common.{
  ◌&&◌, contains, ◌==◌, ◌≢◌, not, not, String, ◌≡◌, ◌⊎◌, refl, true, not, ◌||◌, List, [], ◌∷◌,
  Option, none, some, All, arith, Bool-cases, inl, inr, eq_iff,
}
use lite2api.Config.Types.{Route}
use lite2api.Runtime.State.{AccountRuntime}
use lite2api.Continuation.{in_route}
use lite2api.Config.Types.{Account, ChannelCapability}
use lite2api.Runtime.Health.{supports}
use lite2api.Continuation.{stable_from, stable_logical_model}

-- The account's capabilities for a logical model that are not known as unsupported name one upstream
-- model, or none.
abbrev pub OneUpstream : List ChannelCapability → String → Type 0
OneUpstream cs logical =
    (upstream : String) × All
      (λ c.
        (c.model ≢ logical)
        ⊎ (c.evidence.status ≡ "unsupported")
        ⊎ (c.upstream_model ≡ upstream)
        ⊎ (c.upstream_model ≡ ""))
      cs

stable_from_one :
    (logical : String) (cs : List ChannelCapability) (seen : String)
    → stable_from logical cs seen ≡ true
    → (one : OneUpstream cs logical) × ((seen ≡ "") ⊎ (seen ≡ one.0))
unfolding stable_from
stable_from_one logical [] seen h = ((seen, tt), inr refl)
stable_from_one logical (c ∷ cs) seen h =
    elim (Bool-cases (not (c.model == logical) || c.evidence.status == "unsupported")) [
      | inl skip ↦
          let ((u, rest), start) = stable_from_one logical cs seen (rw skip at h) in
          (
            (
              u,
              (
                ground (arith, eq_iff c.model logical, eq_iff c.evidence.status "unsupported"),
                rest,
              ),
            ),
            start,
          )
      | inr counts ↦ elim (Bool-cases (not (seen == "") && not (seen == c.upstream_model))) [
        | inl clash ↦ cc
        | inr agrees ↦
            let ((u, rest), start) =
              stable_from_one logical cs c.upstream_model (rw (counts, agrees) at h) in
            (
              (u, (ground arith, rest)),
              ground (arith, eq_iff seen "", eq_iff seen c.upstream_model),
            )
      ]
    ]

pub stable_logical_model_one :
    (account : Account) (logical : String)
    → stable_logical_model account logical ≡ true
    → OneUpstream account.capabilities logical
unfolding stable_logical_model
stable_logical_model_one account logical h = (stable_from_one logical account.capabilities "" h).0

-- whether the model's route allows the account
abbrev pub Allowed : String → Option Route → String → AccountRuntime → Type 0
Allowed model none id a = supports a model ≡ true
Allowed model (some r) id a = (r.all_accounts ≡ true) ⊎ (contains r.accounts id ≡ true)

pub in_route-Allowed :
    (model : String) (route : Option Route) (id : String) (a : AccountRuntime)
    → in_route model route id a ≡ true
    → Allowed model route id a
unfolding in_route
in_route-Allowed model none id a h = h
in_route-Allowed model (some r) id a h = ground arith
