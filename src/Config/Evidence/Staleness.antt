-- ===== src/Config/Evidence/Staleness.antt =====
-- What a change of the connection does to recorded evidence.
use lite2api.Common.{
  ◌⊎◌, ◌≢◌, inl, inr, text_cases, String, ◌≡◌, List, [], ◌∷◌, arith, eq_iff, map, All,
}
use lite2api.Common.Assoc.{Assoc}
use lite2api.Config.Types.{CapabilityEvidence, ChannelCapability, Account}
use lite2api.Config.Evidence.{
  invalidate, invalidate_capability, invalidate_account_capability_evidence,
}

-- A fact is not verified, or is about the given connection and model.
abbrev pub IsCurrent : String → String → CapabilityEvidence → Type 0
IsCurrent identity model e =
    (e.status ≢ "verified") ⊎ ((e.source_identity ≡ identity) × (e.upstream_model ≡ model))

abbrev pub IsCurrentCapability : String → ChannelCapability → Type 0
IsCurrentCapability identity c =
    IsCurrent identity c.upstream_model c.evidence
    × All (λ (f : String × CapabilityEvidence). IsCurrent identity c.upstream_model f.1) c.features

invalidate-IsCurrent :
    (identity : String) (e : CapabilityEvidence) (model : String)
    → IsCurrent identity model (invalidate identity e model)
unfolding invalidate
invalidate-IsCurrent identity e model =
    elim (text_cases (invalidate identity e model).status "verified") [
      | inr (_, other) ↦ inl other
      | inl (same, verified) ↦ inr (
          ground (
            arith,
            eq_iff e.status "verified",
            eq_iff "unknown" "verified",
            eq_iff e.source_identity identity,
            eq_iff e.upstream_model model,
          ))
    ]

features-IsCurrent :
    (identity model : String) (fs : Assoc CapabilityEvidence)
    → All
        (λ (f : String × CapabilityEvidence). IsCurrent identity model f.1)
        (map (λ (e : String × CapabilityEvidence). (e.0, invalidate identity e.1 model)) fs)
features-IsCurrent identity model [] = tt
features-IsCurrent identity model ((k, e) ∷ fs) =
    (invalidate-IsCurrent identity e model, features-IsCurrent identity model fs)

capabilities-IsCurrent :
    (identity : String) (cs : List ChannelCapability)
    → All (IsCurrentCapability identity) (map (invalidate_capability identity) cs)
unfolding invalidate_capability
capabilities-IsCurrent identity [] = tt
capabilities-IsCurrent identity (c ∷ cs) = (
  (
    invalidate-IsCurrent identity c.evidence c.upstream_model,
    features-IsCurrent identity c.upstream_model c.features,
  ),
  capabilities-IsCurrent identity cs,
)

-- After the invalidation of an account every fact that still counts as verified, of a capability or
-- of a feature, was observed on the account's present connection and for the model that it is
-- recorded under.
pub invalidate_account_capability_evidence-IsCurrent :
    (account_source_identity : Account → String) (account : Account)
    → All
        (IsCurrentCapability (account_source_identity account))
        (invalidate_account_capability_evidence account_source_identity account).capabilities
unfolding invalidate_account_capability_evidence
invalidate_account_capability_evidence-IsCurrent account_source_identity account =
    capabilities-IsCurrent (account_source_identity account) account.capabilities
