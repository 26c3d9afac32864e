-- ===== src/Config/Evidence/Validity.antt =====
-- What a configuration that passes validation says about its evidence.
use lite2api.Common.{
  text_cases, ◌↔◌, first_error-none, ◌≤◌, String, ◌≡◌, ◌≢◌, ◌⊎◌, inl, inr, Bool, true, false, ◌&&◌,
  ◌||◌, [], ◌∷◌, none, ◌==◌, arith, eq_iff, All, length, Option-cases,
}
use lite2api.Common.Assoc.{Assoc}
use lite2api.Config.Types.{CapabilityEvidence, ChannelCapability}
use lite2api.Config.Evidence.{
  parse_capability_feature_key, evidence_checks, validate_evidence, validate_features,
  validate_capability_evidence,
}

-- A fact is not verified, or names its source and its time.
abbrev pub IsSourced : CapabilityEvidence → Type 0
IsSourced e = (e.status ≢ "verified") ⊎ ((e.source ≢ "") × (e.observed_at ≢ ""))

-- A fact is about the model of its capability, or names none.
abbrev pub IsAbout : String → CapabilityEvidence → Type 0
IsAbout model e = (e.upstream_model ≡ "") ⊎ (e.upstream_model ≡ model)

-- The entry of a feature has a canonical key, whose credential and effort are those of the fact.
abbrev pub IsScoped : String → String × CapabilityEvidence → Type 0
IsScoped model f =
    ((parse_capability_feature_key f.0).valid ≡ true)
    × ((parse_capability_feature_key f.0).credential ≡ f.1.credential_id)
    × (((parse_capability_feature_key f.0).effort ≡ "auto")
        ⊎ ((parse_capability_feature_key f.0).effort ≡ f.1.reasoning_effort))
    × IsAbout model f.1
    × IsSourced f.1

unsourced :
    {P Q : Type 0} (b c d : Bool)
    → ((c ≡ true) ↔ P)
    → ((d ≡ true) ↔ Q)
    → b ≡ true
    → (b && (c || d)) ≡ false
    → (¬ P) × (¬ Q)
unsourced true false false p q e h = (λ x. cc (p.1 x), λ x. cc (q.1 x))
unsourced true true d p q e h = cc
unsourced true false true p q e h = cc
unsourced false c d p q e h = cc

module _ (rfc3339 : String → Bool) where
  validate_evidence-IsSourced :
      (e : CapabilityEvidence) → validate_evidence rfc3339 e ≡ none → IsSourced e
  unfolding validate_evidence
  validate_evidence-IsSourced e h =
      let passed = first_error-none (evidence_checks rfc3339 e) h in
      elim (text_cases e.status "verified") [
        | inr (_, other) ↦ inl other
        | inl (verified, _) ↦ inr (
            unsourced (e.status == "verified") (e.source == "") (e.observed_at == "")
              (eq_iff e.source "") (eq_iff e.observed_at "") verified passed.1.1.1.1.1.0)
      ]

  validate_features-IsScoped :
      (model : String) (fs : Assoc CapabilityEvidence)
      → validate_features rfc3339 model fs ≡ none
      → All (IsScoped model) fs
  unfolding validate_features
  validate_features-IsScoped model [] h = tt
  validate_features-IsScoped model ((k, e) ∷ fs) h =
      let scope = parse_capability_feature_key k in
      elim (Option-cases (validate_evidence rfc3339 e)) [
        | inl ok ↦ (
          (
            ground arith,
            ground (arith, eq_iff scope.credential e.credential_id),
            ground (arith, eq_iff scope.effort "auto", eq_iff scope.effort e.reasoning_effort),
            ground (arith, eq_iff e.upstream_model "", eq_iff e.upstream_model model),
            validate_evidence-IsSourced e ok,
          ),
          validate_features-IsScoped model fs (ground arith),
        )
        | inr (error, found) ↦ absurd (ground arith)
      ]

  -- A capability whose evidence passes validation has at most 64 feature facts; its own fact and
  -- each of these are about its upstream model or name none; each feature's key is canonical and
  -- agrees with the credential and the effort of the fact; and what is marked as verified names a
  -- source and a time.
  pub validate_capability_evidence_sound :
      (c : ChannelCapability)
      → validate_capability_evidence rfc3339 c ≡ none
      → (length c.features ≤ 64)
        × IsAbout c.upstream_model c.evidence
        × IsSourced c.evidence
        × All (IsScoped c.upstream_model) c.features
  unfolding validate_capability_evidence
  validate_capability_evidence_sound c h =
      elim (Option-cases (validate_evidence rfc3339 c.evidence)) [
        | inl ok ↦ (
          ground arith,
          ground (
            arith,
            eq_iff c.evidence.upstream_model "",
            eq_iff c.evidence.upstream_model c.upstream_model,
          ),
          validate_evidence-IsSourced c.evidence ok,
          validate_features-IsScoped c.upstream_model c.features (ground arith),
        )
        | inr (error, found) ↦ absurd (ground arith)
      ]
