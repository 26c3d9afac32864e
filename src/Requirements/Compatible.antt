-- ===== src/Requirements/Compatible.antt =====
-- When a source may be tried: the negative facts are the only ones that exclude it.
use lite2api.Common.Assoc.{lookup}
use lite2api.Config.Evidence.{capability_feature_key}
use lite2api.Common.{
  Option-cases, some, ◌⊎◌, String, ◌≡◌, ◌≢◌, ◌↔◌, refl, inl, inr, Bool, true, false, List, [], ◌∷◌,
  any, arith, eq_iff, All, any-false, any-false_of, All-map, All-zip, All-swap, text_cases,
}
use lite2api.Config.Types.{CapabilityEvidence, ChannelCapability, Account}
use lite2api.Requirements.{
  RequestRequirements, denies, feature_keys, excludes_model, excludes_feature,
  requirements_compatible,
}

-- No negative fact about the model, and none about one of the features under any of the keys.
abbrev Silent : String → String → String → String → List String → ChannelCapability → Type 0
Silent upstream_model operation effort credential features c =
    c.upstream_model ≡ upstream_model
    → (c.evidence.status ≢ "unsupported")
      × All
          (λ feature.
            All (λ key. denies c key ≡ false) (feature_keys operation feature effort credential))
          features

module _ (upstream_model operation effort credential : String) (c : ChannelCapability) where
  not-excludes_model :
      excludes_model upstream_model c ≡ false
      → c.upstream_model ≡ upstream_model
      → c.evidence.status ≢ "unsupported"
  unfolding excludes_model
  not-excludes_model h e s =
      ground (arith, eq_iff c.upstream_model upstream_model, eq_iff c.evidence.status "unsupported")

  not-excludes_feature :
      (feature : String)
      → excludes_feature upstream_model operation effort credential feature c ≡ false
      → c.upstream_model ≡ upstream_model
      → All (λ key. denies c key ≡ false) (feature_keys operation feature effort credential)
  unfolding excludes_feature
  not-excludes_feature feature h e =
      any-false (denies c) (feature_keys operation feature effort credential)
        (rw ((eq_iff c.upstream_model upstream_model).1 e) at h)

  Silent-of :
      (features : List String)
      → excludes_model upstream_model c ≡ false
      → All (λ f. excludes_feature upstream_model operation effort credential f c ≡ false) features
      → Silent upstream_model operation effort credential features c
  Silent-of features m fs e =
      (not-excludes_model m e, All-map (λ f h. not-excludes_feature f h e) features fs)

  of_Silent :
      (features : List String)
      → Silent upstream_model operation effort credential features c
      → (excludes_model upstream_model c ≡ false)
        × All
            (λ f. excludes_feature upstream_model operation effort credential f c ≡ false)
            features
  unfolding excludes_model excludes_feature
  of_Silent features p = elim (text_cases c.upstream_model upstream_model) [
    | inl (same, e) ↦ (
      ground (arith, p e, eq_iff c.evidence.status "unsupported"),
      All-map
          (λ f h. rw same (any-false_of (denies c) (feature_keys operation f effort credential) h))
          features (p e).1,
    )
    | inr (other, _) ↦ (rw other refl, rw other (all_refl features))
  ]
    where
      all_refl : (fs : List String) → All (λ f. ◌≡◌ {A = Bool} false false) fs
      all_refl [] = tt
      all_refl (f ∷ fs) = (refl, all_refl fs)

-- The capability has no fact "unsupported" about the feature on this interface: none that is
-- recorded for every effort ("auto") or this one, for every credential ("") or this one.
abbrev pub Unmarked : String → String → String → ChannelCapability → String → Type 0
Unmarked operation effort credential c feature =
    (recorded pinned : String) (evidence : CapabilityEvidence)
    → (recorded ≡ "auto") ⊎ (recorded ≡ effort)
    → (pinned ≡ "") ⊎ (pinned ≡ credential)
    → lookup (capability_feature_key operation feature recorded pinned) c.features ≡ some evidence
    → evidence.status ≢ "unsupported"

Undenied : ChannelCapability → String → Type 0
Undenied c key =
    (evidence : CapabilityEvidence)
    → lookup key c.features ≡ some evidence
    → evidence.status ≢ "unsupported"

to_Undenied : (c : ChannelCapability) (key : String) → denies c key ≡ false → Undenied c key
unfolding denies Undenied
to_Undenied c key h evidence found bad =
    ground (arith, eq_iff evidence.status "unsupported", rw (found, denies) at h)

of_Undenied : (c : ChannelCapability) (key : String) → Undenied c key → denies c key ≡ false
unfolding denies Undenied
of_Undenied c key h = elim (Option-cases (lookup key c.features)) [
  | inl missing ↦ rw (missing, denies) refl
  | inr (evidence, found) ↦
      rw (found, denies) (ground (arith, h evidence found, eq_iff evidence.status "unsupported"))
]

module _ (operation effort credential : String) (c : ChannelCapability) (feature : String) where
  to_Unmarked :
      All (λ key. denies c key ≡ false) (feature_keys operation feature effort credential)
      → Unmarked operation effort credential c feature
  unfolding feature_keys Undenied
  to_Unmarked h recorded pinned evidence e p = elim e [
    | inl every ↦ elim p [
      | inl free ↦ rw (every, free) (to_Undenied c _ h.0 evidence)
      | inr own ↦ rw (every, own) (to_Undenied c _ h.1.1.0 evidence)
    ]
    | inr here ↦ elim p [
      | inl free ↦ rw (here, free) (to_Undenied c _ h.1.0 evidence)
      | inr own ↦ rw (here, own) (to_Undenied c _ h.1.1.1.0 evidence)
    ]
  ]

  of_Unmarked :
      Unmarked operation effort credential c feature
      → All (λ key. denies c key ≡ false) (feature_keys operation feature effort credential)
  unfolding feature_keys Undenied
  of_Unmarked h = (
    of_Undenied c _ (λ ev. h "auto" "" ev (inl refl) (inl refl)),
    (
      of_Undenied c _ (λ ev. h effort "" ev (inr refl) (inl refl)),
      (
        of_Undenied c _ (λ ev. h "auto" credential ev (inl refl) (inr refl)),
        (of_Undenied c _ (λ ev. h effort credential ev (inr refl) (inr refl)), tt),
      ),
    ),
  )

-- The capability is of another model, or no negative fact is about its model or a feature.
abbrev pub Permits : String → String → String → String → List String → ChannelCapability → Type 0
Permits upstream_model operation effort credential features c =
    (c.upstream_model ≢ upstream_model)
    ⊎ ((c.evidence.status ≢ "unsupported") × All (Unmarked operation effort credential c) features)

to_Permits :
    (model operation effort credential : String) (fs : List String) (c : ChannelCapability)
    → Silent model operation effort credential fs c
    → Permits model operation effort credential fs c
to_Permits model operation effort credential fs c h = elim (text_cases c.upstream_model model) [
  | inl (_, same) ↦
      inr ((h same).0, All-map (to_Unmarked operation effort credential c) fs (h same).1)
  | inr (_, other) ↦ inl other
]

of_Permits :
    (model operation effort credential : String) (fs : List String) (c : ChannelCapability)
    → Permits model operation effort credential fs c
    → Silent model operation effort credential fs c
of_Permits model operation effort credential fs c (inl other) same = absurd (other same)
of_Permits model operation effort credential fs c (inr allowed) same =
    (allowed.0, All-map (of_Unmarked operation effort credential c) fs allowed.1)

requirements_compatible-Silent :
    (account : Account) (upstream_model operation : String) (requirements : RequestRequirements)
    (credential effort : String)
    → (requirements_compatible account upstream_model operation requirements credential effort
        ≡ true)
      ↔ All
          (Silent upstream_model operation effort credential ("call" ∷ requirements.features))
          account.capabilities
unfolding requirements_compatible
requirements_compatible-Silent account model operation requirements credential effort =
    let cs = account.capabilities in
    let fs = "call" ∷ requirements.features in
    let by_feature =
      λ (f : String). any (excludes_feature model operation effort credential f) cs in
    (
      λ h.
          let m = any-false (excludes_model model) cs (ground arith) in
          let f = any-false by_feature fs (ground arith) in
          let swapped =
            All-swap
              (λ (x : String) (c : ChannelCapability).
                excludes_feature model operation effort credential x c ≡ false)
              fs cs (All-map (λ x k. any-false _ cs k) fs f) in
          All-map (λ c k. Silent-of model operation effort credential c fs k.0 k.1) cs
            (All-zip _ _ cs m swapped),
      λ p.
          let q = All-map (λ c k. of_Silent model operation effort credential c fs k) cs p in
          let m = any-false_of (excludes_model model) cs (All-map (λ c k. k.0) cs q) in
          let swapped =
            All-swap
              (λ (c : ChannelCapability) (x : String).
                excludes_feature model operation effort credential x c ≡ false)
              cs fs (All-map (λ c k. k.1) cs q) in
          let f = any-false_of by_feature fs (All-map (λ x k. any-false_of _ cs k) fs swapped) in
          rw (m, f) refl,
    )

-- A source may be tried exactly if no capability that maps to the upstream model carries a negative
-- fact, one with the status "unsupported": not about the model as a whole, and not about a call or
-- one of the required features on this interface, whether recorded for any effort or this one, for any
-- credential or this one.
pub requirements_compatible_iff :
    (account : Account) (upstream_model operation : String) (requirements : RequestRequirements)
    (credential effort : String)
    → (requirements_compatible account upstream_model operation requirements credential effort
        ≡ true)
      ↔ All
          (Permits upstream_model operation effort credential ("call" ∷ requirements.features))
          account.capabilities
requirements_compatible_iff account model operation requirements credential effort =
    let fs = "call" ∷ requirements.features in
    let exact =
      requirements_compatible-Silent account model operation requirements credential effort in
    (
      λ h.
          All-map (to_Permits model operation effort credential fs) account.capabilities
            (exact.0 h),
      λ p.
          exact.1
            (All-map (of_Permits model operation effort credential fs) account.capabilities p),
    )
