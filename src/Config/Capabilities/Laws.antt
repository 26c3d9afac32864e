-- ===== src/Config/Capabilities/Laws.antt =====
-- InferCodexCapabilities lists each logical model once, in the order of first appearance.
use mathlib.Core.Path.{ap₂, ◌∙◌}
use lite2api.Common.{
  eq_refl, Option-cases, sym, map, ap, String, ◌≡◌, refl, Bool, true, false, not, ◌||◌, List, [],
  ◌∷◌, ◌++◌, Option, none, some, ◌==◌, contains, arith, eq_iff, if◌then◌else◌, Bool-cases, inl, inr,
  Distinct, Distinct-snoc, contains-append,
}
use lite2api.Common.Text.{trim_space}
use lite2api.Common.Assoc.{lookup, lookup-insert}
use lite2api.Config.Types.{ChannelCapability}
use lite2api.Config.Capabilities.{
  union_strings, Inferred, is_codex_model_id, codex_logical_model, codex_candidate, union_from,
  merge_candidate, add_candidate, infer_step, infer_loop, collect, infer_codex_capabilities,
}

abbrev is_some {ℓ} : {A : Type ℓ} → Option A → Bool
is_some none = false
is_some (some a) = true

-- The logical model of a recognised model ID.
pub logical_of : String → List String
logical_of raw =
    let id = trim_space raw in
    if id == "" || id == "*" || not (is_codex_model_id id)
    then []
    else if codex_logical_model id == ""
    then []
    else codex_logical_model id ∷ []

-- The logical models of the recognised model IDs, with repetitions.
pub logical_models : List String → List String
logical_models [] = []
logical_models (raw ∷ models) = logical_of raw ++ logical_models models

union_from-append :
    (xs ys zs : List String) → union_from xs (ys ++ zs) ≡ union_from (union_from xs ys) zs
unfolding union_from
union_from-append xs [] zs = refl
union_from-append xs (y ∷ ys) zs =
    union_from-append (if contains xs y then xs else xs ++ y ∷ []) ys zs

union_from-Distinct : (xs ys : List String) → Distinct xs → Distinct (union_from xs ys)
unfolding union_from
union_from-Distinct xs [] d = d
union_from-Distinct xs (y ∷ ys) d = elim (Bool-cases (contains xs y)) [
  | inl old ↦ rw old (union_from-Distinct xs ys d)
  | inr new ↦ rw new (union_from-Distinct (xs ++ y ∷ []) ys (Distinct-snoc xs y d new))
]

record Inv (s : Inferred) : Type 0 where
  keyed : (k : String) (c : ChannelCapability) → lookup k s.by_logical ≡ some c → c.model ≡ k
  present : (k : String) → contains s.order k ≡ is_some (lookup k s.by_logical)

add_candidate-order :
    (s : Inferred) (c : ChannelCapability)
    → Inv s
    → (add_candidate s c (lookup c.model s.by_logical)).order
      ≡ (if contains s.order c.model then s.order else s.order ++ c.model ∷ [])
unfolding add_candidate
add_candidate-order s c v = ground (arith, v.present c.model)

add_candidate-keyed :
    (s : Inferred) (c : ChannelCapability)
    → Inv s
    → (o : Option ChannelCapability) → lookup c.model s.by_logical ≡ o
    → (k : String) (d : ChannelCapability) → lookup k (add_candidate s c o).by_logical ≡ some d
    → d.model ≡ k
unfolding add_candidate merge_candidate
add_candidate-keyed s c v none e k d h =
    ground (arith, lookup-insert c.model k c s.by_logical, eq_iff c.model k, v.keyed k d)
add_candidate-keyed s c v (some b) e k d h = ground (
  arith,
  lookup-insert c.model k (merge_candidate b c) s.by_logical,
  eq_iff c.model k,
  v.keyed k d,
  v.keyed c.model b,
)

add_candidate-present :
    (s : Inferred) (c : ChannelCapability)
    → Inv s
    → (o : Option ChannelCapability) → lookup c.model s.by_logical ≡ o
    → (k : String)
    → contains (add_candidate s c o).order k ≡ is_some (lookup k (add_candidate s c o).by_logical)
unfolding add_candidate
add_candidate-present s c v none e k = ground (
  arith,
  contains-append s.order (c.model ∷ []) k,
  lookup-insert c.model k c s.by_logical,
  v.present k,
)
add_candidate-present s c v (some b) e k = ground (
  arith,
  lookup-insert c.model k (merge_candidate b c) s.by_logical,
  eq_iff c.model k,
  v.present k,
)

add_candidate-Inv :
    (s : Inferred) (c : ChannelCapability)
    → Inv s
    → Inv (add_candidate s c (lookup c.model s.by_logical))
add_candidate-Inv s c v = record {
  keyed = add_candidate-keyed s c v (lookup c.model s.by_logical) refl;
  present = add_candidate-present s c v (lookup c.model s.by_logical) refl;
}

infer_step-Inv : (s : Inferred) (raw : String) → Inv s → Inv (infer_step s raw)
unfolding infer_step
infer_step-Inv s raw v =
    let id = trim_space raw in
    elim (Bool-cases (id == "" || id == "*" || not (is_codex_model_id id))) [
      | inl skip ↦ rw skip v
      | inr take ↦ elim (Bool-cases ((codex_candidate id).model == "")) [
        | inl nameless ↦ rw (take, nameless) v
        | inr named ↦ rw (take, named) (add_candidate-Inv s (codex_candidate id) v)
      ]
    ]

infer_loop-Inv : (s : Inferred) (models : List String) → Inv s → Inv (infer_loop s models)
unfolding infer_loop
infer_loop-Inv s [] v = v
infer_loop-Inv s (raw ∷ models) v =
    infer_loop-Inv (infer_step s raw) models (infer_step-Inv s raw v)

infer_step-order :
    (s : Inferred) (raw : String)
    → Inv s
    → (infer_step s raw).order ≡ union_from s.order (logical_of raw)
unfolding infer_step logical_of union_from codex_candidate
infer_step-order s raw v =
    let id = trim_space raw in
    elim (Bool-cases (id == "" || id == "*" || not (is_codex_model_id id))) [
      | inl skip ↦ rw skip refl
      | inr take ↦ elim (Bool-cases (codex_logical_model id == "")) [
        | inl nameless ↦ rw (take, nameless) refl
        | inr named ↦ rw (take, named) (add_candidate-order s (codex_candidate id) v)
      ]
    ]

infer_loop-order :
    (s : Inferred) (models : List String)
    → Inv s
    → (infer_loop s models).order ≡ union_from s.order (logical_models models)
unfolding infer_loop logical_models
infer_loop-order s [] v = unfold union_from in refl
infer_loop-order s (raw ∷ models) v =
    infer_loop-order (infer_step s raw) models (infer_step-Inv s raw v)
    ∙ ap (λ o. union_from o (logical_models models)) (infer_step-order s raw v)
    ∙ sym (union_from-append s.order (logical_of raw) (logical_models models))

collect-models :
    (s : Inferred) (ks : List String)
    → Inv s
    → ((k : String) → contains ks k ≡ true → contains s.order k ≡ true)
    → map (λ (c : ChannelCapability). c.model) (collect s.by_logical ks) ≡ ks
unfolding collect
collect-models s [] v h = refl
collect-models s (k ∷ ks) v h =
    let ih = collect-models s ks v (λ j e. h j (ground arith)) in
    elim (Option-cases (lookup k s.by_logical)) [
      | inl none_there ↦ ground (arith, h k, eq_refl k, v.present k)
      | inr (c, found) ↦ rw (found, map) (ap₂ ◌∷◌ (v.keyed k c found) ih)
    ]

Inv-empty : Inv (record { by_logical = []; order = [] })
Inv-empty = record { keyed = λ k c e. unfold lookup in cc e; present = λ k. unfold lookup in refl }

-- The logical models that discovery lists are those of the recognised model IDs, in the order of
-- their first appearance, and none is listed twice.
pub infer_codex_capabilities-models :
    (models : List String)
    → (map (λ (c : ChannelCapability). c.model) (infer_codex_capabilities models)
        ≡ union_strings [] (logical_models models))
      × Distinct (map (λ (c : ChannelCapability). c.model) (infer_codex_capabilities models))
unfolding infer_codex_capabilities union_strings
infer_codex_capabilities-models models =
    let start : Inferred = record { by_logical = []; order = [] } in
    let s = infer_loop start models in
    let e =
      collect-models s s.order (infer_loop-Inv start models Inv-empty) (λ k h. h)
      ∙ infer_loop-order start models Inv-empty in
    (e, rw e (union_from-Distinct [] (logical_models models) tt))
