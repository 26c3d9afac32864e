-- ===== src/Config/Capabilities.antt =====
-- internal/config/capabilities.go: logical capabilities from the model IDs of a Codex upstream.
pub mod Laws
use lite2api.Common.{
  String, Bool, true, false, not, ◌&&◌, ◌||◌, List, [], ◌∷◌, ◌++◌, Option, none, some, ◌==◌,
  contains, ltb, ℕ, if◌then◌else◌,
}
use lite2api.Common.Text.{trim_space, to_lower, has_prefix, trim_prefix, contains_text}
use lite2api.Common.Assoc.{Assoc, lookup, insert}
use lite2api.Config.Types.{ChannelCapability, no_evidence}

abbrev pub codex_gpt_56_reasoning_efforts : List String
codex_gpt_56_reasoning_efforts = "auto" ∷ "none" ∷ "low" ∷ "medium" ∷ "high" ∷ "xhigh" ∷ "max" ∷ []

abbrev pub codex_default_reasoning_efforts : List String
codex_default_reasoning_efforts = "auto" ∷ []

unfoldable pub normalize_codex_model_id : String → String
unfolding trim_space to_lower trim_prefix
normalize_codex_model_id model =
    trim_prefix (trim_prefix (trim_prefix (to_lower (trim_space model)) "openai-codex/") "openai/")
      "codex/"

unfoldable pub is_codex_model_id : String → Bool
unfolding normalize_codex_model_id has_prefix contains_text
is_codex_model_id model =
    let normalized = normalize_codex_model_id model in
    if normalized == "fast" || normalized == "gpt-5.6-fast"
    then false
    else if contains ("sol" ∷ "luna" ∷ "terra" ∷ "sol-max" ∷ []) normalized
    then true
    else has_prefix normalized "gpt-" || contains_text normalized "codex"

unfoldable pub codex_logical_model : String → String
unfolding normalize_codex_model_id
codex_logical_model upstream_model =
    let normalized = normalize_codex_model_id upstream_model in
    if contains ("gpt-5.6" ∷ "gpt-5.6-sol" ∷ "sol" ∷ []) normalized
    then "sol"
    else if contains ("gpt-5.6-luna" ∷ "luna" ∷ []) normalized
    then "luna"
    else if contains ("gpt-5.6-terra" ∷ "terra" ∷ []) normalized
    then "terra"
    else if contains ("gpt-5.6-sol-max" ∷ "sol-max" ∷ []) normalized
    then "sol-max"
    else upstream_model

unfoldable pub supports_gpt_56_reasoning : String → Bool
unfolding normalize_codex_model_id
supports_gpt_56_reasoning model =
    contains
      ("gpt-5.6" ∷ "gpt-5.6-sol" ∷ "gpt-5.6-luna" ∷ "gpt-5.6-terra" ∷ "sol" ∷ "luna" ∷ "terra" ∷ [])
      (normalize_codex_model_id model)

unfoldable pub codex_model_preference : String → ℕ
unfolding normalize_codex_model_id
codex_model_preference model =
    let normalized = normalize_codex_model_id model in
    if contains ("gpt-5.6-sol" ∷ "gpt-5.6-luna" ∷ "gpt-5.6-terra" ∷ "gpt-5.6-sol-max" ∷ [])
      normalized
    then 3
    else if normalized == "gpt-5.6"
    then 2
    else if contains ("sol" ∷ "luna" ∷ "terra" ∷ "sol-max" ∷ []) normalized
    then 1
    else 2

-- the second loop; `result` holds the keys of `seen`
union_from : List String → List String → List String
union_from result [] = result
union_from result (value ∷ right) =
    union_from (if contains result value then result else result ++ value ∷ []) right

unfoldable pub union_strings : List String → List String → List String
unfolding union_from
union_strings left right = union_from left right

-- `byLogical` and `order`
pub record Inferred : Type 0 where
  pub by_logical : Assoc ChannelCapability
  pub order : List String

-- the candidate of one model ID
unfoldable pub codex_candidate : String → ChannelCapability
unfolding codex_logical_model supports_gpt_56_reasoning
codex_candidate upstream_model = record {
  model = codex_logical_model upstream_model;
  upstream_model = upstream_model;
  reasoning_efforts =
      if supports_gpt_56_reasoning upstream_model
      then codex_gpt_56_reasoning_efforts
      else codex_default_reasoning_efforts;
  evidence = no_evidence;
  features = [];
}

pub merge_candidate : ChannelCapability → ChannelCapability → ChannelCapability
unfolding union_strings codex_model_preference
merge_candidate current candidate = record current {
  reasoning_efforts = union_strings current.reasoning_efforts candidate.reasoning_efforts;
  upstream_model =
      if ltb (codex_model_preference current.upstream_model)
        (codex_model_preference candidate.upstream_model)
      then candidate.upstream_model
      else current.upstream_model;
}

pub add_candidate : Inferred → ChannelCapability → Option ChannelCapability → Inferred
unfolding insert
add_candidate s candidate none = record {
  by_logical = insert candidate.model candidate s.by_logical;
  order = s.order ++ candidate.model ∷ [];
}
add_candidate s candidate (some current) = record s {
  by_logical = insert candidate.model (merge_candidate current candidate) s.by_logical;
}

-- the body of the first loop
infer_step : Inferred → String → Inferred
unfolding trim_space is_codex_model_id codex_candidate add_candidate lookup
infer_step s raw =
    let upstream_model = trim_space raw in
    let candidate = codex_candidate upstream_model in
    if upstream_model == "" || upstream_model == "*" || not (is_codex_model_id upstream_model)
    then s
    else if candidate.model == ""
    then s
    else add_candidate s candidate (lookup candidate.model s.by_logical)

infer_loop : Inferred → List String → Inferred
unfolding infer_step
infer_loop s [] = s
infer_loop s (raw ∷ models) = infer_loop (infer_step s raw) models

-- the second loop; every key of `order` is in the map
collect : Assoc ChannelCapability → List String → List ChannelCapability
unfolding lookup
collect m [] = []
collect m (k ∷ ks) =
    let rest = collect m ks in elim (lookup k m) [ none ↦ rest | some c ↦ c ∷ rest ]

pub infer_codex_capabilities : List String → List ChannelCapability
unfolding infer_loop collect
infer_codex_capabilities models =
    let s = infer_loop (record { by_logical = []; order = [] }) models in
    collect s.by_logical s.order
