-- ===== src/Requirements.antt =====
-- internal/gateway/request_requirements.go: what a request needs of a source, and which sources can
-- serve it. The body is the envelope of raw JSON members.
mod Examples
pub mod Compatible
pub mod Reasoning
use lite2api.Common.{
  String, Bool, true, false, not, ◌&&◌, ◌||◌, List, [], ◌∷◌, ◌++◌, Option, none, some, any, ◌==◌,
  contains, if◌then◌else◌, first_error,
}
use lite2api.Common.Text.{trim_space}
use lite2api.Common.Assoc.{Assoc, lookup}
use lite2api.Config.Types.{
  CapabilityEvidence, ChannelCapability, Account, Route, RouteTarget, no_evidence,
}
use lite2api.Config.Operations.{
  openai_chat, openai_responses, anthropic_messages, openai_embeddings, openai_images,
  openai_rerank,
}
use lite2api.Config.Resolve.{Resolved, resolve_route_target}
use lite2api.Config.Evidence.{capability_feature_key}

pub record RequestRequirements : Type 0 where
  pub features : List String
  pub reasoning_effort : String
  pub continuation : Bool

pub data RequestError : Type 0 where
  -- the field belongs to the Responses interface
  only_responses : String → RequestError
  -- the field is unsupported on this interface
  unsupported_field : String → RequestError
  streaming_unsupported effort_conflict : RequestError

abbrev pub Envelope : Type 0
Envelope = Assoc String

-- the closure `nonNull`
pub non_null : Envelope → String → Bool
non_null envelope field = elim (lookup field envelope) [
  | none ↦ false
  | some raw ↦ not (trim_space raw == "null")
]

-- json.Unmarshal of a raw member into a `bool` that starts as false
pub unmarshal_bool : String → Option Bool
unmarshal_bool raw =
    if raw == "true"
    then some true
    else if raw == "false"
    then some false
    else if raw == "null"
    then some false
    else none

-- `json.Unmarshal(raw, &stream) != nil || stream`, where the member is there
pub streams : Envelope → Bool
unfolding unmarshal_bool
streams envelope = elim (lookup "stream" envelope) [
  | none ↦ false
  | some raw ↦ elim (unmarshal_bool raw) [ none ↦ true | some b ↦ b ]
]

abbrev pub is_data_operation : String → Bool
is_data_operation operation =
    operation == openai_embeddings || operation == openai_images || operation == openai_rerank

-- the early returns of `validateOperationRequest`, in order
pub operation_checks : Envelope → String → List (Bool × RequestError)
operation_checks envelope operation =
    let other = not (operation == openai_responses) in
    let no_tools = not (operation == openai_chat) && not (operation == openai_responses) in
    let data_only = is_data_operation operation in
    (other && non_null envelope "previous_response_id", only_responses "previous_response_id")
    ∷ (other && non_null envelope "reasoning", only_responses "reasoning")
    ∷ (other && non_null envelope "background", only_responses "background")
    ∷ (no_tools && non_null envelope "parallel_tool_calls", unsupported_field "parallel_tool_calls")
    ∷ (data_only && streams envelope, streaming_unsupported)
    ∷ (data_only && non_null envelope "tools", unsupported_field "tools")
    ∷ (data_only && non_null envelope "functions", unsupported_field "functions")
    ∷ (data_only && non_null envelope "tool_choice", unsupported_field "tool_choice")
    ∷ (data_only && non_null envelope "function_call", unsupported_field "function_call")
    ∷ (
      data_only && non_null envelope "parallel_tool_calls",
      unsupported_field "parallel_tool_calls",
    )
    ∷ (data_only && non_null envelope "reasoning_effort", unsupported_field "reasoning_effort")
    ∷ []

pub validate_operation_request : Envelope → String → Option RequestError
unfolding operation_checks
validate_operation_request envelope operation = first_error (operation_checks envelope operation)

pub validate_route_requirements : Route → RequestRequirements → Option RequestError
validate_route_requirements route requirements =
    let requested = requirements.reasoning_effort in
    if not (requested == "")
      && not (requested == "auto")
      && not (route.reasoning_effort == "")
      && not (route.reasoning_effort == "auto")
      && not (requested == route.reasoning_effort)
    then some effort_conflict
    else none

-- `capability.Features[key].Status == "unsupported"`
pub denies : ChannelCapability → String → Bool
denies capability key = elim (lookup key capability.features) [
  | none ↦ false
  | some evidence ↦ evidence.status == "unsupported"
]

-- the four keys under which a fact about the feature may be recorded
pub feature_keys : String → String → String → String → List String
feature_keys operation feature effort credential =
    capability_feature_key operation feature "auto" ""
    ∷ capability_feature_key operation feature effort ""
    ∷ capability_feature_key operation feature "auto" credential
    ∷ capability_feature_key operation feature effort credential
    ∷ []

pub excludes_model : String → ChannelCapability → Bool
excludes_model upstream_model capability =
    capability.upstream_model == upstream_model && capability.evidence.status == "unsupported"

pub excludes_feature : String → String → String → String → String → ChannelCapability → Bool
excludes_feature upstream_model operation effort credential feature capability =
    capability.upstream_model == upstream_model
    && any (denies capability) (feature_keys operation feature effort credential)

-- The optional arguments of the source are given: callers without a scope pass the empty credential
-- and the effort of the requirements.
unfoldable pub requirements_compatible :
    Account → String → String → RequestRequirements → String → String → Bool
unfolding excludes_model excludes_feature
requirements_compatible account upstream_model operation requirements credential effort =
    not (any (excludes_model upstream_model) account.capabilities)
    && not (
        any
          (λ feature.
            any (excludes_feature upstream_model operation effort credential feature)
              account.capabilities)
          ("call" ∷ requirements.features))

-- the loop with its flag `known`
supports_from : Bool → List ChannelCapability → String → String → Bool
supports_from known [] upstream_model requested = not known
supports_from known (c ∷ cs) upstream_model requested =
    let skip = supports_from known cs upstream_model requested in
    let next =
      supports_from (known || not (c.evidence.status == "unknown")) cs upstream_model requested in
    if not (c.upstream_model == upstream_model)
    then skip
    else if contains c.reasoning_efforts requested
    then true
    else next

pub supports_requested_reasoning : Account → String → String → Bool
unfolding supports_from
supports_requested_reasoning account upstream_model requested =
    supports_from false account.capabilities upstream_model requested

pub rejected : Resolved
rejected = record { model = ""; effort = ""; ok = false }

-- behind the check of the configured effort: `route` with the requested effort, if it names a model
pub resolve_with : Account → Route → RouteTarget → String → Resolved
resolve_with account route target requested =
    let r = resolve_route_target account route target in
    if not r.ok || requested == "" || not (route.model == "")
    then r
    else if not (supports_requested_reasoning account r.model requested)
    then rejected
    else record { model = r.model; effort = requested; ok = true }

pub resolve_requested_reasoning : Account → Route → RouteTarget → RequestRequirements → Resolved
resolve_requested_reasoning account route target requirements =
    let requested =
      if requirements.reasoning_effort == "auto" then "" else requirements.reasoning_effort in
    let configured =
      if route.model == "" then target.reasoning_effort else route.reasoning_effort in
    if requested == ""
    then resolve_with account route target requested
    else if not (configured == "") && not (configured == "auto") && not (configured == requested)
    then rejected
    else if not (route.model == "")
    then resolve_with account (record route { reasoning_effort = requested }) target requested
    else resolve_with account route target requested
