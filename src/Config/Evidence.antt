-- ===== src/Config/Evidence.antt =====
-- internal/config/capability_evidence.go: scoped facts about what an upstream supports, their keys
-- and their validation. The digest of a connection and the parser of timestamps are parameters.
pub mod Keys
pub mod Validity
pub mod Staleness
use Prim.Native.Char.{Char, code}
use Prim.Native.String.{len, char_at, ◌++◌ as append}
use lite2api.Common.{
  suc, ℕ, String, Bool, true, false, not, ◌&&◌, ◌||◌, List, [], ◌∷◌, Option, none, some,
  first_error, ◌==◌, leb, ltb, eqb, length, map, if◌then◌else◌,
}
use lite2api.Common.Text.{cut, to_lower}
use lite2api.Common.Assoc.{Assoc}
use lite2api.Config.Types.{CapabilityEvidence, ChannelCapability, Account}
use lite2api.Config.Operations.{valid_operation}
use lite2api.Config.Resolve.{valid_reasoning_effort}

abbrev pub max_model_id_bytes : ℕ
max_model_id_bytes = 256

-- the separators ":", "#" and "@"
abbrev pub colon : Char
colon = char_at ":" 0

abbrev pub hash_sign : Char
hash_sign = char_at "#" 0

abbrev pub at_sign : Char
at_sign = char_at "@" 0

-- what the two `if`s add to the key
pub with_credential : String → String
with_credential credential = if credential == "" then "" else String.◌∷◌ at_sign credential

pub with_effort : String → String → String
with_effort effort tail =
    if not (effort == "") && not (effort == "auto")
    then String.◌∷◌ hash_sign (append effort tail)
    else tail

pub capability_feature_key : String → String → String → String → String
unfolding with_credential with_effort
capability_feature_key operation feature effort credential =
    append operation
      (String.◌∷◌ colon (append feature (with_effort effort (with_credential credential))))

unfoldable pub valid_capability_feature : String → Bool
valid_capability_feature feature =
    feature == "call" || feature == "stream" || feature == "tools" || feature == "image_input"

is_hex : ℕ → Bool
is_hex c = (leb b'0' c && leb c b'9') || (leb b'a' c && leb c b'f') || (leb b'A' c && leb c b'F')

-- hex.DecodeString: the number of bytes, or its error
pub hex_bytes : String → Option ℕ
unfolding is_hex
hex_bytes String.[] = some 0
hex_bytes (String.◌∷◌ c String.[]) = none
hex_bytes (String.◌∷◌ c (String.◌∷◌ d s)) =
    let rest = hex_bytes s in
    if is_hex (code c) && is_hex (code d)
    then elim rest [ none ↦ none | some n ↦ some (suc n) ]
    else none

abbrev pub is_bytes : Option ℕ → ℕ → Bool
is_bytes none n = false
is_bytes (some k) n = eqb k n

abbrev pub is_err : Option ℕ → Bool
is_err none = true
is_err (some k) = false

pub valid_public_credential_id : String → Bool
unfolding hex_bytes to_lower
valid_public_credential_id value = is_bytes (hex_bytes value) 8 && value == to_lower value

pub record FeatureScope : Type 0 where
  pub operation : String
  pub feature : String
  pub effort : String
  pub credential : String
  pub valid : Bool

-- `valid` and the parts, read from the rest of a key behind its operation
pub scope_of : String → String → String → FeatureScope
unfolding cut valid_capability_feature valid_public_credential_id capability_feature_key
scope_of key operation tail =
    let scoped = cut tail b'@' in
    let hash = cut scoped.0 b'#' in
    let effort = if hash.1 == "" then "auto" else hash.1 in
    record {
      operation = operation;
      feature = hash.0;
      effort = effort;
      credential = scoped.1;
      valid =
          valid_capability_feature hash.0
          && valid_reasoning_effort effort
          && (scoped.1 == "" || valid_public_credential_id scoped.1)
          && key == capability_feature_key operation hash.0 effort scoped.1;
    }

pub no_scope : FeatureScope
no_scope = record { operation = ""; feature = ""; effort = ""; credential = ""; valid = false }

pub parse_capability_feature_key : String → FeatureScope
unfolding cut scope_of no_scope
parse_capability_feature_key key =
    let parts = cut key b':' in
    if not parts.2 || not (valid_operation parts.0) then no_scope else scope_of key parts.0 parts.1

-- Whether the guards of `invalidate` let the two writes through.
pub is_stale : String → CapabilityEvidence → String → Bool
is_stale identity evidence model =
    not (not (evidence.status == "verified") && evidence.source_identity == "")
    && (not (evidence.source_identity == identity) || not (evidence.upstream_model == model))

pub invalidate : String → CapabilityEvidence → String → CapabilityEvidence
unfolding is_stale
invalidate identity evidence model =
    if is_stale identity evidence model
    then record evidence {
      status = "unknown";
      upstream_model = model;
      last_check_outcome = "inconclusive";
      last_check_message = "source or model changed; repeat the scoped verification";
    }
    else evidence

pub invalidate_capability : String → ChannelCapability → ChannelCapability
unfolding invalidate
invalidate_capability identity capability = record capability {
  evidence = invalidate identity capability.evidence capability.upstream_model;
  features =
      map
        (λ (e : String × CapabilityEvidence).
          (e.0, invalidate identity e.1 capability.upstream_model))
        capability.features;
}

-- AccountSourceIdentity: JSON and SHA-256 of the resolved connection
module _ (account_source_identity : Account → String) where
  pub invalidate_account_capability_evidence : Account → Account
  unfolding invalidate_capability
  invalidate_account_capability_evidence account = record account {
    capabilities =
        map (invalidate_capability (account_source_identity account)) account.capabilities;
  }

-- the errors, in the order of the source
pub data EvidenceError : Type 0 where
  size_limit evidence_scope identity_digest check_outcome status unsourced observed_at :
      EvidenceError
  last_checked_at model_mismatch too_many_features feature_scope : EvidenceError

-- time.Parse(time.RFC3339Nano, _) succeeds
module _ (rfc3339 : String → Bool) where
  -- the early returns of `validateEvidence`, in order
  pub evidence_checks : CapabilityEvidence → List (Bool × EvidenceError)
  evidence_checks e =
      (ltb 512 (len e.source) || ltb 64 (len e.observed_at), size_limit)
      ∷ (
        (ltb 512 (len e.last_check_message)
            || ltb max_model_id_bytes (len e.upstream_model)
            || (not (e.source_identity == "") && not (eqb (len e.source_identity) 64))
            || (not (e.credential_id == "") && not (valid_public_credential_id e.credential_id))
            || not (valid_reasoning_effort e.reasoning_effort)),
        evidence_scope,
      )
      ∷ (not (e.source_identity == "") && is_err (hex_bytes e.source_identity), identity_digest)
      ∷ (
        (not (
            e.last_check_outcome == ""
            || e.last_check_outcome == "passed"
            || e.last_check_outcome == "failed"
            || e.last_check_outcome == "inconclusive")),
        check_outcome,
      )
      ∷ (
        (not (
            e.status == ""
            || e.status == "unknown"
            || e.status == "declared"
            || e.status == "verified"
            || e.status == "unsupported")),
        status,
      )
      ∷ (e.status == "verified" && (e.source == "" || e.observed_at == ""), unsourced)
      ∷ (not (e.observed_at == "") && not (rfc3339 e.observed_at), observed_at)
      ∷ (not (e.last_checked_at == "") && not (rfc3339 e.last_checked_at), last_checked_at)
      ∷ []

  unfoldable pub validate_evidence : CapabilityEvidence → Option EvidenceError
  unfolding evidence_checks
  validate_evidence e = first_error (evidence_checks e)

  -- the first error of the loop over `capability.Features`
  unfoldable pub validate_features : String → Assoc CapabilityEvidence → Option EvidenceError
  validate_features upstream_model [] = none
  validate_features upstream_model ((key, e) ∷ rest) =
      let later = validate_features upstream_model rest in
      let scope = parse_capability_feature_key key in
      if not scope.valid
        || not (scope.credential == e.credential_id)
        || (not (scope.effort == "auto") && not (scope.effort == e.reasoning_effort))
      then some feature_scope
      else if not (e.upstream_model == "") && not (e.upstream_model == upstream_model)
      then some model_mismatch
      else elim (validate_evidence e) [ some error ↦ some error | none ↦ later ]

  unfoldable pub validate_capability_evidence : ChannelCapability → Option EvidenceError
  validate_capability_evidence capability = elim (validate_evidence capability.evidence) [
    | some error ↦ some error
    | none ↦
        if not (capability.evidence.upstream_model == "")
          && not (capability.evidence.upstream_model == capability.upstream_model)
        then some model_mismatch
        else if ltb 64 (length capability.features)
        then some too_many_features
        else validate_features capability.upstream_model capability.features
  ]
