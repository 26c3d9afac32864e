-- ===== src/Config/Operations.antt =====
-- internal/config/operations.go
use lite2api.Common.{String, Bool, List, [], ◌∷◌, ◌==◌, contains, if◌then◌else◌}
use lite2api.Common.Text.{trim_space, equal_fold}
use lite2api.Config.Types.{Account}

abbrev pub openai_chat : String
openai_chat = "openai.chat"

abbrev pub openai_responses : String
openai_responses = "openai.responses"

abbrev pub anthropic_messages : String
anthropic_messages = "anthropic.messages"

abbrev pub openai_embeddings : String
openai_embeddings = "openai.embeddings"

abbrev pub openai_images : String
openai_images = "openai.images"

abbrev pub openai_rerank : String
openai_rerank = "openai.rerank"

abbrev pub valid_operations : List String
valid_operations =
    openai_chat ∷ openai_responses ∷ anthropic_messages ∷ openai_embeddings ∷ openai_images
    ∷ openai_rerank ∷ []

unfoldable pub valid_operation : String → Bool
unfolding trim_space
valid_operation operation = contains valid_operations (trim_space operation)

unfoldable pub default_operations : String → List String
unfolding trim_space equal_fold
default_operations account_type =
    if equal_fold (trim_space account_type) "anthropic"
    then anthropic_messages ∷ []
    else openai_chat ∷ openai_responses ∷ openai_embeddings ∷ openai_images ∷ openai_rerank ∷ []

-- `operations`, or the defaults of the type where there are none
operations_of : List String → String → List String
unfolding default_operations
operations_of [] account_type = default_operations account_type
operations_of (o ∷ os) account_type = o ∷ os

unfoldable pub account_supports_operation : Account → String → Bool
unfolding operations_of
account_supports_operation account operation =
    contains (operations_of account.operations account.type) operation

-- the loop, with the keys of `seen`
normalize_from : List String → List String → List String
unfolding trim_space
normalize_from seen [] = []
normalize_from seen (raw ∷ values) =
    let value = trim_space raw in
    let skipped = normalize_from seen values in
    let kept = normalize_from (value ∷ seen) values in
    if value == "" then skipped else if contains seen value then skipped else value ∷ kept

unfoldable pub normalize_string_list : List String → List String
unfolding normalize_from
normalize_string_list values = normalize_from [] values
