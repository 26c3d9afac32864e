-- ===== src/Completion/Chat.antt =====
-- completion_stream_contract.go: the chunks of a chat stream, as decoded from their JSON.
use lite2api.Common.{
  any, ℕ, String, Bool, true, false, not, ◌&&◌, ◌||◌, List, [], ◌∷◌, Option, none, some, length,
  ◌==◌, ltb, leb, eqb, contains, ◌⊎◌, inl, inr, is_empty, if◌then◌else◌,
}
use lite2api.Common.Int.{ℤ, pos, ltb_ℤ, leb_ℤ}
use lite2api.Runtime.State.{or_else}
use lite2api.ClientKeys.Validate.{is_none}
use lite2api.Completion.Outcome.{◌>>=◌, ◌>>◌, refuse_if, each}
use lite2api.Completion.Contract.{CompletionRequirements, max_completion_choices}
use lite2api.Completion.Calls.{
  Table, find, put, CompletionStreamCall, Budget, Calls, stream_call, append_arguments,
  append_call_identity, valid_stream_call,
}
pub mod Covers
pub mod Bounds
pub mod Sound

-- a json.RawMessage that is to hold a string, as the code's tests and its decoding see it
pub data RawText : Type 0 where
  absent : RawText
  null : RawText
  text : String → RawText
  malformed : RawText

-- len(raw) > 0, and json.Unmarshal(raw, &part): a null leaves the empty string
unfoldable pub present : RawText → Bool
present absent = false
present raw = true

unfoldable pub text_of : RawText → Option String
text_of absent = none
text_of null = some ""
text_of (text s) = some s
text_of malformed = none

-- the same for the index of a choice
pub data RawIndex : Type 0 where
  no_index : RawIndex
  index_at : ℤ → RawIndex
  bad_index : RawIndex

pub record CallDelta : Type 0 where
  pub index : Option ℤ
  pub id : String
  pub kind : String
  pub name : String
  pub arguments : RawText

pub record LegacyDelta : Type 0 where
  pub name : String
  pub arguments : RawText

pub record ChoiceDelta : Type 0 where
  pub index : RawIndex
  pub finish : Option String
  pub content : RawText
  pub refusal : RawText
  pub calls : List CallDelta
  pub legacy : Option LegacyDelta

pub record CompletionStreamChoice : Type 0 where
  pub payload : Bool
  pub finished : Bool
  pub legacy : Bool
  pub calls : Calls

abbrev pub new_choice : CompletionStreamChoice
new_choice = record { payload = false; finished = false; legacy = false; calls = [] }

-- the fields of completionToolStream that a chat stream uses
pub record ChatStream : Type 0 where
  pub choices : Table CompletionStreamChoice
  pub budget : Budget
  pub ids : List String

abbrev pub empty_chat : ChatStream
empty_chat = record {
  choices = [];
  budget = record { argument_bytes = 0; call_count = 0 };
  ids = [];
}

-- the counters and the choice that a chunk is about
abbrev pub Focus : Type 0
Focus = Budget × CompletionStreamChoice

unfoldable pub observe_text : RawText → CompletionStreamChoice → CompletionStreamChoice ⊎ String
observe_text absent c = inl c
observe_text null c = inl c
observe_text (text s) c = inl (record c { payload = true })
observe_text malformed c = inr "upstream text delta must be a string"

-- `if len(raw) > 0 { decode and append }`
unfoldable pub observe_arguments :
    String → RawText → Budget → CompletionStreamCall → (Budget × CompletionStreamCall) ⊎ String
observe_arguments message raw b call =
    if present raw
    then elim (text_of raw) [ none ↦ inr message | some part ↦ append_arguments b call part ]
    else inl (b, call)

-- delta.Type, which may not change once it is set
unfoldable pub observe_kind : String → String → String ⊎ String
observe_kind kind part =
    if part == ""
    then inl kind
    else if not (kind == "") && not (kind == part)
    then inr "upstream changed tool type"
    else inl part

module _ (valid_arguments : String → Bool) (r : CompletionRequirements) where
  -- one entry of tool_calls; the call is a pointer into the group, which the last line writes
  unfoldable pub observe_call_at : CallDelta → ℤ → Focus → Focus ⊎ String
  observe_call_at delta index (b, choice) = do
    refuse_if
        (ltb 0 r.max_tool_calls
          && leb r.max_tool_calls (length choice.calls)
          && is_none (find index choice.calls))
        "upstream ignored the single-tool-call requirement"
    (b1, group, call) ← stream_call b choice.calls index
    refuse_if (r.tool_mode == "none") "upstream ignored tool_choice none"
    id ← append_call_identity call.id delta.id
    name ← append_call_identity call.name delta.name
    kind ← observe_kind call.kind delta.kind
    (b2, call2) ←
        observe_arguments "upstream tool arguments delta must be a string" delta.arguments b1
          (record call { id = id; name = name; kind = kind })
    inl (b2, record choice { calls = put index call2 group })

  unfoldable pub observe_call : CallDelta → Focus → Focus ⊎ String
  observe_call delta focus = do
    refuse_if focus.1.legacy "upstream mixed legacy and modern function calls"
    elim (delta.index) [
      | none ↦ inr "upstream tool delta has no index"
      | some index ↦ observe_call_at delta index focus
    ]

  unfoldable pub observe_legacy : LegacyDelta → Focus → Focus ⊎ String
  observe_legacy delta (b, choice) = do
    refuse_if (not choice.legacy && not (is_empty choice.calls))
        "upstream mixed legacy and modern function calls"
    (b1, group, call) ← stream_call b choice.calls (pos 127)
    name ← append_call_identity call.name delta.name
    (b2, call2) ←
        observe_arguments "upstream function arguments delta must be a string" delta.arguments b1
          (record call { kind = "legacy"; name = name })
    inl (b2, record choice { legacy = true; calls = put (pos 127) call2 group })

  -- one call of a choice that finishes
  unfoldable pub finish_call : ℤ × CompletionStreamCall → List String → List String ⊎ String
  finish_call (at, call) ids =
      let legacy = call.kind == "legacy" in
      do
        refuse_if (not legacy && contains ids call.id) "upstream repeated a tool call identity"
        refuse_if
            (not legacy && not (call.kind == "function")
              || not (valid_stream_call valid_arguments r call legacy))
            "upstream function arguments or identity did not complete"
        inl (if legacy then ids else call.id ∷ ids)

  -- a finish reason that is not empty
  unfoldable pub finish_choice :
      String
      → CompletionStreamChoice
      → List String
      → (CompletionStreamChoice × List String) ⊎ String
  finish_choice reason choice ids =
      let by_call = reason == "tool_calls" || reason == "function_call" in
      do
        refuse_if ((r.tool_mode == "required" || by_call) && is_empty choice.calls)
            "upstream did not return a required function call"
        ids2 ←
            if is_empty choice.calls
            then (refuse_if (ltb 0 r.expected_choices && not choice.payload)
                  "upstream stream choice has no payload"
                >>= λ _. inl ids)
            else (refuse_if (not by_call) "upstream tool call has the wrong finish reason" >>= λ _.
                each finish_call choice.calls ids)
        inl (record choice { finished = true }, ids2)

  unfoldable pub choice_index : RawIndex → ℤ ⊎ String
  choice_index no_index =
      if ltb 1 r.expected_choices
      then inr "upstream stream choice is missing its index"
      else inl (pos 0)
  choice_index (index_at i) = inl i
  choice_index bad_index = inr "upstream choice index must be an integer"

  -- `if choice.Finish != nil && *choice.Finish != ""`
  unfoldable pub finish_with :
      String → Focus → List String → (Budget × CompletionStreamChoice × List String) ⊎ String
  finish_with reason (b, choice) ids =
      if reason == ""
      then inl (b, choice, ids)
      else (finish_choice reason choice ids >>= λ closed. inl (b, closed.0, closed.1))

  -- what one chunk says of an open choice
  unfoldable pub observe_open :
      ChoiceDelta
      → Budget
      → CompletionStreamChoice
      → List String
      → (Budget × CompletionStreamChoice × List String) ⊎ String
  observe_open delta b current ids = do
    c1 ← observe_text delta.content current
    c2 ← observe_text delta.refusal c1
    focus ← each observe_call delta.calls (b, c2)
    focus2 ← elim (delta.legacy) [ none ↦ inl focus | some old ↦ observe_legacy old focus ]
    finish_with (or_else delta.finish "") focus2 ids

  unfoldable pub observe_choice : ChoiceDelta → ChatStream → ChatStream ⊎ String
  observe_choice delta s = do
    index ← choice_index delta.index
    refuse_if
        (ltb_ℤ index (pos 0)
          || leb_ℤ (pos max_completion_choices) index
          || ltb 0 r.expected_choices && leb_ℤ (pos r.expected_choices) index)
        "upstream stream choice index does not match requested n"
    let current = or_else (find index s.choices) new_choice
    refuse_if current.finished "upstream changed a finished choice"
    (b, choice, ids) ← observe_open delta s.budget current s.ids
    inl (record { choices = put index choice s.choices; budget = b; ids = ids })

  unfoldable pub observe_chat : List ChoiceDelta → ChatStream → ChatStream ⊎ String
  observe_chat = each observe_choice

  -- every choice has finished; `completeChatStream` at the end of the stream
  unfoldable pub complete_chat_stream : ChatStream → Option String
  complete_chat_stream s =
      if ltb 0 r.expected_choices && not (eqb (length s.choices) r.expected_choices)
      then some "upstream returned fewer choices than requested n"
      else if any (λ (c : ℤ × CompletionStreamChoice). not c.1.finished) s.choices
      then some "upstream response did not complete the requested operation"
      else none
