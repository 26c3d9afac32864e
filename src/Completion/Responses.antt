-- ===== src/Completion/Responses.antt =====
-- completion_stream_contract.go: the function calls of a Responses stream.
use Prim.Native.String.{len}
use lite2api.Common.{
  ℕ, suc, String, Bool, true, false, not, ◌&&◌, ◌||◌, List, [], ◌∷◌, Option, none, some, length,
  ◌==◌, ltb, leb, any, get_elem?, ◌⊎◌, inl, inr, if◌then◌else◌,
}
use lite2api.Common.Int.{ℤ, pos, negsuc}
use lite2api.Runtime.State.{or_else}
use lite2api.ClientKeys.Validate.{is_none}
use lite2api.Completion.Outcome.{◌>>=◌, ◌>>◌, refuse_if}
use lite2api.Completion.Contract.{CompletionRequirements, accepts_tool}
use lite2api.Completion.Calls.{
  find, put, CompletionStreamCall, Budget, Calls, stream_call, append_arguments,
}
use lite2api.Completion.Chat.{RawText, text_of}

pub record OutputItem : Type 0 where
  pub kind : String
  pub id : String
  pub name : String
  pub arguments : String
  pub call_id : String

abbrev pub empty_item : OutputItem
empty_item = record { kind = ""; id = ""; name = ""; arguments = ""; call_id = "" }

-- the item of an event: none, one that does not decode, or one
pub data RawItem : Type 0 where
  no_item : RawItem
  bad_item : RawItem
  item_of : OutputItem → RawItem

-- `check` is the error of the buffered inspection of the final response, `output` its items.
pub record FinalResponse : Type 0 where
  pub check : Option String
  pub output : Option (List OutputItem)

pub record ResponsesEvent : Type 0 where
  pub index : Option ℤ
  pub item_id : String
  pub delta : RawText
  pub arguments : Option String
  pub item : RawItem
  pub response : FinalResponse

-- the fields of completionToolStream that a Responses stream uses
pub record NativeStream : Type 0 where
  pub native : Calls
  pub budget : Budget

-- an identity, which may be set once
pub set_identity : String → String → String ⊎ String
set_identity dst value =
    if value == ""
    then inl dst
    else if not (dst == "") && not (dst == value)
    then inr "upstream changed streamed tool identity"
    else inl value

pub identify : OutputItem → String → CompletionStreamCall → CompletionStreamCall ⊎ String
identify item item_id call = do
  refuse_if
      (any (λ identity. ltb 256 (len identity)) (item.id ∷ item_id ∷ item.name ∷ item.call_id ∷ []))
      "upstream tool identity exceeds 256 bytes"
  id ← set_identity call.id item.id
  id2 ← set_identity id item_id
  name ← set_identity call.name item.name
  call_id ← set_identity call.call_id item.call_id
  inl (record call { id = id2; name = name; call_id = call_id })

-- output[index], for a key of the map of calls
pub item_at : List OutputItem → ℤ → Option OutputItem
item_at output (pos n) = get_elem? output n
item_at output (negsuc n) = none

module _ (valid_arguments : String → Bool) (same_arguments : String → String → Bool)
    (r : CompletionRequirements) where
  -- response.output_item.added
  pub item_added : Budget → CompletionStreamCall → (Budget × CompletionStreamCall) ⊎ String
  item_added b call =
      if call.started || call.id == "" || call.call_id == "" || not (accepts_tool r call.name)
      then inr "upstream tool item is repeated, incomplete or disallowed"
      else inl (b, record call { started = true })

  -- response.function_call_arguments.done
  pub arguments_completed :
      String → Budget → CompletionStreamCall → (Budget × CompletionStreamCall) ⊎ String
  arguments_completed arguments b call = do
    refuse_if (call.arguments_done || call.item_done)
        "upstream repeated or reordered function completion"
    (b2, call2) ← if call.deltas then inl (b, call) else append_arguments b call arguments
    inl (b2, record call2 { arguments_done = true })

  -- response.output_item.done
  pub item_completed :
      OutputItem → Budget → CompletionStreamCall → (Budget × CompletionStreamCall) ⊎ String
  item_completed item b call =
      if not call.arguments_done
        || call.item_done
        || item.id == ""
        || item.call_id == ""
        || item.name == ""
      then inr "upstream tool item completed without its arguments or identity"
      else inl (b, record call { item_done = true; done = true })

  -- the two events that end something carry the arguments once more
  pub completed :
      String
      → OutputItem
      → String
      → Budget
      → CompletionStreamCall
      → (Budget × CompletionStreamCall) ⊎ String
  completed kind item arguments b call = do
    refuse_if
        (not (valid_arguments arguments) || call.deltas && not (same_arguments call.args arguments))
        "upstream tool arguments did not complete consistently"
    if kind == "response.function_call_arguments.done"
        then arguments_completed arguments b call
        else item_completed item b call

  pub observe_started :
      String
      → ResponsesEvent
      → OutputItem
      → Budget
      → CompletionStreamCall
      → (Budget × CompletionStreamCall) ⊎ String
  observe_started kind event item b call = do
    refuse_if (not call.started) "upstream tool event precedes its item"
    if kind == "response.function_call_arguments.delta"
        then elim (text_of event.delta) [
          | none ↦ inr "upstream function delta must be a string"
          | some part ↦ append_arguments b call part
        ]
        else completed kind item (or_else event.arguments item.arguments) b call

  -- an event about a function call; the call is a pointer into the group
  pub observe_function :
      String → ResponsesEvent → OutputItem → ℤ → NativeStream → NativeStream ⊎ String
  observe_function kind event item index s = do
    refuse_if
        (ltb 0 r.max_tool_calls
          && leb r.max_tool_calls (length s.native)
          && is_none (find index s.native))
        "upstream ignored the single-tool-call requirement"
    (b, group, call) ← stream_call s.budget s.native index
    refuse_if (r.tool_mode == "none") "upstream ignored tool_choice none"
    named ← identify item event.item_id call
    (b2, call2) ←
        if kind == "response.output_item.added"
        then item_added b named
        else observe_started kind event item b named
    inl (record { native = put index call2 group; budget = b2 })

  -- the final response against the calls that were streamed
  pub final_item_ok : Calls → ℕ → List OutputItem → Bool
  final_item_ok native n [] = true
  final_item_ok native n (item ∷ items) =
      let rest = final_item_ok native (suc n) items in
      let streamed : Bool = elim (find (pos n) native) [ none ↦ false | some call ↦ call.done ] in
      (not (item.kind == "function_call") || streamed) && rest

  pub final_call_check : List OutputItem → ℤ × CompletionStreamCall → Option String
  final_call_check output (index, call) =
      let disagrees = some "completed tool disagrees with streamed identity or arguments" in
      elim (item_at output index) [
        | none ↦ some "streamed tool did not complete in the final response"
        | some item ↦
            if not call.done
            then some "streamed tool did not complete in the final response"
            else if not (item.kind == "function_call")
                || not (call.id == item.id)
                || not (call.name == item.name)
                || not (call.call_id == item.call_id)
                || not (same_arguments call.args item.arguments)
            then disagrees
            else none
      ]

  pub final_calls_check : List OutputItem → Calls → Option String
  final_calls_check output [] = none
  final_calls_check output (entry ∷ rest) =
      let later = final_calls_check output rest in
      elim (final_call_check output entry) [ none ↦ later | some e ↦ some e ]

  -- response.completed
  pub observe_completed : FinalResponse → NativeStream → NativeStream ⊎ String
  observe_completed response s = elim (response.check) [
    | some e ↦ inr e
    | none ↦ elim (response.output) [
      | none ↦ inr "upstream response did not complete the requested operation"
      | some output ↦
          if not (final_item_ok s.native 0 output)
          then inr "upstream omitted the streamed function-call completion events"
          else elim (final_calls_check output s.native) [ none ↦ inl s | some e ↦ inr e ]
    ]
  ]

  pub observe_responses : String → ResponsesEvent → NativeStream → NativeStream ⊎ String
  observe_responses kind event s =
      let about_call : NativeStream ⊎ String = elim (event.index) [
        | none ↦ inr "upstream function event has no output index"
        | some index ↦ elim (event.item) [
          | no_item ↦ observe_function kind event empty_item index s
          | bad_item ↦ inr "invalid output item"
          | item_of item ↦
              if item.kind == "function_call"
              then observe_function kind event item index s
              else inl s
        ]
      ] in
      if kind == "response.completed"
      then observe_completed event.response s
      else if kind == "response.output_item.added"
          || kind == "response.output_item.done"
          || kind == "response.function_call_arguments.delta"
          || kind == "response.function_call_arguments.done"
      then about_call
      else inl s
