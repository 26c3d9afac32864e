-- ===== src/Completion/Messages.antt =====
-- completion_stream_contract.go: the content blocks of a Messages stream.
use Prim.Native.String.{len}
use lite2api.Common.{
  [], ℕ, suc, ◌+◌, String, Bool, true, false, not, ◌&&◌, ◌||◌, List, ◌∷◌, Option, none, some,
  length, ◌==◌, eqb, ltb, leb, any, contains, ◌⊎◌, inl, inr, if◌then◌else◌,
}
use lite2api.Common.Int.{ℤ}
use lite2api.Runtime.State.{or_else}
use lite2api.ClientKeys.Validate.{is_none}
use lite2api.Completion.Outcome.{◌>>=◌, ◌>>◌, refuse_if}
use lite2api.Completion.Contract.{CompletionRequirements, accepts_tool, max_completion_arguments}
use lite2api.Completion.Calls.{
  find, put, CompletionStreamCall, Budget, Calls, stream_call, append_arguments, valid_stream_call,
}
pub mod Sound

pub record ContentBlock : Type 0 where
  pub kind : String
  pub id : String
  pub name : String
  pub input : String

pub record BlockDelta : Type 0 where
  pub kind : String
  pub partial : Option String
  pub text : Option String
  pub thinking : Option String
  pub signature : Option String
  pub stop_reason : String

pub record MessagesEvent : Type 0 where
  pub index : Option ℤ
  pub block : ContentBlock
  pub delta : BlockDelta

-- the fields of completionToolStream that a Messages stream uses
pub record BlockStream : Type 0 where
  pub native : Calls
  pub budget : Budget
  pub tools : ℕ
  pub ids : List String
  pub stop_reason : String

abbrev pub empty_blocks : BlockStream
empty_blocks = record {
  native = [];
  budget = record { argument_bytes = 0; call_count = 0 };
  tools = 0;
  ids = [];
  stop_reason = "";
}

-- `same_arguments` compares the two texts as compact JSON; `is_empty_object` says that the bytes,
-- less the space around them, are {}.
module _ (valid_arguments : String → Bool) (same_arguments : String → String → Bool)
    (is_empty_object : String → Bool) (r : CompletionRequirements) where
  -- content_block_start of a tool_use block
  unfoldable pub start_tool :
      ContentBlock
      → Budget
      → List String
      → CompletionStreamCall
      → (Budget × List String × CompletionStreamCall) ⊎ String
  start_tool block b ids call = do
    refuse_if (ltb 0 r.max_tool_calls && leb r.max_tool_calls (length ids))
        "upstream ignored the single-tool-call requirement"
    refuse_if (contains ids call.id) "upstream repeated a tool call identity"
    refuse_if (not (accepts_tool r call.name) || call.id == "" || not (valid_arguments block.input))
        "upstream tool_use is missing input or identity"
    refuse_if (ltb max_completion_arguments (b.argument_bytes + len block.input))
        "upstream tool arguments exceed the inspection limit"
    inl (
      record b { argument_bytes = b.argument_bytes + len block.input },
      call.id ∷ ids,
      record call { initial = block.input; args = block.input },
    )

  unfoldable pub block_start : ContentBlock → ℤ → BlockStream → BlockStream ⊎ String
  block_start block index s = do
    refuse_if (not (is_none (find index s.native))) "upstream repeated a content block"
    (b, group, call) ← stream_call s.budget s.native index
    refuse_if (ltb 256 (len block.id) || ltb 256 (len block.name))
        "upstream tool identity exceeds 256 bytes"
    let named = record call { kind = block.kind; id = block.id; name = block.name }
    (b2, ids, call2) ←
        if block.kind == "tool_use" then start_tool block b s.ids named else inl (b, s.ids, named)
    inl (record s { native = put index call2 group; budget = b2; ids = ids })

  unfoldable pub block_delta :
      BlockDelta → Budget → CompletionStreamCall → (Budget × CompletionStreamCall) ⊎ String
  block_delta delta b call = do
    refuse_if
        (delta.kind == "input_json_delta"
          && (not (call.kind == "tool_use") || is_none delta.partial))
        "JSON delta requires a tool block and a string partial_json"
    refuse_if (delta.kind == "text_delta" && (not (call.kind == "text") || is_none delta.text))
        "text delta requires a text block and a string text"
    refuse_if
        (delta.kind == "thinking_delta"
          && (not (call.kind == "thinking") || is_none delta.thinking))
        "thinking delta requires a thinking block and a string thinking"
    refuse_if
        (delta.kind == "signature_delta"
          && (not (call.kind == "thinking") || is_none delta.signature))
        "signature delta requires a thinking block and a string signature"
    if delta.kind == "input_json_delta"
        then append_arguments b call (or_else delta.partial "")
        else inl (b, call)

  unfoldable pub stop_tool : ℕ → CompletionStreamCall → (ℕ × CompletionStreamCall) ⊎ String
  stop_tool tools call = do
    refuse_if (not (valid_stream_call valid_arguments r call false))
        "upstream tool input did not complete"
    refuse_if
        (call.deltas
          && not (is_empty_object call.initial)
          && not (same_arguments call.initial call.args))
        "upstream tool input disagrees with its initial input"
    inl (suc tools, record call { done = true })

  unfoldable pub block_stop : ℕ → CompletionStreamCall → (ℕ × CompletionStreamCall) ⊎ String
  block_stop tools call =
      if call.kind == "tool_use"
      then stop_tool tools call
      else inl (tools, record call { done = true })

  -- content_block_delta and content_block_stop, of a block that is there and not completed
  unfoldable pub change_block :
      String → BlockDelta → ℤ → BlockStream → CompletionStreamCall → BlockStream ⊎ String
  change_block kind delta index s call =
      refuse_if call.done "upstream changed an absent or completed content block"
      >> (if kind == "content_block_delta"
          then (block_delta delta s.budget call >>= λ out.
              inl (record s { native = put index out.1 s.native; budget = out.0 }))
          else (block_stop s.tools call >>= λ out.
              inl (record s { native = put index out.1 s.native; tools = out.0 })))

  unfoldable pub block_change : String → BlockDelta → ℤ → BlockStream → BlockStream ⊎ String
  block_change kind delta index s = elim (find index s.native) [
    | none ↦ inr "upstream changed an absent or completed content block"
    | some call ↦ change_block kind delta index s call
  ]

  -- message_stop
  unfoldable pub message_stop : BlockStream → BlockStream ⊎ String
  message_stop s = do
    refuse_if (any (λ (c : ℤ × CompletionStreamCall). not c.1.done) s.native)
        "upstream stopped before its content block completed"
    refuse_if
        (r.tool_mode == "required" && eqb s.tools 0
          || s.stop_reason == "tool_use" && eqb s.tools 0
          || ltb 0 s.tools && not (s.stop_reason == "tool_use"))
        "upstream tool usage does not match the requested choice or stop reason"
    inl s

  -- an event of one block
  unfoldable pub about_block : String → MessagesEvent → BlockStream → BlockStream ⊎ String
  about_block kind event s = elim (event.index) [
    | none ↦ inr "upstream content event has no index"
    | some index ↦
        if kind == "content_block_start"
        then block_start event.block index s
        else block_change kind event.delta index s
  ]

  unfoldable pub observe_messages : String → MessagesEvent → BlockStream → BlockStream ⊎ String
  observe_messages kind event s =
      if kind == "message_delta"
      then inl (
          if event.delta.stop_reason == ""
          then s
          else record s { stop_reason = event.delta.stop_reason })
      else if kind == "message_stop"
      then message_stop s
      else if kind == "content_block_start"
          || kind == "content_block_delta"
          || kind == "content_block_stop"
      then about_block kind event s
      else inl s
