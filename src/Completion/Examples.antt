-- ===== src/Completion/Examples.antt =====
-- Runs of the stream inspections on concrete data.
use lite2api.Common.{String, Bool, true, false, List, [], ◌∷◌, Option, none, some, ◌==◌}
use lite2api.Common.Int.{pos}
use lite2api.Completion.Outcome.{each, Passes}
use lite2api.Completion.Contract.{CompletionRequirements}
use lite2api.Completion.Calls.{new_call}
use lite2api.Completion.Chat.{RawText, RawIndex, ChoiceDelta, ChatStream, empty_chat, observe_chat}
use lite2api.Completion.Chat.Bounds.{Bounded, observe_chat-Bounded}
use lite2api.Completion.Messages.{MessagesEvent, BlockStream}
use lite2api.Completion.Feed.{Bytes, StreamState}

abbrev one_tool : CompletionRequirements
one_tool = record {
  expected_choices = 1;
  tool_mode = "required";
  tool_name = "";
  tool_names = some ("f" ∷ []);
  max_tool_calls = 1;
}

abbrev is_object : String → Bool
is_object s = s == "{}"

abbrev quiet : ChoiceDelta
quiet = record {
  index = RawIndex.index_at (pos 0);
  finish = none;
  content = RawText.null;
  refusal = RawText.absent;
  calls = [];
  legacy = none;
}

-- a call in two chunks, and the end
abbrev chat_chunks : List (List ChoiceDelta)
chat_chunks =
    (record quiet {
      calls =
          record {
            index = some (pos 0);
            id = "c1";
            kind = "function";
            name = "f";
            arguments = RawText.text "{";
          }
          ∷ [];
    }
      ∷ [])
    ∷ (record quiet {
      calls =
          record {
            index = some (pos 0);
            id = "";
            kind = "";
            name = "";
            arguments = RawText.text "}";
          }
          ∷ [];
    }
        ∷ [])
    ∷ (record quiet { finish = some "tool_calls" } ∷ [])
    ∷ []

abbrev chat_end : ChatStream
chat_end = record {
  choices =
      (
        pos 0,
        record {
          payload = false;
          finished = true;
          legacy = false;
          calls =
              (
                pos 0,
                record new_call {
                  id = "c1";
                  name = "f";
                  kind = "function";
                  args = "{}";
                  deltas = true;
                },
              )
              ∷ [];
        },
      )
      ∷ [];
  budget = record { argument_bytes = 2; call_count = 1 };
  ids = "c1" ∷ [];
}

observe_chat-Bounded_example :
    Passes Bounded (each (observe_chat is_object one_tool) chat_chunks empty_chat)
observe_chat-Bounded_example = observe_chat-Bounded is_object one_tool chat_chunks

abbrev still : MessagesEvent
still = record {
  index = some (pos 0);
  block = record { kind = "tool_use"; id = "t1"; name = "f"; input = "{}" };
  delta = record {
    kind = "input_json_delta";
    partial = some "{}";
    text = none;
    thinking = none;
    signature = none;
    stop_reason = "tool_use";
  };
}

abbrev message_events : List (String × MessagesEvent)
message_events =
    ("content_block_start", still)
    ∷ ("content_block_delta", still)
    ∷ ("content_block_stop", still)
    ∷ ("message_delta", still)
    ∷ []

abbrev message_end : BlockStream
message_end = record {
  native =
      (
        pos 0,
        record new_call {
          id = "t1";
          name = "f";
          kind = "tool_use";
          args = "{}";
          initial = "{}";
          deltas = true;
          done = true;
        },
      )
      ∷ [];
  budget = record { argument_bytes = 4; call_count = 1 };
  tools = 1;
  ids = "t1" ∷ [];
  stop_reason = "tool_use";
}

-- `data: x` in two chunks, and the empty line
abbrev sse_chunks : List Bytes
sse_chunks =
    (b'd' ∷ b'a' ∷ b't' ∷ []) ∷ (b'a' ∷ b':' ∷ b' ' ∷ b'x' ∷ b'\n' ∷ []) ∷ (b'\n' ∷ []) ∷ []

abbrev sse_start : StreamState (List Bytes)
sse_start = record { line = []; payload = []; event = []; err = none; inner = [] }

abbrev collect : Bytes → Bytes → List Bytes → List Bytes × Option String
collect payload event seen = (payload ∷ seen, none)
