-- ===== src/Completion/Chat/Bounds.antt =====
-- The memory that a chat stream may take.
use lite2api.Common.{◌-◌, ℕ, ◌≤◌, ◌≡◌, refl, arith, String, Bool, List, Option, none, some, length}
use lite2api.Common.Int.{ℤ}
use lite2api.Completion.Outcome.{
  Passes-inl, Passes-step, Passes, Passes-bind, refuse_if-Passes, each, each-Passes,
}
use lite2api.Completion.Contract.{
  CompletionRequirements, max_completion_tools, max_completion_arguments,
}
use lite2api.Completion.Calls.{Table, find, put, Budget}
use lite2api.Completion.Calls.Bounds.{held-le-total, total, held, total-put, bytes_of, Covers}
use lite2api.Completion.Chat.{
  or_else, ChatStream, empty_chat, CompletionStreamChoice, new_choice, ChoiceDelta, observe_choice,
  observe_chat,
}
use lite2api.Completion.Chat.Covers.{CoversOutcome, observe_open-Covers}

-- the bytes of arguments and the calls that the choices hold
abbrev pub choices_bytes : Table CompletionStreamChoice → ℕ
choices_bytes = total (λ c. bytes_of c.calls)

abbrev pub choices_calls : Table CompletionStreamChoice → ℕ
choices_calls = total (λ c. length c.calls)

pub record Bounded (s : ChatStream) : Type 0 where
  pub holds_bytes : choices_bytes s.choices ≤ s.budget.argument_bytes
  pub holds_calls : choices_calls s.choices ≤ s.budget.call_count
  pub bytes_bound : s.budget.argument_bytes ≤ max_completion_arguments
  pub calls_bound : s.budget.call_count ≤ max_completion_tools

-- What is found weighs what the table holds at the key, and a new choice nothing.
held-current :
    (weight : CompletionStreamChoice → ℕ) (o : Option CompletionStreamChoice)
    → weight new_choice ≡ 0
    → weight (or_else o new_choice) ≡ held weight o
held-current weight none e = e
held-current weight (some c) e = refl

-- what the other choices hold
abbrev others : (CompletionStreamChoice → ℕ) → ChatStream → ℤ → ℕ
others weight s index = total weight s.choices - held weight (find index s.choices)

abbrev bytes_held : CompletionStreamChoice → ℕ
bytes_held c = bytes_of c.calls

abbrev calls_held : CompletionStreamChoice → ℕ
calls_held c = length c.calls

open-Covers :
    (s : ChatStream) (index : ℤ)
    → Bounded s
    → Covers
        (others bytes_held s index)
        (others calls_held s index)
        s.budget
        (or_else (find index s.choices) new_choice).calls
open-Covers s index h =
    let found = find index s.choices in
    record {
      holds_bytes = omega (
        arith,
        held-current bytes_held found refl,
        held-le-total bytes_held index s.choices,
        h.holds_bytes,
      );
      holds_calls = omega (
        arith,
        held-current calls_held found refl,
        held-le-total calls_held index s.choices,
        h.holds_calls,
      );
      bytes_bound = h.bytes_bound;
      calls_bound = h.calls_bound;
    }

put-Bounded :
    (s : ChatStream) (index : ℤ) (b : Budget) (choice : CompletionStreamChoice) (ids : List String)
    → Covers (others bytes_held s index) (others calls_held s index) b choice.calls
    → Bounded (record { choices = put index choice s.choices; budget = b; ids = ids })
put-Bounded s index b choice ids h = record {
  holds_bytes = omega (
    arith,
    total-put bytes_held index choice s.choices,
    held-le-total bytes_held index s.choices,
    h.holds_bytes,
  );
  holds_calls = omega (
    arith,
    total-put calls_held index choice s.choices,
    held-le-total calls_held index s.choices,
    h.holds_calls,
  );
  bytes_bound = h.bytes_bound;
  calls_bound = h.calls_bound;
}

module _ (valid_arguments : String → Bool) (r : CompletionRequirements) where
  observe_choice-Bounded :
      (delta : ChoiceDelta) (s : ChatStream)
      → Bounded s
      → Passes Bounded (observe_choice valid_arguments r delta s)
  unfolding observe_choice
  observe_choice-Bounded delta s h = Passes-step Bounded _ _ λ index.
      refuse_if-Passes Bounded _ _ _ λ within. refuse_if-Passes Bounded _ _ _ λ running.
        let bytes = others bytes_held s index in
        let calls = others calls_held s index in
        let current = or_else (find index s.choices) new_choice in
        Passes-bind (CoversOutcome valid_arguments r bytes calls) Bounded _ _
          (observe_open-Covers valid_arguments r bytes calls delta s.budget current s.ids
            (open-Covers s index h))
          λ (b, choice, ids) covered.
            Passes-inl Bounded _ (put-Bounded s index b choice ids covered)

  -- Whatever chunks a chat stream sends, as long as no error ends it, the arguments that are kept
  -- have at most 1 MiB together, and there are at most 128 tool calls, over all choices.
  pub observe_chat-Bounded :
      (chunks : List (List ChoiceDelta))
      → Passes Bounded (each (observe_chat valid_arguments r) chunks empty_chat)
  unfolding observe_chat
  observe_chat-Bounded chunks =
      each-Passes Bounded (observe_chat valid_arguments r)
        (each-Passes Bounded (observe_choice valid_arguments r) observe_choice-Bounded) chunks
        empty_chat
        (record {
          holds_bytes = omega arith;
          holds_calls = omega arith;
          bytes_bound = omega arith;
          calls_bound = omega arith;
        })
