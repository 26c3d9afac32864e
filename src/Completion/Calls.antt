-- ===== src/Completion/Calls.antt =====
-- completion_stream_contract.go: the tool calls that a stream builds up.
use Prim.Native.String.{len, ◌++◌ as append}
use lite2api.Common.{
  ℕ, ◌+◌, String, Bool, true, false, not, ◌&&◌, ◌||◌, List, [], ◌∷◌, Option, none, some, length,
  ◌==◌, ltb, leb, ◌⊎◌, inl, inr, if◌then◌else◌,
}
use lite2api.Common.Int.{ℤ, pos, ltb_ℤ, leb_ℤ, eqb_ℤ}
use lite2api.Completion.Outcome.{◌>>=◌, ◌>>◌, refuse_if}
use lite2api.Completion.Contract.{
  CompletionRequirements, accepts_tool, max_completion_tools, max_completion_arguments,
}
pub mod Bounds

-- A Go map with int keys, in the order in which one `range` meets the entries.
abbrev pub Table {ℓ} : Type ℓ → Type ℓ
Table V = List (ℤ × V)

module _ {ℓ} {V : Type ℓ} where
  unfoldable pub find : ℤ → Table V → Option V
  find key [] = none
  find key ((at, value) ∷ rest) = if eqb_ℤ at key then some value else find key rest

  unfoldable pub put : ℤ → V → Table V → Table V
  put key value [] = (key, value) ∷ []
  put key value ((at, old) ∷ rest) =
      if eqb_ℤ at key then (key, value) ∷ rest else (at, old) ∷ put key value rest

pub record CompletionStreamCall : Type 0 where
  pub id : String
  pub name : String
  pub kind : String
  pub call_id : String
  pub args : String
  pub initial : String
  pub deltas : Bool
  pub done : Bool
  pub started : Bool
  pub arguments_done : Bool
  pub item_done : Bool

abbrev pub new_call : CompletionStreamCall
new_call = record {
  id = "";
  name = "";
  kind = "";
  call_id = "";
  args = "";
  initial = "";
  deltas = false;
  done = false;
  started = false;
  arguments_done = false;
  item_done = false;
}

-- the counters that every group of calls shares
pub record Budget : Type 0 where
  pub argument_bytes : ℕ
  pub call_count : ℕ

abbrev pub Calls : Type 0
Calls = Table CompletionStreamCall

-- the call at the index, with the group and the counters that hold it
unfoldable pub stream_call : Budget → Calls → ℤ → (Budget × Calls × CompletionStreamCall) ⊎ String
stream_call b group index =
    let fresh : (Budget × Calls × CompletionStreamCall) ⊎ String =
      if leb max_completion_tools b.call_count
      then inr "upstream returned too many tool calls"
      else inl (record b { call_count = b.call_count + 1 }, put index new_call group, new_call) in
    if ltb_ℤ index (pos 0) || leb_ℤ (pos max_completion_tools) index
    then inr "upstream tool index exceeds the supported range"
    else elim (find index group) [ none ↦ fresh | some call ↦ inl (b, group, call) ]

unfoldable pub append_arguments :
    Budget → CompletionStreamCall → String → (Budget × CompletionStreamCall) ⊎ String
append_arguments b call part =
    let before = if call.deltas then call.args else "" in
    if call.done || call.arguments_done
    then inr "upstream appended arguments after tool completion"
    else if ltb max_completion_arguments (b.argument_bytes + len part)
    then inr "upstream tool arguments exceed the inspection limit"
    else inl (
      record b { argument_bytes = b.argument_bytes + len part },
      record call { args = append before part; deltas = true },
    )

unfoldable pub append_call_identity : String → String → String ⊎ String
append_call_identity dst part =
    if ltb 256 (len dst + len part)
    then inr "upstream tool identity exceeds 256 bytes"
    else inl (append dst part)

-- `valid_arguments` is validToolArguments.
unfoldable pub valid_stream_call :
    (String → Bool) → CompletionRequirements → CompletionStreamCall → Bool → Bool
valid_stream_call valid_arguments r call legacy =
    (legacy || not (call.id == ""))
    && not (call.name == "")
    && accepts_tool r call.name
    && valid_arguments call.args
