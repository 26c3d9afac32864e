-- ===== src/Completion/Messages/Sound.antt =====
-- What a Messages stream that stops has shown.
use lite2api.Common.{◌≡◌, ◌≢◌, String, Bool, true, false, not, All, ◌⊎◌, any, Distinct}
use lite2api.Common.Int.{ℤ}
use lite2api.Completion.Outcome.{refuse_if-Passes, refuse_if-Passes}
use lite2api.ClientKeys.Validate.{is_none}
use lite2api.Completion.Contract.{CompletionRequirements, accepts_tool}
use lite2api.Completion.Calls.{CompletionStreamCall, Calls}
use lite2api.Completion.Messages.{stop_tool, is_none, BlockStream, stop_tool}

-- a block that an upstream may still change, one that is no tool call, or a complete tool call
module _ (valid_arguments : String → Bool) (same_arguments : String → String → Bool)
    (is_empty_object : String → Bool) (r : CompletionRequirements) where
  pub record CompleteTool (call : CompletionStreamCall) : Type 0 where
    pub identified : call.id ≢ ""
    pub named : call.name ≢ ""
    pub allowed : accepts_tool r call.name ≡ true
    pub arguments_valid : valid_arguments call.args ≡ true

  abbrev pub BlockSettled : ℤ × CompletionStreamCall → Type 0
  BlockSettled e = (e.1.done ≡ false) ⊎ (e.1.kind ≢ "tool_use") ⊎ CompleteTool e.1

  pub record BlocksSettled (s : BlockStream) : Type 0 where
    pub blocks : All BlockSettled s.native
    pub distinct : Distinct s.ids

  abbrev Stopped : BlockStream → BlockStream → Type 0
  Stopped s t = (t ≡ s) × (any (λ (c : ℤ × CompletionStreamCall). not c.1.done) s.native ≡ false)
