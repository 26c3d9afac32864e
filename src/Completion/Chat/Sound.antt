-- ===== src/Completion/Chat/Sound.antt =====
-- What a chat stream that completes has shown.
use lite2api.Common.{
  ◌≡◌, ◌≢◌, String, Bool, true, false, List, [], ◌∷◌, All, inl, inr, Bool-cases, ◌⊎◌, is_empty,
}
use lite2api.Common.Int.{ℤ, eqb_ℤ}
use lite2api.Completion.Contract.{CompletionRequirements, accepts_tool}
use lite2api.Completion.Calls.{Table, put, CompletionStreamCall, Budget}
use lite2api.Completion.Chat.{ChatStream, CompletionStreamChoice, Focus}

pub All-put {ℓ κ} :
    {V : Type ℓ} (P : ℤ × V → Type κ) (key : ℤ) (v : V) (t : Table V)
    → All P t
    → P (key, v)
    → All P (put key v t)
unfolding put
All-put P key v [] ps p = (p, tt)
All-put P key v ((at, old) ∷ rest) ps p = elim (Bool-cases (eqb_ℤ at key)) [
  | inl e ↦ rw e (p, ps.1)
  | inr e ↦ rw e (ps.0, All-put P key v rest ps.1 p)
]

module _ (valid_arguments : String → Bool) (r : CompletionRequirements) where
  -- A call with all that a client needs: a name that is allowed, arguments that are an object, and,
  -- unless it is in the old form, an identity.
  pub record CompleteCall (call : CompletionStreamCall) : Type 0 where
    pub named : call.name ≢ ""
    pub allowed : accepts_tool r call.name ≡ true
    pub arguments_valid : valid_arguments call.args ≡ true
    pub kind_known : (call.kind ≡ "legacy") ⊎ ((call.kind ≡ "function") × (call.id ≢ ""))

  pub record CompleteChoice (c : CompletionStreamChoice) : Type 0 where
    pub calls_complete : All (λ (e : ℤ × CompletionStreamCall). CompleteCall e.1) c.calls
    pub required_call : (is_empty c.calls ≡ false) ⊎ (r.tool_mode ≢ "required")
    pub has_payload : (is_empty c.calls ≡ false) ⊎ (c.payload ≡ true) ⊎ (r.expected_choices ≡ 0)

  -- A choice is open, or it is complete.
  abbrev pub Settled : ℤ × CompletionStreamChoice → Type 0
  Settled e = (e.1.finished ≡ false) ⊎ CompleteChoice e.1

  -- what stays of a choice while its chunk is read
  abbrev Running : Focus → Type 0
  Running focus = focus.1.finished ≡ false

  abbrev SettledOutcome : Budget × CompletionStreamChoice × List String → Type 0
  SettledOutcome o = (o.1.finished ≡ false) ⊎ CompleteChoice o.1

  abbrev AllSettled : ChatStream → Type 0
  AllSettled s = All Settled s.choices
