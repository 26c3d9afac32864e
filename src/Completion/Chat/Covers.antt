-- ===== src/Completion/Chat/Covers.antt =====
-- What one choice of a chat stream adds to the counters of the stream.
use lite2api.Runtime.Hash.{bytes}
use lite2api.Common.{
  ◌==◌, if◌then◌else◌, ℕ, ◌≤◌, ◌≡◌, refl, arith, String, Bool, true, false, List, Option, none,
  some, inl, inr,
}
use lite2api.Common.Int.{ℤ, pos}
use lite2api.Completion.Outcome.{
  Passes-inl, Passes-inr, Passes-step, ◌>>=◌, Passes, Passes-bind, refuse_if-Passes, each-Passes,
}
use lite2api.Completion.Contract.{CompletionRequirements, max_completion_arguments}
use lite2api.Completion.Calls.{append_arguments, CompletionStreamCall, Budget}
use lite2api.Completion.Calls.Bounds.{
  Covers, CoversCall, Appended, stream_call-Covers, append_arguments-Appended, put-Covers,
}
use lite2api.Completion.Chat.{
  or_else, text_of, present, RawText, CompletionStreamChoice, CallDelta, LegacyDelta, ChoiceDelta,
  Focus, observe_text, observe_arguments, observe_call_at, observe_call, observe_legacy,
  finish_choice, finish_with, observe_open,
}

observe_arguments-Appended :
    (message : String) (raw : RawText) (b : Budget) (call : CompletionStreamCall)
    → b.argument_bytes ≤ max_completion_arguments
    → Passes (Appended b call) (observe_arguments message raw b call)
unfolding observe_arguments
observe_arguments-Appended message raw b call h =
    elim (present raw)
      as (λ p. Passes (Appended b call) (
        if p
        then elim (text_of raw) [ none ↦ inr message | some part ↦ append_arguments b call part ]
        else inl (b, call))) [
          | true ↦
              elim (text_of raw)
                as (λ o.
                  Passes (Appended b call)
                    (elim o [ none ↦ inr message | some part ↦ append_arguments b call part ])) [
                      | none ↦ Passes-inr _ _
                      | some part ↦ append_arguments-Appended b call part
                    ]
          | false ↦ Passes-inl _ _ (omega arith, omega arith, h, refl)
        ]

-- The counters cover the choice at hand, beside what the others hold.
abbrev CoversFocus : ℕ → ℕ → Focus → Type 0
CoversFocus bytes calls (b, choice) = Covers bytes calls b choice.calls

module _ (valid_arguments : String → Bool) (r : CompletionRequirements) (bytes calls : ℕ) where
  observe_call_at-Covers :
      (delta : CallDelta) (index : ℤ) (focus : Focus)
      → CoversFocus bytes calls focus
      → Passes (CoversFocus bytes calls) (observe_call_at valid_arguments r delta index focus)
  unfolding observe_call_at
  observe_call_at-Covers delta index (b, choice) h =
      let P = CoversFocus bytes calls in
      refuse_if-Passes P _ _ _ λ allowed.
        Passes-bind (CoversCall bytes calls index) P _ _
          (stream_call-Covers bytes calls b choice.calls index h)
          λ (b1, group, call) found. refuse_if-Passes P _ _ _ λ on. Passes-step P _ _ λ id.
            Passes-step P _ _ λ name. Passes-step P _ _ λ kind.
              Passes-bind (Appended b1 call) P _ _
                (observe_arguments-Appended _ delta.arguments b1
                  (record call { id = id; name = name; kind = kind }) found.0.bytes_bound)
                λ (b2, call2) a.
                  Passes-inl P _ (put-Covers bytes calls b1 b2 group index call call2 found a)

  observe_call-Covers :
      (delta : CallDelta) (focus : Focus)
      → CoversFocus bytes calls focus
      → Passes (CoversFocus bytes calls) (observe_call valid_arguments r delta focus)
  unfolding observe_call
  observe_call-Covers delta focus h = refuse_if-Passes (CoversFocus bytes calls) _ _ _ λ modern.
      elim (delta.index)
        as (λ o. Passes (CoversFocus bytes calls) (elim o [
          | none ↦ inr "upstream tool delta has no index"
          | some index ↦ observe_call_at valid_arguments r delta index focus
        ])) [ none ↦ Passes-inr _ _ | some index ↦ observe_call_at-Covers delta index focus h ]

  observe_legacy-Covers :
      (delta : LegacyDelta) (focus : Focus)
      → CoversFocus bytes calls focus
      → Passes (CoversFocus bytes calls) (observe_legacy valid_arguments r delta focus)
  unfolding observe_legacy
  observe_legacy-Covers delta (b, choice) h =
      let P = CoversFocus bytes calls in
      refuse_if-Passes P _ _ _ λ alone.
        Passes-bind (CoversCall bytes calls (pos 127)) P _ _
          (stream_call-Covers bytes calls b choice.calls (pos 127) h)
          λ (b1, group, call) found. Passes-step P _ _ λ name.
            Passes-bind (Appended b1 call) P _ _
              (observe_arguments-Appended _ delta.arguments b1
                (record call { kind = "legacy"; name = name }) found.0.bytes_bound)
              λ (b2, call2) a.
                Passes-inl P _ (put-Covers bytes calls b1 b2 group (pos 127) call call2 found a)

  observe_text-calls :
      (raw : RawText) (choice : CompletionStreamChoice)
      → Passes (λ (c : CompletionStreamChoice). c.calls ≡ choice.calls) (observe_text raw choice)
  unfolding observe_text
  observe_text-calls RawText.absent choice = Passes-inl _ _ refl
  observe_text-calls RawText.null choice = Passes-inl _ _ refl
  observe_text-calls (RawText.text s) choice = Passes-inl _ _ refl
  observe_text-calls RawText.malformed choice = Passes-inr _ _

  abbrev pub CoversOutcome : Budget × CompletionStreamChoice × List String → Type 0
  CoversOutcome (b, choice, ids) = Covers bytes calls b choice.calls

  finish_choice-calls :
      (reason : String) (choice : CompletionStreamChoice) (ids : List String)
      → Passes
          (λ (closed : CompletionStreamChoice × List String). closed.0.calls ≡ choice.calls)
          (finish_choice valid_arguments r reason choice ids)
  unfolding finish_choice
  finish_choice-calls reason choice ids =
      refuse_if-Passes _ _ _ _ λ used. Passes-step _ _ _ λ seen. Passes-inl _ _ refl

  legacy-Covers :
      (o : Option LegacyDelta) (focus : Focus)
      → CoversFocus bytes calls focus
      → Passes
          (CoversFocus bytes calls)
          (elim o [ none ↦ inl focus | some old ↦ observe_legacy valid_arguments r old focus ])
  legacy-Covers none focus h = Passes-inl _ _ h
  legacy-Covers (some old) focus h = observe_legacy-Covers old focus h

  finish_with-Covers :
      (reason : String) (focus : Focus) (ids : List String)
      → CoversFocus bytes calls focus
      → Passes
          (λ (b, choice, seen). Covers bytes calls b choice.calls)
          (finish_with valid_arguments r reason focus ids)
  unfolding finish_with
  finish_with-Covers reason focus ids h =
      elim (reason == "")
        as (λ e. Passes CoversOutcome (
          if e
          then inl (focus.0, focus.1, ids)
          else (finish_choice valid_arguments r reason focus.1 ids >>= λ closed.
              inl (focus.0, closed.0, closed.1)))) [
                | true ↦ Passes-inl _ _ h
                | false ↦
                    Passes-bind
                      (λ (closed : CompletionStreamChoice × List String).
                        closed.0.calls ≡ focus.1.calls)
                      CoversOutcome _ _ (finish_choice-calls reason focus.1 ids)
                      λ closed e. Passes-inl CoversOutcome _ (rw e h)
              ]

  pub observe_open-Covers :
      (delta : ChoiceDelta) (b : Budget) (current : CompletionStreamChoice) (ids : List String)
      → Covers bytes calls b current.calls
      → Passes CoversOutcome (observe_open valid_arguments r delta b current ids)
  unfolding observe_open
  observe_open-Covers delta b current ids h =
      let P = CoversOutcome in
      Passes-bind (λ (c : CompletionStreamChoice). c.calls ≡ current.calls) P _ _
        (observe_text-calls delta.content current)
        λ c1 e1.
          Passes-bind (λ (c : CompletionStreamChoice). c.calls ≡ c1.calls) P _ _
            (observe_text-calls delta.refusal c1)
            λ c2 e2.
              Passes-bind (CoversFocus bytes calls) P _ _
                (each-Passes (CoversFocus bytes calls) (observe_call valid_arguments r)
                  observe_call-Covers delta.calls (b, c2) (rw (e2, e1) h))
                λ focus covered.
                  Passes-bind (CoversFocus bytes calls) P _ _
                    (legacy-Covers delta.legacy focus covered)
                    λ focus2 still. finish_with-Covers (or_else delta.finish "") focus2 ids still
