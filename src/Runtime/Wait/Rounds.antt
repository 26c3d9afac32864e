-- ===== src/Runtime/Wait/Rounds.antt =====
-- What a request that waited is served with.
use mathlib.Core.List.{Memᴰ}
use mathlib.Core.Path.{subst}
use lite2api.Common.{
  if-both, ◌≡◌, refl, not, ◌||◌, String, List, [], ◌∷◌, Option, some, ℕ, leb, Option-cases, inl,
  inr,
}
use lite2api.Common.Int.{pos, leb_ℤ, ℤ}
use lite2api.Common.Assoc.{Assoc}
use lite2api.Runtime.State.{Heap, Scheduler}
use lite2api.Runtime.Order.{Float64}
use lite2api.Runtime.Targets.{Query, Selection, Outcome}
use lite2api.Runtime.Select.Fits.{Keyed, Fits}
use lite2api.Runtime.Select.Leases.{Leased}
use lite2api.Runtime.Select.Sound.{try_select-Sound}
use lite2api.Runtime.Wait.{
  no_eligible_account, known_unavailable, no_capacity, context_done, still_waiting, Round, Wake,
  cancelled, expired, changed, Served, selected, at_round, attempt, after_attempt,
  select_for_request,
}

module _ (float : Float64) (wait : ℤ) (deadline : ℕ) (q : Query)
    (excluded : Option (List String)) where
  -- The selection was made in one of the rounds, from what that round found.
  pub record ServedIn (s : Scheduler) (rounds : List Round) (sel : Selection) (after : Heap)
      : Type 0 where
    pub round : Round
    pub known : Memᴰ round rounds
    pub fits :
        Fits s
          (at_round float wait deadline q excluded round)
          excluded
          sel.account
          sel.key
          sel.model
          sel.credential
          sel.reasoning_effort
    pub leased :
        Leased
          (at_round float wait deadline q excluded round)
          round.heap
          after
          sel.account
          sel.model
          sel.credential

  abbrev Good : Scheduler → List Round → Served → Type 0
  Good s rounds (selected sel after) = ServedIn s rounds sel after
  Good s rounds no_eligible_account = Unit
  Good s rounds known_unavailable = Unit
  Good s rounds no_capacity = Unit
  Good s rounds context_done = Unit
  Good s rounds still_waiting = Unit

  later_round :
      (s : Scheduler) (counters : Assoc ℕ) (r : Round) (rounds : List Round) (served : Served)
      → Good (record s { round_robin = counters }) rounds served
      → Good s (r ∷ rounds) served
  later_round s counters r rounds (selected sel after) g = record {
    round = g.round;
    known = Memᴰ.tail g.known;
    fits = record {
      known = g.fits.known;
      enabled = g.fits.enabled;
      operation = g.fits.operation;
      compatible = g.fits.compatible;
      fresh = g.fits.fresh;
    };
    leased = g.leased;
  }
  later_round s counters r rounds no_eligible_account g = tt
  later_round s counters r rounds known_unavailable g = tt
  later_round s counters r rounds no_capacity g = tt
  later_round s counters r rounds context_done g = tt
  later_round s counters r rounds still_waiting g = tt

  after_wake :
      (s : Scheduler) (rounds : List Round) (w : Wake) (rest : Served)
      → Good s rounds rest
      → Good s rounds (elim w [ cancelled ↦ context_done | expired ↦ no_capacity | changed ↦ rest ])
  after_wake s rounds cancelled rest g = tt
  after_wake s rounds expired rest g = tt
  after_wake s rounds changed rest g = g

  after_attempt-Good :
      (s : Scheduler) (rounds : List Round) (r : Round) (out : Outcome) (rest : Served)
      → ((sel : Selection) → out.selection ≡ some sel → ServedIn s rounds sel out.heap)
      → Good s rounds rest
      → Good s rounds (after_attempt float wait deadline q excluded r out rest)
  unfolding after_attempt
  after_attempt-Good s rounds r out rest now_or later = elim (Option-cases out.selection) [
    | inr (sel, chosen) ↦ rw chosen (now_or sel chosen)
    | inl nothing ↦ rw nothing (
        if-both (Good s rounds) (not out.eligible) tt (
          if-both (Good s rounds) (not out.capacity_blocked) tt (
            if-both (Good s rounds) (leb_ℤ wait (pos 0) || leb deadline r.later) tt
              (after_wake s rounds r.wake rest later))))
  ]

  select_for_request-Good :
      (s : Scheduler) (rounds : List Round)
      → Keyed s.accounts
      → Good s rounds (select_for_request float wait deadline q excluded s rounds)
  unfolding select_for_request
  select_for_request-Good s [] keyed = tt
  select_for_request-Good s (r ∷ rounds) keyed =
      let out = attempt float wait deadline q excluded s r in
      after_attempt-Good s (r ∷ rounds) r out _
        (λ sel chosen.
          let sound =
            try_select-Sound float s r.heap (at_round float wait deadline q excluded r) excluded sel
              keyed chosen in
          record { round = r; known = Memᴰ.head refl; fits = sound.0; leased = sound.1 })
        (later_round s out.round_robin r rounds _
          (select_for_request-Good (record s { round_robin = out.round_robin }) rounds keyed))

  -- Where the accounts stand under their own IDs, a request that waited is served only from one of
  -- its rounds: the account fits the query and granted the one lease that was taken, from what that
  -- round found.
  pub select_for_request-ServedIn :
      (s : Scheduler) (rounds : List Round) (sel : Selection) (after : Heap)
      → Keyed s.accounts
      → select_for_request float wait deadline q excluded s rounds ≡ selected sel after
      → ServedIn s rounds sel after
  select_for_request-ServedIn s rounds sel after keyed h =
      subst (Good s rounds) h (select_for_request-Good s rounds keyed)
