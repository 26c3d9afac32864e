-- ===== src/Runtime/Wait.antt =====
-- runtime.go `SelectForRequest`: a request waits for a lease until its deadline.
pub mod Rounds
use lite2api.Common.{
  ℕ, ◌+◌, String, Bool, true, false, not, ◌||◌, List, [], ◌∷◌, Option, none, some, leb,
  if◌then◌else◌,
}
use lite2api.Common.Int.{ℤ, pos, leb_ℤ}
use lite2api.Runtime.State.{Heap, Scheduler}
use lite2api.Runtime.Order.{Float64}
use lite2api.Runtime.Targets.{Query, Selection, Outcome}
use lite2api.Runtime.Select.{try_select}

-- what the `select` statement wakes up on
pub data Wake : Type 0 where
  cancelled expired changed : Wake

-- One round as the host runs it: the shared objects and the time that the attempt finds, the time at
-- which the remaining wait is computed, and what ends the sleep.
pub record Round : Type 0 where
  pub heap : Heap
  pub now : ℕ
  pub later : ℕ
  pub wake : Wake

pub data Served : Type 0 where
  selected : Selection → Heap → Served
  no_eligible_account known_unavailable no_capacity context_done still_waiting : Served

-- The excluded keys are none for a nil map, and a failed attempt leaves them alone; `deadline` is the
-- start plus the wait.
module _ (float : Float64) (wait : ℤ) (deadline : ℕ) (q : Query)
    (excluded : Option (List String)) where
  abbrev pub at_round : Round → Query
  at_round r = record q { now = r.now }

  abbrev pub attempt : Scheduler → Round → Outcome
  attempt s r = try_select float s r.heap (at_round r) excluded

  -- behind an attempt, with what the later rounds give
  unfoldable pub after_attempt : Round → Outcome → Served → Served
  after_attempt r out rest = elim out.selection [
    | some sel ↦ selected sel out.heap
    | none ↦
        if not out.eligible
        then no_eligible_account
        else if not out.capacity_blocked
        then known_unavailable
        else if leb_ℤ wait (pos 0) || leb deadline r.later
        then no_capacity
        else elim r.wake [ cancelled ↦ context_done | expired ↦ no_capacity | changed ↦ rest ]
  ]

  -- The round-robin counters are the scheduler's own, so they go on from round to round.
  unfoldable pub select_for_request : Scheduler → List Round → Served
  unfolding after_attempt
  select_for_request s [] = still_waiting
  select_for_request s (r ∷ rounds) =
      let out = attempt s r in
      let next = record s { round_robin = out.round_robin } in
      after_attempt r out (select_for_request next rounds)
