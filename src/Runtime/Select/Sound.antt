-- ===== src/Runtime/Select/Sound.antt =====
-- What a selection guarantees, and what a refusal leaves behind.
use lite2api.Runtime.Order.Laws.{order_route_target_candidates-All, order_candidates-All}
use lite2api.Runtime.Select.Leases.{
  walk-Leased, Leased, first_lease-granted, walk-refuses, first_lease-refuses,
}
use lite2api.Runtime.Select.Fits.{
  legacy_accounts-Fits, collect_targets-Fits, open_accounts-Ready, Keyed, CandidateFits, Ready,
  Keyed, Fits, CandidateFits,
}
use mathlib.Core.Path.{subst}
use lite2api.Common.{
  some_eq, if-both, if◌then◌else◌, is_empty, is_empty, Bool, ℕ, String, ◌≡◌, refl, true, not, List,
  Option, none, some, All, Option-cases, inl, inr,
}
use lite2api.Common.Assoc.{Assoc, lookup}
use lite2api.Config.Types.{Route}
use lite2api.Runtime.State.{Heap, AccountRuntime, Scheduler}
use lite2api.Runtime.Health.{try_acquire}
use lite2api.Runtime.Order.{Float64, Candidate}
use lite2api.Runtime.Targets.{Selection, Outcome, Query}
use lite2api.Runtime.Select.{
  select_target, finish_legacy, select_legacy, try_select, select_candidate, finish_targets, walk,
}

-- The claim for an outcome: what it selects fits, and one lease of it is taken.
abbrev pub Sound : Scheduler → Heap → Query → Option (List String) → Outcome → Selection → Type 0
Sound s heap q excluded out sel =
    Fits s q excluded sel.account sel.key sel.model sel.credential sel.reasoning_effort
    × Leased q heap out.heap sel.account sel.model sel.credential

finish_targets-Sound :
    (s : Scheduler) (heap : Heap) (q : Query) (excluded : Option (List String))
    (skipped_keys : List String) (eligible : Bool) (counters : Assoc ℕ) (cs : List Candidate)
    (sel : Selection)
    → All (CandidateFits s q excluded) cs
    → (finish_targets s excluded skipped_keys eligible counters (walk q cs heap)).selection
      ≡ some sel
    → Sound s heap q excluded
        (finish_targets s excluded skipped_keys eligible counters (walk q cs heap))
        sel
unfolding finish_targets select_candidate
finish_targets-Sound s heap q excluded skipped_keys eligible counters cs sel fits h =
    elim (Option-cases (walk q cs heap).chosen) [
      | inl nothing ↦ absurd (none-some sel (rw nothing at h))
      | inr (c, chosen) ↦ rw chosen (
          subst
            (λ y.
              Fits s q excluded y.account y.key y.model y.credential y.reasoning_effort
              × Leased q heap (walk q cs heap).heap y.account y.model y.credential)
            (some_eq (select_candidate c) sel (rw chosen at h))
            (walk-Leased (CandidateFits s q excluded) q cs heap c fits chosen))
    ]
  where
    none-some : {A : Type 0} (a : A) → none ≡ some a → ⊥
    none-some a e = cc

module _ (float : Float64) (s : Scheduler) (heap : Heap) (q : Query)
    (excluded : Option (List String)) where
  finish_legacy-Sound :
      (route : Option Route) (eligible blocked : Bool) (counters : Assoc ℕ)
      (r : Option AccountRuntime × Heap) (sel : Selection)
      → ((a : AccountRuntime)
          → r.0 ≡ some a
          → Ready s q excluded route heap a
            × ((try_acquire a heap).1 ≡ true)
            × (r.1 ≡ (try_acquire a heap).0))
      → (finish_legacy q route excluded eligible blocked counters r).selection ≡ some sel
      → Sound s heap q excluded (finish_legacy q route excluded eligible blocked counters r) sel
  unfolding finish_legacy
  finish_legacy-Sound route eligible blocked counters (none, after) sel good h = cc
  finish_legacy-Sound route eligible blocked counters (some a, after) sel good h =
      let (ready, granted, taken_once) = good a refl in
      subst
        (λ y.
          Fits s q excluded y.account y.key y.model y.credential y.reasoning_effort
          × Leased q heap after y.account y.model y.credential)
        (some_eq _ sel h)
        (ready.0, record { free = ready.1; granted = granted; taken_once = taken_once })

  finish_legacy-refuses :
      (route : Option Route) (eligible blocked : Bool) (counters : Assoc ℕ)
      (r : Option AccountRuntime × Heap)
      → (r.0 ≡ none → r.1 ≡ heap)
      → (finish_legacy q route excluded eligible blocked counters r).selection ≡ none
      → ((finish_legacy q route excluded eligible blocked counters r).heap ≡ heap)
        × ((finish_legacy q route excluded eligible blocked counters r).excluded ≡ excluded)
  unfolding finish_legacy
  finish_legacy-refuses route eligible blocked counters (none, after) same h = (same refl, refl)
  finish_legacy-refuses route eligible blocked counters (some a, after) same h = cc

  finish_targets-refuses :
      (skipped_keys : List String) (eligible : Bool) (counters : Assoc ℕ) (cs : List Candidate)
      → (finish_targets s excluded skipped_keys eligible counters (walk q cs heap)).selection ≡ none
      → ((finish_targets s excluded skipped_keys eligible counters (walk q cs heap)).heap ≡ heap)
        × ((finish_targets s excluded skipped_keys eligible counters (walk q cs heap)).excluded
            ≡ excluded)
  unfolding finish_targets
  finish_targets-refuses skipped_keys eligible counters cs h =
      elim (Option-cases (walk q cs heap).chosen) [
        | inl nothing ↦ rw nothing (walk-refuses q cs heap nothing, refl)
        | inr (c, chosen) ↦ absurd (some_none (select_candidate c) (rw chosen at h))
      ]
    where
      some_none : {A : Type 0} (a : A) → some a ≡ none → ⊥
      some_none a e = cc

  select_legacy-Sound :
      (route : Option Route) (sel : Selection)
      → Keyed s.accounts
      → (select_legacy float s heap q excluded route).selection ≡ some sel
      → Sound s heap q excluded (select_legacy float s heap q excluded route) sel
  unfolding select_legacy
  select_legacy-Sound route sel keyed h =
      finish_legacy-Sound route _ _ _ _ sel
        (λ a. first_lease-granted (Ready s q excluded route heap) heap _ a (
          order_candidates-All float heap (Ready s q excluded route heap) _ _ _ _ _ (
            open_accounts-Ready s q excluded route heap _
              (legacy_accounts-Fits s q excluded route s.accounts keyed (λ b m. m)))))
        h

  select_legacy-refuses :
      (route : Option Route)
      → (select_legacy float s heap q excluded route).selection ≡ none
      → ((select_legacy float s heap q excluded route).heap ≡ heap)
        × ((select_legacy float s heap q excluded route).excluded ≡ excluded)
  unfolding select_legacy
  select_legacy-refuses route h = finish_legacy-refuses route _ _ _ _ (first_lease-refuses heap _) h

  select_target-Sound :
      (route : Route) (sel : Selection)
      → (select_target float s heap q excluded route).selection ≡ some sel
      → Sound s heap q excluded (select_target float s heap q excluded route) sel
  unfolding select_target
  select_target-Sound route sel h =
      finish_targets-Sound s heap q excluded _ _ _ _ sel
        (order_route_target_candidates-All float heap (CandidateFits s q excluded) _ _ _ _ _
          (collect_targets-Fits s q excluded route 0 route.targets))
        h

  select_target-refuses :
      (route : Route)
      → (select_target float s heap q excluded route).selection ≡ none
      → ((select_target float s heap q excluded route).heap ≡ heap)
        × ((select_target float s heap q excluded route).excluded ≡ excluded)
  unfolding select_target
  select_target-refuses route h = finish_targets-refuses _ _ _ _ h

  try_select-both :
      (P : Outcome → Type 0)
      → ((route : Option Route) → P (select_legacy float s heap q excluded route))
      → ((route : Route) → P (select_target float s heap q excluded route))
      → P (try_select float s heap q excluded)
  unfolding try_select
  try_select-both P legacy target =
      elim (lookup q.model s.routes)
        as (λ r. P (elim r [
          | none ↦ select_legacy float s heap q excluded none
          | some route ↦
              if not (is_empty route.targets)
              then select_target float s heap q excluded route
              else select_legacy float s heap q excluded (some route)
        ])) [
          | none ↦ legacy none
          | some route ↦
              if-both P (not (is_empty route.targets)) (target route) (legacy (some route))
        ]

  -- Where the accounts stand under their own IDs, a selection is of an account of the scheduler
  -- that is enabled, has the operation and meets the requirements with the model, credential and
  -- effort selected, under a key that was not excluded; its circuit was closed, it granted a
  -- lease, and that lease is the only change to the shared objects.
  pub try_select-Sound :
      (sel : Selection)
      → Keyed s.accounts
      → (try_select float s heap q excluded).selection ≡ some sel
      → Sound s heap q excluded (try_select float s heap q excluded) sel
  try_select-Sound sel keyed =
      try_select-both (λ out. out.selection ≡ some sel → Sound s heap q excluded out sel)
        (λ route. select_legacy-Sound route sel keyed) (λ route. select_target-Sound route sel)

  -- Without a selection no lease is taken, no shared object changes, and no key is excluded.
  pub try_select_refuses :
      (try_select float s heap q excluded).selection ≡ none
      → ((try_select float s heap q excluded).heap ≡ heap)
        × ((try_select float s heap q excluded).excluded ≡ excluded)
  try_select_refuses =
      try_select-both (λ out. out.selection ≡ none → (out.heap ≡ heap) × (out.excluded ≡ excluded))
        select_legacy-refuses select_target-refuses
