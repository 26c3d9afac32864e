-- ===== src/Gateway/Examples.antt =====
-- Runs of the budgets and the attempts on concrete data.
use mathlib.Core.Path.{subst}
use lite2api.Common.{
  ap, ◌≡◌, ◌⊎◌, refl, inl, inr, ℕ, String, Bool, true, false, not, List, [], ◌∷◌, any, contains,
  if◌then◌else◌, eqb,
}
use lite2api.Gateway.Budget.{BodyStep, BodyByteLease, body_steps, empty_ledger}
use lite2api.Gateway.Budget.Balance.{total_reserved, body_steps-Balanced}
use lite2api.Gateway.Failover.{Selected, SelectError, Rewritten, Answer, Transfer, serve}
use lite2api.Gateway.Failover.Called.{Over}
use lite2api.Gateway.Failover.Once.{Excludes, serve_once}

abbrev two_requests : List BodyStep
two_requests =
    BodyStep.opens 100
    ∷ BodyStep.opens 100
    ∷ BodyStep.acquires 0 60
    ∷ BodyStep.acquires 1 30
    ∷ BodyStep.acquires 1 50
    ∷ BodyStep.shrinks 0 20
    ∷ BodyStep.releases 0
    ∷ BodyStep.releases 1
    ∷ []

body_steps-Balanced_example :
    ((body_steps two_requests empty_ledger).body_bytes
      ≡ total_reserved (body_steps two_requests empty_ledger).leases)
    × ((any (λ (l : BodyByteLease). not l.released) (body_steps two_requests empty_ledger).leases
          ≡ true)
        ⊎ ((body_steps two_requests empty_ledger).body_bytes ≡ 0))
body_steps-Balanced_example = body_steps-Balanced two_requests

abbrev offer : String → Bool → Selected ⊎ SelectError → Selected ⊎ SelectError
offer key taken other = if taken then other else inl (record { key = key; targeted = true })

-- two targets, in order
abbrev two_targets : ℕ → List String → Selected ⊎ SelectError
two_targets i excluded =
    offer "t1" (contains excluded "t1")
      (offer "t2" (contains excluded "t2") (inr SelectError.no_eligible_account))

offer-Excludes :
    (key : String) (excluded : List String) (taken : Bool) (other : Selected ⊎ SelectError)
    (sel : Selected)
    → contains excluded key ≡ taken
    → ((s : Selected) → other ≡ inl s → contains excluded s.key ≡ false)
    → offer key taken other ≡ inl sel
    → contains excluded sel.key ≡ false
offer-Excludes key excluded true other sel q rest e = rest sel e
offer-Excludes key excluded false other sel q rest e =
    let chosen : Selected = record { key = key; targeted = true } in
    let keys : key ≡ sel.key = ap (λ o. elim o [ inl s ↦ s.key | inr x ↦ chosen.key ]) e in
    subst (λ k. contains excluded k ≡ false) keys q

no_more :
    (excluded : List String) (s : Selected)
    → inr SelectError.no_eligible_account ≡ inl s
    → contains excluded s.key ≡ false
no_more excluded s e = cc

two_targets-Excludes : Excludes two_targets
two_targets-Excludes i excluded sel e =
    offer-Excludes "t1" excluded (contains excluded "t1") _ sel refl
      (λ s f. offer-Excludes "t2" excluded (contains excluded "t2") _ s refl (no_more excluded) f) e

serve_once_example : Over 2 (
    serve true two_targets
      (λ i sel. Rewritten.rewritten)
      (λ i sel.
        if eqb i 0
        then Answer.answered 429 false Transfer.complete
        else Answer.answered 200 false Transfer.complete)
      2)
serve_once_example =
    serve_once true two_targets (λ i sel. Rewritten.rewritten)
      (λ i sel.
        if eqb i 0
        then Answer.answered 429 false Transfer.complete
        else Answer.answered 200 false Transfer.complete)
      2 two_targets-Excludes
