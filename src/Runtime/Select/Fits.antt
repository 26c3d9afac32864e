-- ===== src/Runtime/Select/Fits.antt =====
-- Which accounts the two branches of `trySelect` consider.
use mathlib.Core.List.{Memᴰ}
use lite2api.Common.{
  some_eq, ℕ, ◌+◌, String, ◌≡◌, refl, sym, true, false, not, ◌&&◌, ◌||◌, List, [], ◌∷◌, Option,
  some, ◌==◌, map, arith, All, Bool-cases, Option-cases, inl, inr,
}
use lite2api.Common.Assoc.{Assoc, lookup}
use lite2api.Config.Types.{Route, RouteTarget}
use lite2api.Config.Operations.{anthropic_messages, account_supports_operation}
use lite2api.Requirements.{requirements_compatible, resolve_requested_reasoning}
use lite2api.Runtime.State.{Heap, AccountRuntime, Scheduler}
use lite2api.Runtime.Health.{available}
use lite2api.Runtime.Order.{Candidate}
use lite2api.Runtime.Targets.{
  Query, is_excluded, route_target_key, Verdict, ignored, skipped, taken, judge_model, judge_target,
  Collected, collect_verdict, collect_targets,
}
use lite2api.Runtime.Select.{legacy_eligible, open_accounts, legacy_accounts, legacy_model}

-- The accounts of the scheduler stand under their own IDs.
abbrev pub Keyed : Assoc AccountRuntime → Type 0
Keyed accounts = All (λ (e : String × AccountRuntime). e.1.config.id ≡ e.0) accounts

abbrev pub accounts_of : Scheduler → List AccountRuntime
accounts_of s = map (λ (e : String × AccountRuntime). e.1) s.accounts

-- An account of the scheduler that may serve the query with the model, the credential and the
-- effort, under a key that was not excluded.
pub record Fits (s : Scheduler) (q : Query) (excluded : Option (List String)) (a : AccountRuntime)
    (key model credential effort : String) : Type 0 where
  pub known : Memᴰ a (accounts_of s)
  pub enabled : a.config.enabled ≡ true
  pub operation : account_supports_operation a.config q.operation ≡ true
  pub compatible :
      requirements_compatible a.config model q.operation q.requirements credential effort ≡ true
  pub fresh : is_excluded excluded key ≡ false

pub lookup-Mem :
    (k : String) (m : Assoc AccountRuntime) (a : AccountRuntime)
    → lookup k m ≡ some a
    → Memᴰ a (map (λ (e : String × AccountRuntime). e.1) m)
unfolding lookup
lookup-Mem k [] a h = cc
lookup-Mem k ((j, b) ∷ m) a h = elim (Bool-cases (j == k)) [
  | inl here ↦ Memᴰ.head (sym (some_eq b a (rw here at h)))
  | inr later ↦ Memᴰ.tail (lookup-Mem k m a (rw later at h))
]

module _ (s : Scheduler) (q : Query) (excluded : Option (List String)) where
  abbrev pub CandidateFits : Candidate → Type 0
  CandidateFits c = Fits s q excluded c.account c.key c.model c.credential c.reasoning_effort

  abbrev VerdictFits : Verdict → Type 0
  VerdictFits ignored = Unit
  VerdictFits skipped = Unit
  VerdictFits (taken c) = CandidateFits c

  judge_model-Fits :
      (route : Route) (index : ℕ) (target : RouteTarget) (a : AccountRuntime)
      → Memᴰ a (accounts_of s)
      → a.config.enabled ≡ true
      → account_supports_operation a.config q.operation ≡ true
      → is_excluded excluded (route_target_key index target) ≡ false
      → VerdictFits (judge_model q route index target a)
  unfolding judge_model
  judge_model-Fits route index target a m e o f =
      let r = resolve_requested_reasoning a.config route target q.requirements in
      elim (Bool-cases (
        not r.ok
        || (q.operation == anthropic_messages && not (r.effort == "") && not (r.effort == "auto"))
        || not (
            requirements_compatible a.config r.model q.operation q.requirements target.credential
              r.effort))) [
                | inl refused ↦ rw refused tt
                | inr passes ↦ rw passes (record {
                  known = m;
                  enabled = e;
                  operation = o;
                  compatible = ground arith;
                  fresh = f;
                })
              ]

  judge_target-Fits :
      (route : Route) (index : ℕ) (target : RouteTarget)
      → VerdictFits (judge_target s q excluded route index target)
  unfolding judge_target
  judge_target-Fits route index target =
      elim (Bool-cases (is_excluded excluded (route_target_key index target))) [
        | inl excluded_before ↦ rw excluded_before tt
        | inr fresh ↦ rw fresh (elim (Option-cases (lookup target.account s.accounts)) [
          | inl missing ↦ rw missing tt
          | inr (a, found) ↦
              rw found
                (elim (Bool-cases
                  (not a.config.enabled || not (account_supports_operation a.config q.operation))) [
                    | inl refused ↦ rw refused tt
                    | inr passes ↦ rw passes (
                        judge_model-Fits route index target a
                          (lookup-Mem target.account s.accounts a found) (ground arith)
                          (ground arith) fresh)
                  ])
        ])
      ]

  pub collect_targets-Fits :
      (route : Route) (index : ℕ) (targets : List RouteTarget)
      → All CandidateFits (collect_targets s q excluded route index targets).candidates
  unfolding collect_targets collect_verdict
  collect_targets-Fits route index [] = tt
  collect_targets-Fits route index (t ∷ ts) =
      cons (judge_target s q excluded route index t)
        (collect_targets s q excluded route (index + 1) ts) (judge_target-Fits route index t)
        (collect_targets-Fits route (index + 1) ts)
    where
      cons :
          (v : Verdict) (rest : Collected)
          → VerdictFits v
          → All CandidateFits rest.candidates
          → All CandidateFits (collect_verdict (route_target_key index t) v rest).candidates
      cons ignored rest f r = r
      cons skipped rest f r = r
      cons (taken c) rest f r = (f, r)

-- the legacy branch: an account that fits under its ID, with the model that it is asked for
module _ (s : Scheduler) (q : Query) (excluded : Option (List String)) (route : Option Route) where
  abbrev pub AccountFits : AccountRuntime → Type 0
  AccountFits a =
      Fits s q excluded a a.config.id (legacy_model q route a) "" q.requirements.reasoning_effort

  legacy_eligible-Fits :
      (id : String) (a : AccountRuntime)
      → Memᴰ a (accounts_of s)
      → a.config.id ≡ id
      → legacy_eligible q excluded route id a ≡ true
      → AccountFits a
  unfolding legacy_eligible
  legacy_eligible-Fits id a m k h = record {
    known = m;
    enabled = ground arith;
    operation = ground arith;
    compatible = ground arith;
    fresh = rw k (ground arith);
  }

  pub legacy_accounts-Fits :
      (accounts : Assoc AccountRuntime)
      → Keyed accounts
      → ((a : AccountRuntime)
          → Memᴰ a (map (λ (e : String × AccountRuntime). e.1) accounts)
          → Memᴰ a (accounts_of s))
      → All AccountFits (legacy_accounts q excluded route accounts)
  unfolding legacy_accounts
  legacy_accounts-Fits [] k sub = tt
  legacy_accounts-Fits ((id, a) ∷ rest) (k, ks) sub =
      let others = legacy_accounts-Fits rest ks (λ b m. sub b (Memᴰ.tail m)) in
      elim (Bool-cases (legacy_eligible q excluded route id a)) [
        | inl able ↦ rw able (legacy_eligible-Fits id a (sub a (Memᴰ.head refl)) k able, others)
        | inr unable ↦ rw unable others
      ]

  abbrev pub Ready : Heap → AccountRuntime → Type 0
  Ready heap a =
      AccountFits a × (available heap q.now a q.operation (legacy_model q route a) "" ≡ true)

  pub open_accounts-Ready :
      (heap : Heap) (accounts : List AccountRuntime)
      → All AccountFits accounts
      → All (Ready heap) (open_accounts q route heap accounts)
  unfolding open_accounts
  open_accounts-Ready heap [] f = tt
  open_accounts-Ready heap (a ∷ rest) (f, fs) =
      let others = open_accounts-Ready heap rest fs in
      elim (Bool-cases (available heap q.now a q.operation (legacy_model q route a) "")) [
        | inl free ↦ rw free ((f, free), others)
        | inr blocked ↦ rw blocked others
      ]
