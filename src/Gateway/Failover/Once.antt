-- ===== src/Gateway/Failover/Once.antt =====
-- Every request gets one reply, no target is tried twice, and no call that the upstream may have
-- accepted is made again.
use lite2api.Common.{
  ltb→lt, ◌<◌, ℕ, zero, suc, ◌+◌, ◌≤◌, ◌≡◌, refl, ap, arith, Bool, false, List, [], ◌∷◌, none, some,
  String, eqb, ltb, ◌⊎◌, inl, inr, drop, contains, All, if◌then◌else◌,
}
use lite2api.Gateway.Failover.{
  SelectError, Selected, Rewritten, Answer, Reply, Run, first_run, Step, finish, give_back,
  no_selection, selection_failed, judge_answer, attempt_selected, attempt, attempts, serve,
}
use lite2api.Gateway.Failover.Called.{Refused, Going, Over, Fine}
use lite2api.Gateway.Failover.Steps.{judge_answer-Fine}

All-drop_one {ℓ κ} : {A : Type ℓ} (P : A → Type κ) (xs : List A) → All P xs → All P (drop 1 xs)
All-drop_one P [] h = tt
All-drop_one P (x ∷ xs) h = h.1

Going-Over :
    (n : ℕ) (run : Run) (r : Reply) → Going n run → Over (suc n) (record run { reply = some r })
Going-Over n run r h = record {
  made = omega (arith, h.made);
  fresh = h.fresh;
  given_back = h.given_back;
  refused = All-drop_one Refused run.calls h.refused;
  replied = (r, refl);
}

selection_failed-Fine :
    (queued more : Bool) (n : ℕ) (e : SelectError) (run : Run)
    → Going n run
    → Fine more (suc n) (selection_failed queued e run)
unfolding selection_failed
selection_failed-Fine queued more n e run h =
    elim (run.last)
      as (λ o. Fine more (suc n) (elim o [
        | some status ↦ finish (Reply.last_response status) run
        | none ↦ finish (no_selection queued e) run
      ])) [ some status ↦ Going-Over n run _ h | none ↦ Going-Over n run _ h ]

Over-le : (n m : ℕ) (run : Run) → n ≤ m → Over n run → Over m run
Over-le n m run l h = record {
  made = omega (arith, h.made);
  fresh = h.fresh;
  given_back = h.given_back;
  refused = h.refused;
  replied = h.replied;
}

-- The scheduler does not select what is excluded.
abbrev pub Excludes : (ℕ → List String → Selected ⊎ SelectError) → Type 0
Excludes select =
    (i : ℕ) (excluded : List String) (sel : Selected)
    → select i excluded ≡ inl sel
    → contains excluded sel.key ≡ false

module _ (queued : Bool) (select : ℕ → List String → Selected ⊎ SelectError)
    (rewrite : ℕ → Selected → Rewritten) (upstream : ℕ → Selected → Answer) where
  attempt_selected-Fine :
      (more : Bool) (i n : ℕ) (sel : Selected) (run : Run)
      → Going n run
      → contains run.excluded sel.key ≡ false
      → Fine more (suc n) (attempt_selected queued select rewrite upstream more i sel run)
  unfolding attempt_selected
  attempt_selected-Fine more i n sel run h new =
      let fresh : contains run.tried sel.key ≡ false = rw (h.same) at new in
      let answer = upstream i sel in
      let chosen : Run = record run {
        excluded = sel.key ∷ run.excluded;
        tried = sel.key ∷ run.tried;
      } in
      let rejected : (status : ℕ)
          → Fine more (suc n) (finish (Reply.rejected status) (give_back sel chosen)) =
        λ status. record {
          made = omega (arith, h.made);
          fresh = (fresh, h.fresh);
          given_back = ap (λ keys. sel.key ∷ keys) h.given_back;
          refused = All-drop_one Refused run.calls h.refused;
          replied = (Reply.rejected status, refl);
        } in
      elim (rewrite i sel)
        as (λ o. Fine more (suc n) (elim o [
          | Rewritten.over_budget ↦ finish (Reply.rejected 429) (give_back sel chosen)
          | Rewritten.rewrite_failed ↦ finish (Reply.rejected 500) (give_back sel chosen)
          | Rewritten.too_large ↦ finish (Reply.rejected 413) (give_back sel chosen)
          | Rewritten.rewritten ↦
              judge_answer more sel answer
                (record chosen { calls = (sel.targeted, answer) ∷ run.calls })
        ])) [
          | Rewritten.over_budget ↦ rejected 429
          | Rewritten.rewrite_failed ↦ rejected 500
          | Rewritten.too_large ↦ rejected 413
          | Rewritten.rewritten ↦
              judge_answer-Fine more (suc n) sel answer
                (record chosen { calls = (sel.targeted, answer) ∷ run.calls })
                (record {
                  made = omega (arith, h.made);
                  same = ap (λ keys. sel.key ∷ keys) h.same;
                  fresh = (fresh, h.fresh);
                  held = ap (λ keys. sel.key ∷ keys) h.given_back;
                  earlier = run.calls;
                  calls = refl;
                  refused = h.refused;
                })
        ]

  attempt-Fine :
      (more : Bool) (i n : ℕ) (run : Run)
      → Excludes select
      → Going n run
      → Fine more (suc n) (attempt queued select rewrite upstream more i run)
  unfolding attempt attempt_selected
  attempt-Fine more i n run ex h = chosen (select i run.excluded) refl
    where
      chosen :
          (o : Selected ⊎ SelectError)
          → select i run.excluded ≡ o
          → Fine more (suc n) (elim o [
            | inr e ↦ selection_failed queued e run
            | inl sel ↦ attempt_selected queued select rewrite upstream more i sel run
          ])
      chosen (inr e) q = selection_failed-Fine queued more n e run h
      chosen (inl sel) q = attempt_selected-Fine more i n sel run h (ex i run.excluded sel q)

  attempts-Over :
      (left i n : ℕ) (run : Run)
      → Excludes select
      → Going n run
      → 0 < left
      → Over (n + left) (attempts queued select rewrite upstream left i run)
  unfolding attempts
  attempts-Over zero i n run ex h p = absurd (omega arith)
  attempts-Over (suc left) i n run ex h p =
      elim (attempt queued select rewrite upstream (ltb 0 left) i run)
          as (λ step.
            Fine (ltb 0 left) (suc n) step
            → Over (n + suc left) (elim step [
              | Step.done over ↦ over
              | Step.again next ↦ attempts queued select rewrite upstream left (suc i) next
            ])) [
              | Step.done over ↦ λ f. Over-le (suc n) (n + suc left) over (omega arith) f
              | Step.again next ↦ λ f.
                  Over-le (suc n + left) (n + suc left) _ (omega arith)
                    (attempts-Over left (suc i) (suc n) next ex f.0 (ltb→lt 0 left f.1))
            ]
        (attempt-Fine (ltb 0 left) i n run ex h)

  -- A request with at most `limit` attempts, on a scheduler that selects nothing excluded, and
  -- whatever the upstreams answer, gets a reply; at most `limit` targets are tried, or one if
  -- `limit` is 0, none of them twice; each lease that was taken is given back once; and each
  -- upstream call but the last was refused or never sent, so none that may have been accepted is
  -- made again.
  pub serve_once :
      (limit : ℕ)
      → Excludes select
      → Over (if eqb limit 0 then 1 else limit) (serve queued select rewrite upstream limit)
  unfolding serve
  serve_once limit ex =
      let rounds = if eqb limit 0 then 1 else limit in
      Over-le (0 + rounds) rounds _ (omega arith) (
        attempts-Over rounds 0 0 first_run ex
          (record { made = omega arith; same = refl; fresh = tt; given_back = refl; refused = tt })
          (ground arith))
