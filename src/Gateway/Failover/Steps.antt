-- ===== src/Gateway/Failover/Steps.antt =====
-- What each step of an attempt keeps: the leases, the targets tried, and that only refused calls
-- are followed by another.
use lite2api.Common.{
  if-both, ℕ, suc, ◌≡◌, refl, arith, Bool, true, false, not, ◌&&◌, ◌||◌, ◌∷◌, none, some, eqb, leb,
  ltb, inl, inr, if◌then◌else◌, Bool-cases,
}
use lite2api.Gateway.Failover.{
  judge_delivered, Report, normalize_auth_status, retryable_status, retryable_status_for_operation,
  Selected, Transfer, Answer, Reply, Run, Step, finish, give_back, tell, retry_later, deliver,
  retry_status, judge_response, transport_failed, judge_answer,
}
use lite2api.Gateway.Failover.Called.{
  Refused, Fine, Called, Called-Over, Called-Going, Refused-again,
}

module _ (more : Bool) (n : ℕ) (sel : Selected) where
  -- a step that ends after the lease is given back, whatever it reports
  abbrev Ends : Answer → Step → Run → Type 0
  Ends answer step run = Called n sel answer run → Fine more n step

  transport_failed-Fine :
      (safe : Bool) (answer : Answer) (run : Run)
      → (safe ≡ true → Refused (sel.targeted, answer))
      → Ends answer (transport_failed more sel safe run) run
  unfolding transport_failed
  transport_failed-Fine safe answer run k h =
      let told = tell sel (Report.failure false) (give_back sel run) in
      let over : (r : Reply) → Fine more n (finish r told) = λ r.
        Called-Over n sel answer run (record told { reply = some r }) r h refl refl refl refl in
      elim (Bool-cases (safe && more)) [
        | inl go_on ↦ rw go_on (
          Called-Going n sel answer run (record told { failovers = suc run.failovers }) h
              (k (ground arith)) refl refl refl refl,
          ground arith,
        )
        | inr stop ↦ rw stop (
            if-both (Fine more n) (not safe) {x = _} {y = _} (over Reply.uncertain_submission)
              (elim (run.last)
                as (λ o. Fine more n (elim o [
                  | some status ↦ finish (Reply.last_response status) told
                  | none ↦ finish Reply.connect_error told
                ])) [
                  | some status ↦ over (Reply.last_response status)
                  | none ↦ over Reply.connect_error
                ]))
      ]

  -- the run after the lease is given back, with any reports
  abbrev After : Run → Run → Type 0
  After run over =
      (over.tried ≡ run.tried)
      × (over.excluded ≡ run.excluded)
      × (over.released ≡ sel.key ∷ run.released)
      × (over.calls ≡ run.calls)

  After-Over :
      (answer : Answer) (run over : Run) (r : Reply)
      → Called n sel answer run
      → After run over
      → Fine more n (finish r over)
  After-Over answer run over r h a =
      Called-Over n sel answer run (record over { reply = some r }) r h a.0 a.2 a.3 refl

  After-Going :
      (answer : Answer) (run next : Run)
      → Called n sel answer run
      → Refused (sel.targeted, answer)
      → After run next
      → more ≡ true
      → Fine more n (retry_later next)
  After-Going answer run next h k a m = (
    Called-Going n sel answer run (record next { failovers = suc next.failovers }) h k a.0 a.1 a.2
        a.3,
    m,
  )

  retry_status-Fine :
      (status : ℕ) (answer : Answer) (run : Run)
      → Refused (sel.targeted, answer)
      → Called n sel answer run
      → Fine more n (retry_status more sel status run)
  unfolding retry_status
  retry_status-Fine status answer run k h =
      let kept : Run = record (give_back sel run) { last = some (normalize_auth_status status) } in
      let forced = eqb status 401 || eqb status 402 || eqb status 403 in
      let reported : Run = tell sel (Report.failure forced) kept in
      let told : Run = if sel.targeted && eqb status 404 then kept else reported in
      let after : After run told =
        if-both (After run) (sel.targeted && eqb status 404) {x = kept} {y = reported}
          (refl, refl, refl, refl) (refl, refl, refl, refl) in
      elim more
          as (λ m.
            more ≡ m
            → Fine more n (
                if m
                then retry_later told
                else finish (Reply.last_response (normalize_auth_status status)) told)) [
                  | true ↦ λ e. After-Going answer run told h k after e
                  | false ↦ λ e.
                      After-Over answer run told
                        (Reply.last_response (normalize_auth_status status)) h after
                ]
        refl

  judged-After :
      (status : ℕ) (run : Run) → After run (judge_delivered sel status (give_back sel run))
  unfolding judge_delivered
  judged-After status run =
      let over = give_back sel run in
      let told : (report : Report) → After run (tell sel report over) =
        λ report. (refl, refl, refl, refl) in
      let forced = eqb status 401 || eqb status 402 || eqb status 403 in
      if-both (After run) (leb 400 status) {x = _} {y = _}
        (if-both (After run) (retryable_status status) {x = _} {y = _}
          (told (Report.failure forced)) (told Report.neutral))
        (if-both (After run) (ltb status 200 || leb 300 status) {x = _} {y = _}
          (told Report.neutral) (told Report.success))

  deliver-Fine :
      (status : ℕ) (transfer : Transfer) (answer : Answer) (run : Run)
      → Called n sel answer run
      → Fine more n (deliver sel status transfer run)
  unfolding deliver
  deliver-Fine status Transfer.complete answer run h =
      After-Over answer run (judge_delivered sel status (give_back sel run)) _ h
        (judged-After status run)
  deliver-Fine status Transfer.upstream_broke answer run h =
      After-Over answer run (tell sel (Report.failure false) (give_back sel run)) _ h
        (refl, refl, refl, refl)
  deliver-Fine status Transfer.downstream_broke answer run h =
      After-Over answer run (give_back sel run) _ h (refl, refl, refl, refl)
  deliver-Fine status Transfer.client_left answer run h =
      After-Over answer run (give_back sel run) _ h (refl, refl, refl, refl)

  pub judge_answer-Fine :
      (answer : Answer) (run : Run)
      → Called n sel answer run
      → Fine more n (judge_answer more sel answer run)
  unfolding judge_answer judge_response
  judge_answer-Fine Answer.not_sent run h =
      transport_failed-Fine true Answer.not_sent run (λ e. tt) h
  judge_answer-Fine Answer.maybe_sent run h =
      transport_failed-Fine false Answer.maybe_sent run (λ e. cc) h
  judge_answer-Fine Answer.client_gone run h =
      Called-Over n sel Answer.client_gone run
        (record (give_back sel run) { reply = some Reply.client_cancelled }) Reply.client_cancelled
        h refl refl refl refl
  judge_answer-Fine (Answer.answered status safe transfer) run h =
      let answer = Answer.answered status safe transfer in
      let verdict = retryable_status_for_operation status in
      elim (Bool-cases (not (safe && retryable_status status) && verdict.uncertain)) [
        | inl uncertain ↦
            rw uncertain
              (Called-Over n sel answer run _ Reply.uncertain_submission h refl refl refl refl)
        | inr clear ↦
            rw clear
              (elim (Bool-cases (
                safe && retryable_status status
                || verdict.retry
                || sel.targeted && eqb status 404)) [
                  | inl again ↦ rw again (
                      retry_status-Fine status answer run
                        (Refused-again status safe sel.targeted transfer again) h)
                  | inr final ↦ rw final (deliver-Fine status transfer answer run h)
                ])
      ]
