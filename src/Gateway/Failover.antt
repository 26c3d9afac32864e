-- ===== src/Gateway/Failover.antt =====
-- gateway.go `ServeGateway`: the attempts of a request on one upstream account after another, from
-- the first selection to the response.
use lite2api.Common.{
  ℕ, zero, suc, ◌+◌, Bool, true, false, not, ◌&&◌, ◌||◌, List, [], ◌∷◌, Option, none, some, String,
  eqb, leb, ltb, ◌⊎◌, inl, inr, length, if◌then◌else◌,
}
use lite2api.ClientKeys.Validate.{is_none}
pub mod Called
pub mod Steps
pub mod Once

pub retryable_status : ℕ → Bool
retryable_status code =
    eqb code 401
    || eqb code 402
    || eqb code 403
    || eqb code 408
    || eqb code 409
    || eqb code 425
    || eqb code 429
    || leb 500 code && leb code 599

pub record Verdict : Type 0 where
  pub retry : Bool
  pub uncertain : Bool

-- the operation is not looked at
pub retryable_status_for_operation : ℕ → Verdict
retryable_status_for_operation code =
    if eqb code 401 || eqb code 402 || eqb code 403 || eqb code 429
    then record { retry = true; uncertain = false }
    else if eqb code 408 || eqb code 409 || eqb code 425
    then record { retry = false; uncertain = true }
    else record { retry = false; uncertain = leb 500 code && leb code 599 }

-- normalizeUpstreamAuthError, on the status that is buffered
pub normalize_auth_status : ℕ → ℕ
normalize_auth_status status = if eqb status 401 || eqb status 403 then 502 else status

-- the errors of SelectForRequest, and the end of the client's request
pub data SelectError : Type 0 where
  no_eligible_account known_unavailable no_capacity context_done : SelectError

pub record Selected : Type 0 where
  pub key : String
  pub targeted : Bool

-- rewriting the body for the selected target: its bytes in the budget, its size, or an error
pub data Rewritten : Type 0 where
  rewritten over_budget rewrite_failed too_large : Rewritten

-- how the transfer of the response ended
pub data Transfer : Type 0 where
  complete : Transfer
  upstream_broke : Transfer
  downstream_broke : Transfer
  client_left : Transfer

-- `safe_header` says that a trusted adapter marked the response as safe to retry.
pub data Answer : Type 0 where
  not_sent : Answer
  maybe_sent : Answer
  client_gone : Answer
  answered : (status : ℕ) → (safe_header : Bool) → Transfer → Answer

-- what the client gets
pub data Reply : Type 0 where
  unavailable : String → Reply
  client_cancelled : Reply
  last_response : ℕ → Reply
  rejected : ℕ → Reply
  uncertain_submission : Reply
  connect_error : Reply
  streamed : ℕ → Transfer → Reply

pub data Report : Type 0 where
  failure : (forced : Bool) → Report
  neutral success : Report

-- what is known so far, the newest first: the targets tried, those whose lease is given back, the
-- upstream calls, the reports to the breakers
pub record Run : Type 0 where
  pub excluded : List String
  pub last : Option ℕ
  pub tried : List String
  pub released : List String
  pub calls : List (Bool × Answer)
  pub reports : List (String × Report)
  pub failovers : ℕ
  pub reply : Option Reply

abbrev pub first_run : Run
first_run = record {
  excluded = [];
  last = none;
  tried = [];
  released = [];
  calls = [];
  reports = [];
  failovers = 0;
  reply = none;
}

-- an attempt ends the request, or goes on to the next
pub data Step : Type 0 where
  done : Run → Step
  again : Run → Step

abbrev pub finish : Reply → Run → Step
finish reply run = done (record run { reply = some reply })

abbrev pub give_back : Selected → Run → Run
give_back sel run = record run { released = sel.key ∷ run.released }

abbrev pub tell : Selected → Report → Run → Run
tell sel report run = record run { reports = (sel.key, report) ∷ run.reports }

abbrev pub retry_later : Run → Step
retry_later run = again (record run { failovers = suc run.failovers })

-- without a response to fall back on
pub no_selection : Bool → SelectError → Reply
no_selection waited no_eligible_account = unavailable "no_eligible_source"
no_selection waited known_unavailable = unavailable "source_unavailable"
no_selection waited no_capacity =
    unavailable (if waited then "queue_timeout" else "capacity_exhausted")
no_selection waited context_done = client_cancelled

-- `queued` says that QueueTimeout is positive; after a response nothing waits.
pub selection_failed : Bool → SelectError → Run → Step
selection_failed queued e run = elim (run.last) [
  | some status ↦ finish (last_response status) run
  | none ↦ finish (no_selection queued e) run
]

-- the report on a response that was passed on in full
pub judge_delivered : Selected → ℕ → Run → Run
judge_delivered sel status run =
    let forced = eqb status 401 || eqb status 402 || eqb status 403 in
    if leb 400 status
    then if retryable_status status then tell sel (failure forced) run else tell sel neutral run
    else if ltb status 200 || leb 300 status
    then tell sel neutral run
    else tell sel success run

-- the response is passed on to the client
pub deliver : Selected → ℕ → Transfer → Run → Step
deliver sel status complete run =
    finish (streamed status complete) (judge_delivered sel status (give_back sel run))
deliver sel status upstream_broke run =
    finish (streamed status upstream_broke) (tell sel (failure false) (give_back sel run))
deliver sel status downstream_broke run =
    finish (streamed status downstream_broke) (give_back sel run)
deliver sel status client_left run = finish (streamed status client_left) (give_back sel run)

-- a status that is retried: the response is kept, in case it is the last
pub retry_status : Bool → Selected → ℕ → Run → Step
retry_status more sel status run =
    let kept = record (give_back sel run) { last = some (normalize_auth_status status) } in
    let forced = eqb status 401 || eqb status 402 || eqb status 403 in
    let told = if sel.targeted && eqb status 404 then kept else tell sel (failure forced) kept in
    if more then retry_later told else finish (last_response (normalize_auth_status status)) told

pub judge_response : Bool → Selected → ℕ → Bool → Transfer → Run → Step
judge_response more sel status safe_header transfer run =
    let verdict = retryable_status_for_operation status in
    let safe = safe_header && retryable_status status in
    if not safe && verdict.uncertain
    then finish uncertain_submission (tell sel (failure false) (give_back sel run))
    else if safe || verdict.retry || sel.targeted && eqb status 404
    then retry_status more sel status run
    else deliver sel status transfer run

pub transport_failed : Bool → Selected → Bool → Run → Step
transport_failed more sel safe run =
    let told = tell sel (failure false) (give_back sel run) in
    if safe && more
    then retry_later told
    else if not safe
    then finish uncertain_submission told
    else elim (run.last) [
      | some status ↦ finish (last_response status) told
      | none ↦ finish connect_error told
    ]

pub judge_answer : Bool → Selected → Answer → Run → Step
judge_answer more sel not_sent run = transport_failed more sel true run
judge_answer more sel maybe_sent run = transport_failed more sel false run
judge_answer more sel client_gone run = finish client_cancelled (give_back sel run)
judge_answer more sel (answered status safe_header transfer) run =
    judge_response more sel status safe_header transfer run

-- The scheduler, the rewriting of the body and the upstream, which may answer each attempt in
-- another way.
module _ (queued : Bool) (select : ℕ → List String → Selected ⊎ SelectError)
    (rewrite : ℕ → Selected → Rewritten) (upstream : ℕ → Selected → Answer) where
  pub attempt_selected : Bool → ℕ → Selected → Run → Step
  attempt_selected more i sel run =
      let chosen = record run { excluded = sel.key ∷ run.excluded; tried = sel.key ∷ run.tried } in
      let answer = upstream i sel in
      elim (rewrite i sel) [
        | over_budget ↦ finish (rejected 429) (give_back sel chosen)
        | rewrite_failed ↦ finish (rejected 500) (give_back sel chosen)
        | too_large ↦ finish (rejected 413) (give_back sel chosen)
        | rewritten ↦
            judge_answer more sel answer
              (record chosen { calls = (sel.targeted, answer) ∷ run.calls })
      ]

  pub attempt : Bool → ℕ → Run → Step
  attempt more i run = elim (select i run.excluded) [
    | inr e ↦ selection_failed queued e run
    | inl sel ↦ attempt_selected more i sel run
  ]

  -- for attempt := i; attempt < maxAttempts; attempt++, with `left` rounds to go
  pub attempts : ℕ → ℕ → Run → Run
  attempts zero i run = run
  attempts (suc left) i run =
      let rest : Run → Run = attempts left (suc i) in
      elim (attempt (ltb 0 left) i run) [ done over ↦ over | again next ↦ rest next ]

  pub serve : ℕ → Run
  serve limit = attempts (if eqb limit 0 then 1 else limit) 0 first_run
