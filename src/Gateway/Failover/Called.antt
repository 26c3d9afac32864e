-- ===== src/Gateway/Failover/Called.antt =====
-- A run between two attempts, at its end, and with a call that is just answered.
use lite2api.Common.{
  sym, ◌∙◌, ℕ, ◌≤◌, ◌≡◌, arith, Bool, true, ◌&&◌, ◌||◌, List, ◌∷◌, some, eqb, ◌⊎◌, length, drop,
  Distinct, All,
}
use lite2api.Gateway.Failover.{
  retryable_status, retryable_status_for_operation, Selected, Transfer, Answer, Reply, Run, Step,
}

-- The upstream was not reached, or it refused the call: by its status, by a trusted mark on a
-- status that may be retried, or as an unknown model of a route target.
abbrev pub Refused : Bool × Answer → Type 0
Refused (targeted, Answer.not_sent) = Unit
Refused (targeted, Answer.maybe_sent) = ⊥
Refused (targeted, Answer.client_gone) = ⊥
Refused (targeted, Answer.answered status safe transfer) =
    (status ≡ 401)
    ⊎ (status ≡ 402)
    ⊎ (status ≡ 403)
    ⊎ (status ≡ 429)
    ⊎ ((safe ≡ true) × (retryable_status status ≡ true))
    ⊎ ((targeted ≡ true) × (status ≡ 404))

-- between two attempts, `n` of them made
pub record Going (n : ℕ) (run : Run) : Type 0 where
  pub made : length run.tried ≤ n
  pub same : run.excluded ≡ run.tried
  pub fresh : Distinct run.tried
  pub given_back : run.released ≡ run.tried
  pub refused : All Refused run.calls

-- at the end
pub record Over (n : ℕ) (run : Run) : Type 0 where
  pub made : length run.tried ≤ n
  pub fresh : Distinct run.tried
  pub given_back : run.released ≡ run.tried
  pub refused : All Refused (drop 1 run.calls)
  pub replied : (r : Reply) × (run.reply ≡ some r)

-- `more` says that there is another attempt: only then may a step go on.
abbrev pub Fine : Bool → ℕ → Step → Type 0
Fine more n (Step.done run) = Over n run
Fine more n (Step.again run) = Going n run × (more ≡ true)

-- with a call that is just answered
pub record Called (n : ℕ) (sel : Selected) (answer : Answer) (run : Run) : Type 0 where
  pub made : length run.tried ≤ n
  pub same : run.excluded ≡ run.tried
  pub fresh : Distinct run.tried
  pub held : sel.key ∷ run.released ≡ run.tried
  pub earlier : List (Bool × Answer)
  pub calls : run.calls ≡ (sel.targeted, answer) ∷ earlier
  pub refused : All Refused earlier

pub Called-Over :
    (n : ℕ) (sel : Selected) (answer : Answer) (run over : Run) (r : Reply)
    → Called n sel answer run
    → over.tried ≡ run.tried
    → over.released ≡ sel.key ∷ run.released
    → over.calls ≡ run.calls
    → over.reply ≡ some r
    → Over n over
Called-Over n sel answer run over r h t g c e = record {
  made = rw t (h.made);
  fresh = rw t (h.fresh);
  given_back = g ∙ h.held ∙ sym t;
  refused = rw (c, h.calls) (h.refused);
  replied = (r, e);
}

pub Called-Going :
    (n : ℕ) (sel : Selected) (answer : Answer) (run next : Run)
    → Called n sel answer run
    → Refused (sel.targeted, answer)
    → next.tried ≡ run.tried
    → next.excluded ≡ run.excluded
    → next.released ≡ sel.key ∷ run.released
    → next.calls ≡ run.calls
    → Going n next
Called-Going n sel answer run next h k t x g c = record {
  made = rw t (h.made);
  same = x ∙ h.same ∙ sym t;
  fresh = rw t (h.fresh);
  given_back = g ∙ h.held ∙ sym t;
  refused = rw (c, h.calls) (k, h.refused);
}

retry_status_lem :
    (status : ℕ)
    → (retryable_status_for_operation status).retry ≡ true
    → (status ≡ 401) ⊎ (status ≡ 402) ⊎ (status ≡ 403) ⊎ (status ≡ 429)
unfolding retryable_status_for_operation
retry_status_lem status e = ground arith

pub Refused-again :
    (status : ℕ) (safe targeted : Bool) (transfer : Transfer)
    → safe && retryable_status status
        || (retryable_status_for_operation status).retry
        || targeted && eqb status 404
      ≡ true
    → Refused (targeted, Answer.answered status safe transfer)
Refused-again status safe targeted transfer e = ground (arith, retry_status_lem status)
