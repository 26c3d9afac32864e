-- ===== src/Stats/Recent/Refine.antt =====
-- What the statistics show is what a plain journal of the calls says.
use lite2api.Common.{
  ℕ, zero, suc, ◌+◌, ◌<◌, ◌≡◌, refl, ap, ◌∙◌, ◌>>=◌, >>=-some, arith, Bool, true, false, List, [],
  ◌∷◌, Option, some, take, String, leb,
}
use lite2api.Common.Int.{ℤ, pos, sub_ℕ, incr, decr}
use lite2api.Stats.Records.{RequestRecord, sanitize_request_record}
use lite2api.Stats.Ring.Reads.{Holds, put-Holds, read_at-Holds, empty-Holds}
use lite2api.Stats.Trend.{max_trend_samples}
use lite2api.Stats.Trend.Ready.{Ready, record_trend-Steps}
use lite2api.Stats.Routes.{record_time}
use lite2api.Stats.Recent.{
  Stats, StatsSnapshot, new_stats_with_trend, new_stats, begin_request, end_request, count_failover,
  put_recent, record_request, recent_requests, snapshot,
}

-- the calls of the gateway
pub data Call : Type 0 where
  begins : Call
  ends : Bool → Call
  fails_over : Call
  records : ℤ → RequestRecord → Call

-- every call counted, every record kept, the newest first
pub record Journal : Type 0 where
  pub begun : ℕ
  pub succeeded : ℕ
  pub failed : ℕ
  pub failovers : ℕ
  pub newest : List RequestRecord

abbrev pub empty_journal : Journal
empty_journal = record { begun = 0; succeeded = 0; failed = 0; failovers = 0; newest = [] }

pub note : Call → Journal → Journal
note begins j = record j { begun = suc j.begun }
note (ends true) j = record j { succeeded = suc j.succeeded }
note (ends false) j = record j { failed = suc j.failed }
note fails_over j = record j { failovers = suc j.failovers }
note (records now r) j = record j { newest = sanitize_request_record r ∷ j.newest }

pub journal : List Call → Journal → Journal
journal [] j = j
journal (c ∷ cs) j = journal cs (note c j)

pub view : ℕ → Journal → StatsSnapshot
view limit j = record {
  requests = pos j.begun;
  successful = pos j.succeeded;
  failed = pos j.failed;
  failovers = pos j.failovers;
  active = sub_ℕ j.begun (j.succeeded + j.failed);
  recent_limit = limit;
  recent = take limit j.newest;
}

module _ {ℓ} {A : Type ℓ} where
  take-take-suc : (n : ℕ) (xs : List A) → take n (take (suc n) xs) ≡ take n xs
  take-take-suc zero xs = refl
  take-take-suc (suc n) [] = refl
  take-take-suc (suc n) (x ∷ xs) = ap (λ ys. x ∷ ys) (take-take-suc n xs)

  take-cons_take : (n : ℕ) (x : A) (xs : List A) → take n (x ∷ take n xs) ≡ take n (x ∷ xs)
  take-cons_take zero x xs = refl
  take-cons_take (suc n) x xs = ap (λ ys. x ∷ ys) (take-take-suc n xs)

abbrev no_records : List RequestRecord
no_records = []

take_nil : (n : ℕ) → take n [] ≡ no_records
take_nil zero = refl
take_nil (suc n) = refl

incr-pos : (n : ℕ) → incr (pos n) ≡ pos (suc n)
incr-pos n = ground arith

incr-sub_ℕ : (a b : ℕ) → incr (sub_ℕ a b) ≡ sub_ℕ (suc a) b
incr-sub_ℕ a b = ground arith

decr-sub_ℕ : (a b c : ℕ) → c ≡ suc b → decr (sub_ℕ a b) ≡ sub_ℕ a c
decr-sub_ℕ a b c e = rw e (ground arith)

-- The statistics stand for the journal.
pub record Implements (limit : ℕ) (s : Stats) (j : Journal) : Type 0 where
  pub limit_kept : s.limit ≡ limit
  pub begun : s.requests ≡ pos j.begun
  pub succeeded : s.success ≡ pos j.succeeded
  pub failed : s.failed ≡ pos j.failed
  pub failovers : s.failovers ≡ pos j.failovers
  pub active : s.active ≡ sub_ℕ j.begun (j.succeeded + j.failed)
  pub ring : Holds s.limit s.recent s.next (take s.limit j.newest)
  pub trend : Ready s.trend

module _ (format_time : ℤ → String) (parse_time : String → Option ℤ) where
  pub apply : Call → Stats → Option Stats
  apply begins s = some (begin_request s)
  apply (ends ok) s = some (end_request ok s)
  apply fails_over s = some (count_failover s)
  apply (records now r) s = record_request format_time parse_time now r s

  pub run : List Call → Stats → Option Stats
  unfolding apply
  run [] s = some s
  run (c ∷ cs) s = apply c s >>= run cs

  record_request-Implements :
      (limit : ℕ) (now : ℤ) (r : RequestRecord) (s : Stats) (j : Journal)
      → 0 < limit
      → Implements limit s j
      → (t : Stats) × (record_request format_time parse_time now r s ≡ some t)
        × Implements limit t (note (records now r) j)
  unfolding record_request put_recent note
  record_request-Implements limit now r s j l h =
      let clean = sanitize_request_record r in
      let trend =
        record_trend-Steps format_time clean (record_time parse_time now clean.time) s.trend
          h.trend in
      let put = put-Holds s.limit clean s.recent (take s.limit j.newest) s.next h.ring in
      let on : leb s.limit 0 ≡ false = ground (arith, h.limit_kept) in
      (
        record s { trend = trend.0; recent = put.0; next = put.1 },
        >>=-some _ (trend.1) ∙ rw on (>>=-some _ (put.2)),
        record {
          limit_kept = h.limit_kept;
          begun = h.begun;
          succeeded = h.succeeded;
          failed = h.failed;
          failovers = h.failovers;
          active = h.active;
          ring = rw (take-cons_take s.limit clean j.newest) at (put.3);
          trend = trend.2;
        },
      )

  apply-Implements :
      (limit : ℕ) (c : Call) (s : Stats) (j : Journal)
      → 0 < limit
      → Implements limit s j
      → (t : Stats) × (apply c s ≡ some t) × Implements limit t (note c j)
  unfolding apply note begin_request end_request count_failover
  apply-Implements limit begins s j l h = (
    begin_request s,
    refl,
    record {
      limit_kept = h.limit_kept;
      begun = ap incr h.begun ∙ incr-pos j.begun;
      succeeded = h.succeeded;
      failed = h.failed;
      failovers = h.failovers;
      active = ap incr h.active ∙ incr-sub_ℕ j.begun (j.succeeded + j.failed);
      ring = h.ring;
      trend = h.trend;
    },
  )
  apply-Implements limit (ends true) s j l h = (
    end_request true s,
    refl,
    record {
      limit_kept = h.limit_kept;
      begun = h.begun;
      succeeded = ap incr h.succeeded ∙ incr-pos j.succeeded;
      failed = h.failed;
      failovers = h.failovers;
      active = ap decr h.active ∙ decr-sub_ℕ j.begun (j.succeeded + j.failed) _ (omega arith);
      ring = h.ring;
      trend = h.trend;
    },
  )
  apply-Implements limit (ends false) s j l h = (
    end_request false s,
    refl,
    record {
      limit_kept = h.limit_kept;
      begun = h.begun;
      succeeded = h.succeeded;
      failed = ap incr h.failed ∙ incr-pos j.failed;
      failovers = h.failovers;
      active = ap decr h.active ∙ decr-sub_ℕ j.begun (j.succeeded + j.failed) _ (omega arith);
      ring = h.ring;
      trend = h.trend;
    },
  )
  apply-Implements limit fails_over s j l h = (
    count_failover s,
    refl,
    record {
      limit_kept = h.limit_kept;
      begun = h.begun;
      succeeded = h.succeeded;
      failed = h.failed;
      failovers = ap incr h.failovers ∙ incr-pos j.failovers;
      active = h.active;
      ring = h.ring;
      trend = h.trend;
    },
  )
  apply-Implements limit (records now r) s j l h = record_request-Implements limit now r s j l h

  run-Implements :
      (limit : ℕ) (calls : List Call) (s : Stats) (j : Journal)
      → 0 < limit
      → Implements limit s j
      → (t : Stats) × (run calls s ≡ some t) × Implements limit t (journal calls j)
  unfolding run journal
  run-Implements limit [] s j l h = (s, refl, h)
  run-Implements limit (c ∷ cs) s j l h =
      let step = apply-Implements limit c s j l h in
      let rest = run-Implements limit cs (step.0) (note c j) l (step.2) in
      (rest.0, >>=-some (run cs) (step.1) ∙ rest.1, rest.2)

  snapshot-Implements :
      (limit : ℕ) (s : Stats) (j : Journal)
      → Implements limit s j
      → snapshot s ≡ some (view limit j)
  unfolding snapshot view recent_requests
  snapshot-Implements limit s j h =
      >>=-some _ (read_at-Holds s.limit s.recent (take s.limit j.newest) s.next h.ring)
      ∙ rw (h.limit_kept, h.begun, h.succeeded, h.failed, h.failovers, h.active) refl

  new_stats-Implements : (limit : ℕ) → 0 < limit → Implements limit (new_stats limit) empty_journal
  unfolding new_stats new_stats_with_trend
  new_stats-Implements limit l = record {
    limit_kept = refl;
    begun = refl;
    succeeded = refl;
    failed = refl;
    failovers = refl;
    active = refl;
    ring = rw (take_nil limit) (empty-Holds limit l);
    trend = record {
      limited = omega arith;
      buckets = ([], empty-Holds _ (omega arith));
      samples = ([], empty-Holds max_trend_samples (omega arith));
    };
  }

  -- Whatever calls are made on new statistics with a positive limit, none panics, and a snapshot
  -- then shows what the journal of the same calls says: the counts, the requests that are active,
  -- and the last `limit` records, each cut to its budget, the newest first.
  pub run_refines :
      (limit : ℕ) (calls : List Call)
      → 0 < limit
      → (run calls (new_stats limit) >>= snapshot) ≡ some (view limit (journal calls empty_journal))
  run_refines limit calls l =
      let ran =
        run-Implements limit calls (new_stats limit) empty_journal l
          (new_stats-Implements limit l) in
      >>=-some snapshot (ran.1) ∙ snapshot-Implements limit (ran.0) _ (ran.2)
