-- ===== src/Stats/Trend/Ready.antt =====
-- The trend's rings stay in range, so that no request makes it panic.
use lite2api.Common.{
  >>=-some, take, if-both, false, ◌∙◌, Bool, ℕ, zero, suc, ◌+◌, ◌-◌, ◌*◌, ◌/◌, ◌<◌, ◌≡◌, refl, ap,
  arith, List, [], ◌∷◌, Option, none, some, length, get_elem?, is_empty, leb, if◌then◌else◌,
  Bool-cases, inl, inr, String,
}
use lite2api.Common.Int.{ℤ, ltb_ℤ, pos}
use lite2api.Common.Sorting.{sort_by, insert_by}
use lite2api.Stats.Records.{record_succeeded, RequestRecord}
use lite2api.Stats.Ring.Reads.{Holds, put-Holds, empty-Holds}
use lite2api.Stats.Trend.{
  Trend, TrendPoint, TrendBucket, max_trend_samples, empty_bucket, p95_value, trend_point,
  append_trend, count_in_bucket, count_current, close_bucket, record_trend, truncate_time,
  trend_bucket_duration, is_zero_time,
}

length-insert_by :
    (less : ℤ → ℤ → Bool) (x : ℤ) (xs : List ℤ) → length (insert_by less x xs) ≡ suc (length xs)
unfolding insert_by
length-insert_by less x [] = refl
length-insert_by less x (y ∷ ys) = elim (Bool-cases (less y x)) [
  | inl e ↦ rw e (ap suc (length-insert_by less x ys))
  | inr e ↦ rw e refl
]

length-sort_by : (less : ℤ → ℤ → Bool) (xs : List ℤ) → length (sort_by less xs) ≡ length xs
unfolding sort_by
length-sort_by less [] = refl
length-sort_by less (x ∷ xs) =
    length-insert_by less x (sort_by less xs) ∙ ap suc (length-sort_by less xs)

get_elem?-some : (xs : List ℤ) (i : ℕ) → i < length xs → (x : ℤ) × (get_elem? xs i ≡ some x)
get_elem?-some [] i h = absurd (omega arith)
get_elem?-some (x ∷ xs) zero h = (x, refl)
get_elem?-some (x ∷ xs) (suc i) h = get_elem?-some xs i (omega arith)

not_empty : (xs : List ℤ) → is_empty xs ≡ false → 0 < length xs
not_empty [] h = cc
not_empty (x ∷ xs) h = omega arith

-- The ring holds some values.
abbrev pub Ring {ℓ} : {A : Type ℓ} → ℕ → List A → ℕ → Type ℓ
Ring {A} limit items next = (h : List A) × Holds limit items next h

pub record Ready (s : Trend) : Type 0 where
  pub limited : 0 < s.trend_limit
  pub buckets : Ring s.trend_limit s.trend s.trend_next
  pub samples : Ring max_trend_samples s.current.latency_samples s.current.latency_next

-- The step gives a state, and it is ready.
abbrev pub Steps : Option Trend → Type 0
Steps o = (t : Trend) × (o ≡ some t) × Ready t

count_current-Steps : (r : RequestRecord) (s : Trend) → Ready s → Steps (count_current r s)
unfolding count_current count_in_bucket
count_current-Steps r s h =
    let latency : ℤ = if ltb_ℤ r.latency_ms (pos 0) then pos 0 else r.latency_ms in
    let put =
      put-Holds max_trend_samples latency s.current.latency_samples (h.samples.0)
        s.current.latency_next (h.samples.1) in
    let counted : TrendBucket = record {
      start = s.current.start;
      requests = suc s.current.requests;
      failed = if record_succeeded r then s.current.failed else suc s.current.failed;
      latency_samples = put.0;
      latency_next = put.1;
    } in
    (
      record s { current = counted },
      >>=-some _ (>>=-some _ (put.2)),
      record {
        limited = h.limited;
        buckets = h.buckets;
        samples = (take max_trend_samples (latency ∷ h.samples.0), put.3);
      },
    )

append_trend-Steps : (p : TrendPoint) (s : Trend) → Ready s → Steps (append_trend p s)
unfolding append_trend
append_trend-Steps p s h =
    let put = put-Holds s.trend_limit p s.trend (h.buckets.0) s.trend_next (h.buckets.1) in
    let on : leb s.trend_limit 0 ≡ false = ground (arith, h.limited) in
    (
      record s { trend = put.0; trend_next = put.1 },
      rw on (>>=-some _ (put.2)),
      record {
        limited = h.limited;
        buckets = (take s.trend_limit (p ∷ h.buckets.0), put.3);
        samples = h.samples;
      },
    )

module _ (format_time : ℤ → String) where
  trend_point-some : (b : TrendBucket) → (p : TrendPoint) × (trend_point format_time b ≡ some p)
  unfolding trend_point p95_value
  trend_point-some b =
      let point : TrendPoint = record {
        time = format_time b.start;
        requests = b.requests;
        failed = b.failed;
        p95_latency_ms = none;
      } in
      elim (Bool-cases (is_empty b.latency_samples)) [
        | inl e ↦ (record point { p95_latency_ms = none }, rw e refl)
        | inr e ↦
            let sorted = sort_by ltb_ℤ b.latency_samples in
            let value = get_elem?-some sorted ((95 * length b.latency_samples + 99) / 100 - 1) (
              ground
                (arith, length-sort_by ltb_ℤ b.latency_samples, not_empty b.latency_samples e)) in
            (record point { p95_latency_ms = some (value.0) }, rw e (>>=-some _ (value.1)))
      ]

  close_bucket-Steps : (start : ℤ) (s : Trend) → Ready s → Steps (close_bucket format_time start s)
  unfolding close_bucket append_trend
  close_bucket-Steps start s h =
      let point = trend_point-some s.current in
      let appended = append_trend-Steps (point.0) s h in
      (
        record (appended.0) { current = empty_bucket start },
        >>=-some _ (point.1) ∙ >>=-some _ (appended.1),
        record {
          limited = appended.2.limited;
          buckets = appended.2.buckets;
          samples = ([], empty-Holds max_trend_samples (omega arith));
        },
      )

  pub record_trend-Steps :
      (r : RequestRecord) (observed : ℤ) (s : Trend)
      → Ready s
      → Steps (record_trend format_time r observed s)
  unfolding record_trend
  record_trend-Steps r observed s h =
      let start = truncate_time trend_bucket_duration observed in
      let on : leb s.trend_limit 0 ≡ false = ground (arith, h.limited) in
      let closed = close_bucket-Steps start s h in
      let next = count_current-Steps r (closed.0) (closed.2) in
      rw on (
        if-both Steps (is_zero_time s.current.start)
          (count_current-Steps r (record s { current = record s.current { start = start } })
            (record { limited = h.limited; buckets = h.buckets; samples = h.samples }))
          (if-both Steps (ltb_ℤ s.current.start start)
            (next.0, >>=-some _ (closed.1) ∙ next.1, next.2)
            (if-both Steps (ltb_ℤ start s.current.start) (s, refl, h) (count_current-Steps r s h))))
