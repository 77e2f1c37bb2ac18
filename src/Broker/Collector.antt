-- ===== src/Broker/Collector.antt =====
-- `RecordCounter`, `RecordDurationMs` and `CollectMetrics` keep the metrics as `MetricsCollector` of
-- src/metrics.cc does, in the fields of one hash.
use crunchytask.Common.{
  suc, ◌+◌, ◌<◌, ◌^◌, ℕ, ℤ, pos, ◌+ℤ◌, String, ◌==◌, ◌<>◌, ◌≡◌, Bool-cases, inl, inr, Option, none,
  some, List, [], ◌∷◌, Dict, lookup, lookup-insert, eq_iff, AllDistinct, refl, ap, ◌∙◌, sym,
}
use crunchytask.Outside.Floats.{Floats}
use crunchytask.Outside.Json.{JsonLib}
use crunchytask.Outside.Lua.{Lua}
use crunchytask.Outside.Redis.{Redis}
use crunchytask.Heartbeat.{Numerals, WorkerKeys}
use crunchytask.Metrics.{
  DurationHistogram, MetricsSnapshot, empty_metrics, value_or, max_ℤ, increment_counter, observe,
  observe_duration_ms,
}
use crunchytask.Metrics.Format.{names}
use crunchytask.Broker.{Store, record_counter}
use crunchytask.Broker.Collect.{split_last, collect_each, apply_live_gauges, collect_metrics}
use crunchytask.Broker.Recording.{hincrby, record_duration_ms}
use crunchytask.Broker.Fields.{part_field}
use crunchytask.Broker.Reading.{
  histogram_at, count-IsPart, sum-IsPart, max-IsPart, first_of, collect-counters, collect-part,
}
use crunchytask.Broker.Metering.{
  value_at, lookup-hincrby, hincrby-other, counter_apart, part_apart, counter_same, count_plain,
  sum_plain, max_plain, timed_fields, timed_fields-other, timed_fields-count, timed_fields-sum,
  timed_fields-max, across, hincrby-AllDistinct, raise_max-AllDistinct,
}

-- A call of one of the two recording methods; a duration is not negative.
pub data Recorded : Type 0 where
  counted : String → ℤ → Recorded
  timed : String → ℕ → Recorded

-- How far a call moves a field of the hash at most.
abbrev pub amount : Recorded → ℕ
amount (counted name (ℤ.pos n)) = n
amount (counted name (ℤ.negsuc n)) = suc n
amount (timed name ms) = suc ms

abbrev pub recorded_total : List Recorded → ℕ
recorded_total [] = 0
recorded_total (r ∷ rs) = amount r + recorded_total rs

unfoldable pub collector_after : List Recorded → MetricsSnapshot → MetricsSnapshot
unfolding increment_counter observe_duration_ms
collector_after [] s = s
collector_after (counted name delta ∷ rs) s = collector_after rs (increment_counter name delta s)
collector_after (timed name ms ∷ rs) s = collector_after rs (observe_duration_ms name (pos ms) s)

-- The hash and the collector hold the same counters and histograms.
record Agrees (m : Dict ℤ) (s : MetricsSnapshot) : Type 0 where
  pub once : AllDistinct (names m)
  pub counters : (name : String) → lookup ("c:" <> name) m ≡ lookup name s.counters
  pub counts_of :
      (name : String) → value_at (part_field name "count") m ≡ (histogram_at name s).count
  pub sums_of : (name : String) → value_at (part_field name "sum") m ≡ (histogram_at name s).sum_ms
  pub maxima_of :
      (name : String) → value_at (part_field name "max") m ≡ (histogram_at name s).max_ms

-- One part of every histogram, after a duration.
timed_part :
    (part : String) (get : DurationHistogram → ℤ) (grow : ℤ → ℤ) (name asked : String) (ms : ℕ)
    (m : Dict ℤ) (s : MetricsSnapshot)
    → split_last part ≡ none
    → value_at (part_field name part) (timed_fields name ms m)
      ≡ grow (value_at (part_field name part) m)
    → ((h : DurationHistogram) → get (observe h (pos ms)) ≡ grow (get h))
    → ((n : String) → value_at (part_field n part) m ≡ get (histogram_at n s))
    → value_at (part_field asked part) (timed_fields name ms m)
      ≡ get (histogram_at asked (observe_duration_ms name (pos ms) s))
unfolding observe_duration_ms
timed_part part get grow name asked ms m s plain own grows agree =
    elim (Bool-cases (name == asked)) [
      | inl e ↦
          let same = (eq_iff name asked).0 e in
          rw (lookup-insert, e)
            (ap (λ n. value_at (part_field n part) (timed_fields name ms m)) (sym same)
              ∙ own
              ∙ ap grow (agree name)
              ∙ sym (grows (histogram_at name s)))
      | inr e ↦
          rw (lookup-insert, e)
            (ap (value_or (pos 0)) (
                timed_fields-other (part_field asked part) name ms m
                  (across name asked "count" part count_plain plain e)
                  (across name asked "sum" part sum_plain plain e)
                  (across name asked "max" part max_plain plain e))
              ∙ agree asked)
    ]

timed-Agrees :
    (name : String) (ms : ℕ) (m : Dict ℤ) (s : MetricsSnapshot)
    → Agrees m s
    → Agrees (timed_fields name ms m) (observe_duration_ms name (pos ms) s)
unfolding observe_duration_ms observe
timed-Agrees name ms m s h = record {
  once =
      raise_max-AllDistinct _ (pos ms) _
        (hincrby-AllDistinct _ (pos ms) _ (hincrby-AllDistinct _ (pos 1) m h.once));
  counters = λ asked.
      timed_fields-other ("c:" <> asked) name ms m (part_apart asked name "count" count_plain)
        (part_apart asked name "sum" sum_plain) (part_apart asked name "max" max_plain)
      ∙ h.counters asked;
  counts_of = λ asked.
      timed_part "count" (λ g. g.count) (λ n. n +ℤ pos 1) name asked ms m s count_plain
        (timed_fields-count name ms m) (λ g. refl) h.counts_of;
  sums_of = λ asked.
      timed_part "sum" (λ g. g.sum_ms) (λ n. n +ℤ pos ms) name asked ms m s sum_plain
        (timed_fields-sum name ms m) (λ g. refl) h.sums_of;
  maxima_of = λ asked.
      timed_part "max" (λ g. g.max_ms) (λ n. max_ℤ n (pos ms)) name asked ms m s max_plain
        (timed_fields-max name ms m) (λ g. refl) h.maxima_of;
}

counted-Agrees :
    (name : String) (delta : ℤ) (m : Dict ℤ) (s : MetricsSnapshot)
    → Agrees m s
    → Agrees (hincrby ("c:" <> name) delta m) (increment_counter name delta s)
unfolding increment_counter
counted-Agrees name delta m s h = record {
  once = hincrby-AllDistinct _ delta m h.once;
  counters = λ asked. elim (Bool-cases (name == asked)) [
    | inl e ↦
        let same = (eq_iff name asked).0 e in
        rw (lookup-insert, e)
          (ap (λ n. lookup ("c:" <> n) (hincrby ("c:" <> name) delta m)) (sym same)
            ∙ lookup-hincrby ("c:" <> name) delta m
            ∙ ap (λ o. some (value_or (pos 0) o +ℤ delta)) (h.counters name))
    | inr e ↦
        rw (lookup-insert, e)
          (hincrby-other ("c:" <> name) ("c:" <> asked) delta m (counter_same name asked ∙ e)
            ∙ h.counters asked)
  ];
  counts_of = λ asked. left_alone asked "count" count_plain ∙ h.counts_of asked;
  sums_of = λ asked. left_alone asked "sum" sum_plain ∙ h.sums_of asked;
  maxima_of = λ asked. left_alone asked "max" max_plain ∙ h.maxima_of asked;
}
  where
    left_alone :
        (asked part : String)
        → split_last part ≡ none
        → value_at (part_field asked part) (hincrby ("c:" <> name) delta m)
          ≡ value_at (part_field asked part) m
    left_alone asked part plain = ap (value_or (pos 0)) (
        hincrby-other ("c:" <> name) (part_field asked part) delta m
          (counter_apart name asked part plain))

Agrees-empty : Agrees [] empty_metrics
unfolding lookup
Agrees-empty = record {
  once = tt;
  counters = λ name. refl;
  counts_of = λ name. refl;
  sums_of = λ name. refl;
  maxima_of = λ name. refl;
}

-- What `CollectMetrics` reads from a hash that agrees with a collector.
Agrees-collected :
    (m : Dict ℤ) (s : MetricsSnapshot) (name : String)
    → Agrees m s
    → (lookup name (collect_each m empty_metrics).counters ≡ lookup name s.counters)
      × (histogram_at name (collect_each m empty_metrics) ≡ histogram_at name s)
unfolding lookup
Agrees-collected m s name h = (
  collect-counters name m empty_metrics h.once ∙ otherwise_none _ ∙ h.counters name,
  rebuilt _ _
      (collect-part "count" (λ g. g.count) count-IsPart name m empty_metrics h.once
        ∙ h.counts_of name)
      (collect-part "sum" (λ g. g.sum_ms) sum-IsPart name m empty_metrics h.once ∙ h.sums_of name)
      (collect-part "max" (λ g. g.max_ms) max-IsPart name m empty_metrics h.once
        ∙ h.maxima_of name),
)
  where
    otherwise_none : (o : Option ℤ) → first_of o none ≡ o
    otherwise_none none = refl
    otherwise_none (some v) = refl

    rebuilt :
        (g k : DurationHistogram)
        → g.count ≡ k.count
        → g.sum_ms ≡ k.sum_ms
        → g.max_ms ≡ k.max_ms
        → g ≡ k
    rebuilt g k c t x = cc

module _ (F : Floats) (J : JsonLib F.Double) (L : Lua F.Double J.Text)
    (R : Redis F.Double J.Text F.leb) where
  unfoldable pub store_after : List Recorded → Store F J L R → Store F J L R
  unfolding record_counter record_duration_ms
  store_after [] d = d
  store_after (counted name delta ∷ rs) d = store_after rs (record_counter F J L R name delta d)
  store_after (timed name ms ∷ rs) d = store_after rs (record_duration_ms name (pos ms) d)

  store_after-Agrees :
      (rs : List Recorded) (d : Store F J L R) (s : MetricsSnapshot)
      → Agrees d.metrics s
      → Agrees (store_after rs d).metrics (collector_after rs s)
  unfolding store_after collector_after hincrby
  store_after-Agrees [] d s h = h
  store_after-Agrees (counted name delta ∷ rs) d s h =
      store_after-Agrees rs (record_counter F J L R name delta d) (increment_counter name delta s)
        (unfold record_counter in counted-Agrees name delta d.metrics s h)
  store_after-Agrees (timed name ms ∷ rs) d s h =
      store_after-Agrees rs (record_duration_ms name (pos ms) d)
        (observe_duration_ms name (pos ms) s)
        (unfold record_duration_ms in timed-Agrees name ms d.metrics s h)

  -- One client after another, with no command of one call between those of another, the calls of
  -- `RecordCounter` and `RecordDurationMs` record in a hash that was empty. Then `CollectMetrics`
  -- reports for each name the counter, and the histogram, that a `MetricsCollector` reports after the
  -- same calls of `IncrementCounter` and `ObserveDurationMs`. The durations are not negative, and the
  -- amounts recorded are together below 2^63, so that no HINCRBY and no sum overflows.
  pub collect_metrics-collector_after :
      (N : Numerals) (rs : List Recorded) (keys : WorkerKeys) (d : Store F J L R) (name : String)
      → d.metrics ≡ []
      → recorded_total rs < 2 ^ 63
      → let reported = collect_metrics F J L R N keys (store_after rs d) in
        let expected = collector_after rs empty_metrics in
        (lookup name reported.counters ≡ lookup name expected.counters)
        × (histogram_at name reported ≡ histogram_at name expected)
  unfolding collect_metrics apply_live_gauges
  collect_metrics-collector_after N rs keys d name e within =
      Agrees-collected (store_after rs d).metrics (collector_after rs empty_metrics) name
        (store_after-Agrees rs d empty_metrics (rw e Agrees-empty))
