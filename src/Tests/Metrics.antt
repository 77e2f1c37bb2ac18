-- ===== src/Tests/Metrics.antt =====
-- Metrics that are recorded and reported.
use crunchytask.Common.{
  arith, ◌==◌, Bool-cases, inl, inr, eq_iff, sym, ◌∙◌, ℤ, pos, ◌≡◌, [], ◌∷◌, List, Dict, lookup,
  refl,
}
use crunchytask.Metrics.{MetricsSnapshot, empty_metrics}
use crunchytask.Metrics.Format.{
  format_metrics_plain_text, format_metrics_prometheus, SameMap, format-SameMap,
}
use crunchytask.Broker.Collect.{collect_metrics}
use crunchytask.Broker.Collector.{
  Recorded, counted, timed, collector_after, store_after, collect_metrics-collector_after,
}
use crunchytask.Broker.Reading.{histogram_at, differs}
use crunchytask.Tests.Json.{Json}
use crunchytask.Tests.Libraries.{floats, json_lib, lua}
use crunchytask.Tests.Server.{server}
use crunchytask.Tests.Broker.{empty_store}
use crunchytask.Tests.Heartbeat.{numerals, no_workers}

-- The same two counters, in two orders.
abbrev here : Dict ℤ
here = ("a", pos 1) ∷ ("b", pos 2) ∷ []

abbrev there : Dict ℤ
there = ("b", pos 2) ∷ ("a", pos 1) ∷ []

here-SameMap : SameMap here there
unfolding lookup
here-SameMap = record {
  once = (λ g. elim g [ inl e ↦ absurd (cc ((eq_iff "b" "a").1 e)) | inr x ↦ x ], (λ x. x, tt));
  once_other =
      (λ g. elim g [ inl e ↦ absurd (cc ((eq_iff "a" "b").1 e)) | inr x ↦ x ], (λ x. x, tt));
  entries = λ name. elim (Bool-cases ("a" == name)) [
    | inl e ↦
        rw
          (
            e,
            differs "b" name
                (λ f. absurd (cc ((eq_iff "a" "b").1 ((eq_iff "a" name).0 e ∙ sym f)))),
          )
          refl
    | inr e ↦ rw e refl
  ];
}

no_gauges : SameMap {V = ℤ} [] []
no_gauges = record { once = tt; once_other = tt; entries = λ name. refl }

no_histograms : SameMap empty_metrics.histograms empty_metrics.histograms
no_histograms = record { once = tt; once_other = tt; entries = λ name. refl }

abbrev with_counters : Dict ℤ → MetricsSnapshot
with_counters m = record empty_metrics { counters = m }

format-SameMap_example :
    (format_metrics_plain_text Json (with_counters here)
      ≡ format_metrics_plain_text Json (with_counters there))
    × (format_metrics_prometheus Json (with_counters here)
        ≡ format_metrics_prometheus Json (with_counters there))
format-SameMap_example =
    format-SameMap Json (with_counters here) (with_counters there) here-SameMap no_gauges
      no_histograms

abbrev readings : List Recorded
readings = counted "tasks_enqueued_total" (pos 2) ∷ timed "task_execution_duration_ms" 7 ∷ []

collect_metrics-collector_after_example :
    let reported =
      collect_metrics floats json_lib lua server numerals no_workers
        (store_after floats json_lib lua server readings empty_store) in
    let expected = collector_after readings empty_metrics in
    (lookup "tasks_enqueued_total" reported.counters
      ≡ lookup "tasks_enqueued_total" expected.counters)
    × (histogram_at "tasks_enqueued_total" reported ≡ histogram_at "tasks_enqueued_total" expected)
collect_metrics-collector_after_example =
    collect_metrics-collector_after floats json_lib lua server numerals readings no_workers
      empty_store "tasks_enqueued_total" refl (omega arith)
