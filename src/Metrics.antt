-- ===== src/Metrics.antt =====
-- include/taskqueue/metrics.h and `MetricsCollector` of src/metrics.cc. A lock guards each
-- operation, so each is one step. The maps are `std::unordered_map`; `[name]` of a missing name
-- makes a zero entry.
pub mod Laws
pub mod Format
pub mod Live
use crunchytask.Common.{
  ℤ, pos, ◌+ℤ◌, ltb_ℤ, String, Option, none, some, [], Dict, lookup, insert, if◌then◌else◌,
}

pub record DurationHistogram : Type 0 where
  pub count : ℤ
  pub sum_ms : ℤ
  pub max_ms : ℤ

pub record MetricsSnapshot : Type 0 where
  pub counters : Dict ℤ
  pub gauges : Dict ℤ
  pub histograms : Dict DurationHistogram

abbrev pub zero_histogram : DurationHistogram
zero_histogram = record { count = pos 0; sum_ms = pos 0; max_ms = pos 0 }

abbrev pub empty_metrics : MetricsSnapshot
empty_metrics = record { counters = []; gauges = []; histograms = [] }

module _ {V : Type 0} where
  abbrev pub value_or : V → Option V → V
  value_or zero_value none = zero_value
  value_or zero_value (some v) = v

-- The collector holds the same three maps as a snapshot.
unfoldable pub increment_counter : String → ℤ → MetricsSnapshot → MetricsSnapshot
unfolding ◌+ℤ◌
increment_counter name delta m = record m {
  counters = insert name (value_or (pos 0) (lookup name m.counters) +ℤ delta) m.counters;
}

unfoldable pub set_gauge : String → ℤ → MetricsSnapshot → MetricsSnapshot
set_gauge name value m = record m { gauges = insert name value m.gauges }

-- `std::max`
abbrev pub max_ℤ : ℤ → ℤ → ℤ
max_ℤ a b = if ltb_ℤ a b then b else a

unfoldable pub observe : DurationHistogram → ℤ → DurationHistogram
observe h duration_ms = record {
  count = h.count +ℤ pos 1;
  sum_ms = h.sum_ms +ℤ duration_ms;
  max_ms = max_ℤ h.max_ms duration_ms;
}

unfoldable pub observe_duration_ms : String → ℤ → MetricsSnapshot → MetricsSnapshot
unfolding observe
observe_duration_ms name duration_ms m = record m {
  histograms =
      insert name (observe (value_or zero_histogram (lookup name m.histograms)) duration_ms)
        m.histograms;
}

unfoldable pub snapshot : MetricsSnapshot → MetricsSnapshot
snapshot m = record { counters = m.counters; gauges = m.gauges; histograms = m.histograms }
