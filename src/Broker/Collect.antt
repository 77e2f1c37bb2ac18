-- ===== src/Broker/Collect.antt =====
-- `CollectMetrics` of src/redis_broker.cc, and `ApplyLiveGauges` of src/metrics_snapshot.cc on that
-- broker. A field's value is an integer here, so that `std::stoll` is left out, and the error of
-- HGETALL is left out like every error of the connection.
use Prim.Native.Char.{Char, code}
use crunchytask.Common.{
  ℕ, nat_eq, ℤ, String, ◌==◌, Option, none, some, [], ◌∷◌, if◌then◌else◌, Dict, lookup, insert,
}
use crunchytask.Outside.Floats.{Floats}
use crunchytask.Outside.Json.{JsonLib}
use crunchytask.Outside.Lua.{Lua}
use crunchytask.Outside.Redis.{Redis}
use crunchytask.Broker.{Store, get_stats}
use crunchytask.Heartbeat.{Numerals, WorkerKeys, list_workers}
use crunchytask.Metrics.{
  DurationHistogram, MetricsSnapshot, zero_histogram, empty_metrics, value_or,
}
use crunchytask.Metrics.Live.{apply_broker_gauges}

-- `StartsWith`, and `substr` of what follows the prefix.
unfoldable pub after_prefix : String → String → Option String
after_prefix String.[] s = some s
after_prefix (String.◌∷◌ c p) String.[] = none
after_prefix (String.◌∷◌ c p) (String.◌∷◌ d s) =
    let rest = after_prefix p s in if nat_eq (code c) (code d) then rest else none

abbrev pub split_here : ℕ → String → Option (String × String)
split_here c s = if nat_eq c b':' then some ("", s) else none

-- One character before a text that is split.
abbrev pub extended : Char → String → Option (String × String) → Option (String × String)
extended c s none = split_here (code c) s
extended c s (some (front, back)) = some (String.◌∷◌ c front, back)

-- `rfind(':')`, and the two parts of the text around it.
unfoldable pub split_last : String → Option (String × String)
split_last String.[] = none
split_last (String.◌∷◌ c s) = extended c s (split_last s)

unfoldable pub with_field : String → ℤ → DurationHistogram → DurationHistogram
with_field field_suffix value histogram =
    if field_suffix == "count"
    then record histogram { count = value }
    else if field_suffix == "sum"
    then record histogram { sum_ms = value }
    else if field_suffix == "max"
    then record histogram { max_ms = value }
    else histogram

unfoldable pub collect_histogram : ℤ → Option (String × String) → MetricsSnapshot → MetricsSnapshot
unfolding with_field
collect_histogram value none m = m
collect_histogram value (some (name, field_suffix)) m = record m {
  histograms =
      insert name
        (with_field field_suffix value (value_or zero_histogram (lookup name m.histograms)))
        m.histograms;
}

-- The body of the loop over the fields.
unfoldable pub collect_field : String → ℤ → MetricsSnapshot → MetricsSnapshot
unfolding after_prefix split_last collect_histogram
collect_field field value m = elim (after_prefix "c:" field) [
  | some name ↦ record m { counters = insert name value m.counters }
  | none ↦ elim (after_prefix "h:" field) [
    | none ↦ m
    | some histogram_key ↦ collect_histogram value (split_last histogram_key) m
  ]
]

unfoldable pub collect_each : Dict ℤ → MetricsSnapshot → MetricsSnapshot
unfolding collect_field
collect_each [] m = m
collect_each ((field, value) ∷ fields) m = collect_each fields (collect_field field value m)

module _ (F : Floats) (J : JsonLib F.Double) (L : Lua F.Double J.Text)
    (R : Redis F.Double J.Text F.leb) (N : Numerals) where
  unfoldable pub apply_live_gauges : MetricsSnapshot → WorkerKeys → Store F J L R → MetricsSnapshot
  unfolding apply_broker_gauges get_stats list_workers
  apply_live_gauges snapshot keys d =
      apply_broker_gauges snapshot (get_stats F J L R d) (list_workers N keys)

  unfoldable pub collect_metrics : WorkerKeys → Store F J L R → MetricsSnapshot
  unfolding collect_each apply_live_gauges
  collect_metrics keys d = apply_live_gauges (collect_each d.metrics empty_metrics) keys d
