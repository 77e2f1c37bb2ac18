-- ===== src/Broker/Recording.antt =====
-- `RecordDurationMs` of src/redis_broker.cc: the three fields of a histogram.
use crunchytask.Common.{
  ℤ, pos, ◌+ℤ◌, ltb_ℤ, String, ◌<>◌, none, some, if◌then◌else◌, Dict, lookup, insert,
}
use crunchytask.Outside.Redis.{Data}

abbrev pub histogram_count_field : String → String
histogram_count_field name = "h:" <> name <> ":count"

abbrev pub histogram_sum_field : String → String
histogram_sum_field name = "h:" <> name <> ":sum"

abbrev pub histogram_max_field : String → String
histogram_max_field name = "h:" <> name <> ":max"

-- `HINCRBY`; a missing field counts as 0.
unfoldable pub hincrby : String → ℤ → Dict ℤ → Dict ℤ
unfolding ◌+ℤ◌
hincrby field delta m =
    insert field (elim (lookup field m) [ none ↦ delta | some n ↦ n +ℤ delta ]) m

-- The HGET and, for a greater duration, the HSET of one client, with no command of another between.
unfoldable pub raise_max : String → ℤ → Dict ℤ → Dict ℤ
raise_max field duration_ms m = elim (lookup field m) [
  | none ↦ insert field duration_ms m
  | some current_max ↦ if ltb_ℤ current_max duration_ms then insert field duration_ms m else m
]

module _ {Double Text : Type 0} where
  -- The commands HINCRBY, HINCRBY, HGET and HSET of one client in their order. They are no transaction;
  -- this is what they leave where no other client writes the same fields between them.
  unfoldable pub record_duration_ms : String → ℤ → Data Double Text → Data Double Text
  unfolding raise_max
  record_duration_ms name duration_ms d = record d {
    metrics = raise_max (histogram_max_field name) duration_ms (
        hincrby (histogram_sum_field name) duration_ms
          (hincrby (histogram_count_field name) (pos 1) d.metrics));
  }
