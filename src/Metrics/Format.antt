-- ===== src/Metrics/Format.antt =====
-- `FormatMetricsPlainText` and `FormatMetricsPrometheus` of src/metrics.cc, as the sequence of the
-- values that are written to the stream. A map is a list of entries in an order of its own, as the
-- order of an `std::unordered_map` is.
use crunchytask.Common.{
  ℤ, String, ◌≡◌, ◌≢◌, Bool-cases, inl, inr, Option, none, some, List, [], ◌∷◌, ◌++◌, ◌==◌, eq_iff,
  Dict, lookup, words, number, Written, sort, text_less, Has, AllDistinct, text_less-IsStrictOrder,
  sort_same, refl, ap, ◌∙◌, sym,
}
use crunchytask.Metrics.{DurationHistogram, MetricsSnapshot}

module _ {V : Type 0} where
  -- The names that the loop over the map collects.
  abbrev pub names : Dict V → List String
  names [] = []
  names ((name, v) ∷ m) = name ∷ names m

module _ (Text : Type 0) where
  unfoldable pub append_counter : String → ℤ → Written Text
  append_counter name value = words name ∷ words " " ∷ number value ∷ words "\n" ∷ []

  unfoldable pub append_gauge : String → ℤ → Written Text
  append_gauge name value = words name ∷ words " " ∷ number value ∷ words "\n" ∷ []

  unfoldable pub append_histogram :
      String → String → String → String → DurationHistogram → Written Text
  append_histogram count sum max name histogram =
      words name
      ∷ words count
      ∷ number histogram.count
      ∷ words "\n"
      ∷ words name
      ∷ words sum
      ∷ number histogram.sum_ms
      ∷ words "\n"
      ∷ words name
      ∷ words max
      ∷ number histogram.max_ms
      ∷ words "\n"
      ∷ []

  -- The line `# TYPE`.
  abbrev pub type_line : String → String → Written Text
  type_line name kind = words "# TYPE " ∷ words name ∷ words kind ∷ []

  module _ {V : Type 0} where
    -- `at(name)`, which the names of the map always have.
    abbrev pub line_at : (String → V → Written Text) → String → Option V → Written Text
    line_at line name none = []
    line_at line name (some v) = line name v

    unfoldable pub lines : (String → V → Written Text) → Dict V → List String → Written Text
    lines line m [] = []
    lines line m (name ∷ rest) = line_at line name (lookup name m) ++ lines line m rest

    -- A loop over the sorted names of a map.
    unfoldable pub sorted_lines : (String → V → Written Text) → Dict V → Written Text
    unfolding lines
    sorted_lines line m = lines line m (sort text_less (names m))

  unfoldable pub format_metrics_plain_text : MetricsSnapshot → Written Text
  unfolding sorted_lines append_counter append_gauge append_histogram
  format_metrics_plain_text snapshot =
      (words "# counters\n" ∷ sorted_lines append_counter snapshot.counters)
      ++ (words "# gauges\n" ∷ sorted_lines append_gauge snapshot.gauges)
      ++ (words "# histograms\n"
          ∷ sorted_lines (append_histogram "_count " "_sum_ms " "_max_ms ") snapshot.histograms)

  unfoldable pub format_metrics_prometheus : MetricsSnapshot → Written Text
  unfolding sorted_lines append_counter append_gauge append_histogram
  format_metrics_prometheus snapshot =
      sorted_lines (λ name value. type_line name " counter\n" ++ append_counter name value)
        snapshot.counters
      ++ sorted_lines (λ name value. type_line name " gauge\n" ++ append_gauge name value)
          snapshot.gauges
      ++ sorted_lines
          (λ name histogram.
            type_line name " summary\n"
            ++ append_histogram "_count " "_sum " "_max " name histogram)
          snapshot.histograms

module _ {V : Type 0} where
  -- Two maps with the same entries, each with its keys once.
  pub record SameMap (m k : Dict V) : Type 0 where
    pub once : AllDistinct (names m)
    pub once_other : AllDistinct (names k)
    pub entries : (name : String) → lookup name m ≡ lookup name k

  pub Has-names : (name : String) (m : Dict V) → lookup name m ≢ none → Has name (names m)
  unfolding lookup
  Has-names name [] h = absurd (h refl)
  Has-names name ((key, v) ∷ m) h = elim (Bool-cases (key == name)) [
    | inl e ↦ inl ((eq_iff key name).0 e)
    | inr e ↦ inr (Has-names name m (λ f. h (rw e f)))
  ]

  names-Has : (name : String) (m : Dict V) → Has name (names m) → lookup name m ≢ none
  unfolding lookup
  names-Has name [] h e = h
  names-Has name ((key, v) ∷ m) h e = elim (Bool-cases (key == name)) [
    | inl f ↦ let found : lookup name ((key, v) ∷ m) ≡ some v = rw f refl in absurd (cc (found, e))
    | inr f ↦
        let skipped : lookup name ((key, v) ∷ m) ≡ lookup name m = rw f refl in
        elim h [
          | inl g ↦ absurd (cc (f, (eq_iff key name).1 g))
          | inr g ↦ names-Has name m g (sym skipped ∙ e)
        ]
  ]

  SameMap-names : (m k : Dict V) → SameMap m k → sort text_less (names m) ≡ sort text_less (names k)
  SameMap-names m k h =
      sort_same text_less text_less-IsStrictOrder (names m) (names k) h.once h.once_other
        (λ z g. Has-names z k (λ e. names-Has z m g (h.entries z ∙ e)))
        (λ z g. Has-names z m (λ e. names-Has z k g (sym (h.entries z) ∙ e)))

  lines-SameMap :
      (Text : Type 0) (line : String → V → Written Text) (m k : Dict V) (ns : List String)
      → SameMap m k
      → lines Text line m ns ≡ lines Text line k ns
  unfolding lines
  lines-SameMap Text line m k [] h = refl
  lines-SameMap Text line m k (n ∷ ns) h =
      ap (λ o. line_at Text line n o ++ lines Text line m ns) (h.entries n)
      ∙ ap (λ l. line_at Text line n (lookup n k) ++ l) (lines-SameMap Text line m k ns h)

  sorted_lines-SameMap :
      (Text : Type 0) (line : String → V → Written Text) (m k : Dict V)
      → SameMap m k
      → sorted_lines Text line m ≡ sorted_lines Text line k
  unfolding sorted_lines
  sorted_lines-SameMap Text line m k h =
      ap (lines Text line m) (SameMap-names m k h)
      ∙ lines-SameMap Text line m k (sort text_less (names k)) h

-- Two snapshots whose maps have each key once and hold the same entries, in whatever order, give the
-- same output in each of the two formats.
pub format-SameMap :
    (Text : Type 0) (s t : MetricsSnapshot)
    → SameMap s.counters t.counters
    → SameMap s.gauges t.gauges
    → SameMap s.histograms t.histograms
    → (format_metrics_plain_text Text s ≡ format_metrics_plain_text Text t)
      × (format_metrics_prometheus Text s ≡ format_metrics_prometheus Text t)
unfolding format_metrics_plain_text format_metrics_prometheus
format-SameMap Text s t c g h = (
  rw
      (
        sorted_lines-SameMap Text (append_counter Text) s.counters t.counters c,
        sorted_lines-SameMap Text (append_gauge Text) s.gauges t.gauges g,
        sorted_lines-SameMap Text (append_histogram Text "_count " "_sum_ms " "_max_ms ")
            s.histograms t.histograms h,
      )
      refl,
  rw
      (
        sorted_lines-SameMap Text _ s.counters t.counters c,
        sorted_lines-SameMap Text _ s.gauges t.gauges g,
        sorted_lines-SameMap Text _ s.histograms t.histograms h,
      )
      refl,
)
