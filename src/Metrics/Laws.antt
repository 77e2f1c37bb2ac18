-- ===== src/Metrics/Laws.antt =====
-- What a histogram says of the durations that it has seen, and that names do not interfere.
use crunchytask.Common.{
  ℕ, suc, ◌+◌, ◌≤◌, ltb, Any, ℤ, pos, ◌+ℤ◌, String, ◌≡◌, ◌⊎◌, inl, inr, none, List, [], ◌∷◌, length,
  All, if◌then◌else◌, lookup, lookup-insert, Bool-cases, refl, ap, ◌∙◌, arith, eq_refl,
}
use crunchytask.Metrics.{
  DurationHistogram, MetricsSnapshot, zero_histogram, value_or, observe, observe_duration_ms,
}

-- `ObserveDurationMs` for each duration, in order.
unfoldable pub observe_all : String → List ℤ → MetricsSnapshot → MetricsSnapshot
observe_all name [] m = m
observe_all name (d ∷ ds) m = observe_all name ds (observe_duration_ms name d m)

-- The histogram that sees the durations.
unfoldable pub seen : DurationHistogram → List ℤ → DurationHistogram
seen h [] = h
seen h (d ∷ ds) = seen (observe h d) ds

abbrev pub total : List ℕ → ℕ
total [] = 0
total (d ∷ ds) = d + total ds

abbrev pub durations : List ℕ → List ℤ
durations [] = []
durations (d ∷ ds) = pos d ∷ durations ds

observe_all-lookup :
    (name : String) (ds : List ℤ) (m : MetricsSnapshot)
    → value_or zero_histogram (lookup name (observe_all name ds m).histograms)
      ≡ seen (value_or zero_histogram (lookup name m.histograms)) ds
unfolding observe_all seen observe_duration_ms
observe_all-lookup name [] m = refl
observe_all-lookup name (d ∷ ds) m = rw (observe_all-lookup name ds _, lookup-insert, eq_refl) refl

abbrev histogram_of : ℕ → ℕ → ℕ → DurationHistogram
histogram_of c s m = record { count = pos c; sum_ms = pos s; max_ms = pos m }

abbrev larger : ℕ → ℕ → ℕ
larger a b = if ltb a b then b else a

-- What is known after the durations of the list: how many, their total, and a greatest one.
pub record Summary (ds : List ℕ) (c s m : ℕ) (h : DurationHistogram) : Type 0 where
  pub greatest : ℕ
  pub fields : h ≡ histogram_of (c + length ds) (s + total ds) greatest
  pub above : All (λ d. d ≤ greatest) ds
  pub above_start : m ≤ greatest
  pub attained : (greatest ≡ m) ⊎ Any (λ d. d ≡ greatest) ds

observe_pos :
    (c s m d : ℕ) → observe (histogram_of c s m) (pos d) ≡ histogram_of (c + 1) (s + d) (larger m d)
unfolding observe ◌+ℤ◌
observe_pos c s m d = ground arith

Any-of :
    (m g d : ℕ) (ds : List ℕ)
    → (g ≡ larger m d) ⊎ Any (λ e. e ≡ g) ds
    → (g ≡ m) ⊎ Any (λ e. e ≡ g) (d ∷ ds)
Any-of m g d ds (inr h) = inr (inr h)
Any-of m g d ds (inl h) = elim (Bool-cases (ltb m d)) [
  | inl e ↦ inr (inl (ground arith))
  | inr e ↦ inl (ground arith)
]

summary : (c s m : ℕ) (ds : List ℕ) → Summary ds c s m (seen (histogram_of c s m) (durations ds))
unfolding seen
summary c s m [] = record {
  greatest = m;
  fields =
      ap (λ n. histogram_of n s m) (omega arith) ∙ ap (λ n. histogram_of (c + 0) n m) (omega arith);
  above = tt;
  above_start = omega arith;
  attained = inl refl;
}
summary c s m (d ∷ ds) =
    let rest = summary (c + 1) (s + d) (larger m d) ds in
    record {
      greatest = rest.greatest;
      fields =
          ap (λ h. seen h (durations ds)) (observe_pos c s m d)
          ∙ rest.fields
          ∙ ap (λ n. histogram_of n (s + d + total ds) rest.greatest) (omega arith)
          ∙ ap (λ n. histogram_of (c + suc (length ds)) n rest.greatest) (omega arith);
      above = (ground (arith, rest.above_start), rest.above);
      above_start = ground (arith, rest.above_start);
      attained = Any-of m rest.greatest d ds rest.attained;
    }

-- The histogram of a name that has seen the durations `ds` and none before: it has their number,
-- their sum, and 0 or the greatest of them, whichever is greater.
pub observe_duration_ms-Summary :
    (name : String) (ds : List ℕ) (m : MetricsSnapshot)
    → lookup name m.histograms ≡ none
    → Summary ds 0 0 0
        (value_or zero_histogram (lookup name (observe_all name (durations ds) m).histograms))
observe_duration_ms-Summary name ds m e =
    rw (observe_all-lookup name (durations ds) m, e) (summary 0 0 0 ds)
