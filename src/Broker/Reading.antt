-- ===== src/Broker/Reading.antt =====
-- What `CollectMetrics` makes of the hash `taskq:metrics`, name by name.
use crunchytask.Common.{
  ℤ, pos, String, ◌==◌, ◌<>◌, ◌≡◌, ◌≢◌, Bool, true, false, Bool-cases, inl, inr, Option, none, some,
  Option-cases, [], ◌∷◌, Dict, lookup, lookup-insert, eq_iff, eq_refl, Has, AllDistinct, refl, ap,
  ◌∙◌, sym,
}
use mathlib.Core.Path.{subst}
use crunchytask.Metrics.{DurationHistogram, MetricsSnapshot, zero_histogram, value_or}
use crunchytask.Metrics.Format.{names, Has-names}
use crunchytask.Broker.Collect.{
  split_last, with_field, collect_histogram, collect_field, collect_each,
}
use crunchytask.Broker.Fields.{
  Field, counts, measures, unread, field_of, part_field, field_of-counts, field_of-measures, Sound,
  field_of-Sound, collect_as, collect_field_lem,
}

-- The histogram of a name, or the one of a missing name.
abbrev pub histogram_at : String → MetricsSnapshot → DurationHistogram
histogram_at name m = value_or zero_histogram (lookup name m.histograms)

-- A part of a histogram, under the end of its field's name.
pub record IsPart (part : String) (get : DurationHistogram → ℤ) : Type 0 where
  pub plain : split_last part ≡ none
  pub zero : get zero_histogram ≡ pos 0
  pub set : (v : ℤ) (h : DurationHistogram) → get (with_field part v h) ≡ v
  pub kept :
      (p : String) (v : ℤ) (h : DurationHistogram) → p ≢ part → get (with_field p v h) ≡ get h

pub differs : (s t : String) → s ≢ t → (s == t) ≡ false
differs s t h = elim (Bool-cases (s == t)) [ inl e ↦ absurd (h ((eq_iff s t).0 e)) | inr e ↦ e ]

-- A split on the value of a test.
either : {P : Type 0} (b : Bool) → (b ≡ true → P) → (b ≡ false → P) → P
either b f g = elim (Bool-cases b) [ inl e ↦ f e | inr e ↦ g e ]

pub count-IsPart : IsPart "count" (λ h. h.count)
unfolding with_field split_last
count-IsPart = record {
  plain = refl;
  zero = refl;
  set = λ v h. refl;
  kept = λ p v h n. rw (differs p "count" n) (
      either (p == "sum") (λ e. rw e refl)
        (λ e. rw e (either (p == "max") (λ f. rw f refl) (λ f. rw f refl))));
}

pub sum-IsPart : IsPart "sum" (λ h. h.sum_ms)
unfolding with_field split_last
sum-IsPart = record {
  plain = refl;
  zero = refl;
  set = λ v h. refl;
  kept = λ p v h n.
      either (p == "count") (λ e. rw e refl)
        (λ e. rw (e, differs p "sum" n) (either (p == "max") (λ f. rw f refl) (λ f. rw f refl)));
}

pub max-IsPart : IsPart "max" (λ h. h.max_ms)
unfolding with_field split_last
max-IsPart = record {
  plain = refl;
  zero = refl;
  set = λ v h. refl;
  kept = λ p v h n.
      either (p == "count") (λ e. rw e refl)
        (λ e. rw e (either (p == "sum") (λ f. rw f refl) (λ f. rw (f, differs p "max" n) refl)));
}

module _ {V : Type 0} where
  missing : (name : String) (m : Dict V) → ¬ Has name (names m) → lookup name m ≡ none
  missing name m h = elim (Option-cases (lookup name m)) [
    | inl e ↦ e
    | inr (v, e) ↦ absurd (h (Has-names name m (λ f. absurd (cc (e, f)))))
  ]

  abbrev pub first_of : Option V → Option V → Option V
  first_of none o = o
  first_of (some v) o = some v

counter_as-kept :
    (name : String) (w : Field) (v : ℤ) (m : MetricsSnapshot)
    → w ≢ counts name
    → lookup name (collect_as w v m).counters ≡ lookup name m.counters
unfolding collect_as collect_histogram
counter_as-kept name (counts n) v m h =
    rw (lookup-insert, differs n name (λ e. h (ap counts e))) refl
counter_as-kept name (measures n part) v m h = refl
counter_as-kept name unread v m h = refl

own_counter :
    (name : String) (v : ℤ) (m : MetricsSnapshot)
    → lookup name (collect_as (counts name) v m).counters ≡ some v
unfolding collect_as
own_counter name v m = rw (lookup-insert, eq_refl) refl

-- A field that is not the counter's own is read as something else.
other_counter : (field name : String) → field ≢ "c:" <> name → field_of field ≢ counts name
other_counter field name h e = h (subst (Sound field) e (field_of-Sound field))

other_part :
    (field name part : String) → field ≢ part_field name part → field_of field ≢ measures name part
other_part field name part h e = h (subst (Sound field) e (field_of-Sound field))

-- A counter is the value of its field.
pub collect-counters :
    (name : String) (m : Dict ℤ) (acc : MetricsSnapshot)
    → AllDistinct (names m)
    → lookup name (collect_each m acc).counters
      ≡ first_of (lookup ("c:" <> name) m) (lookup name acc.counters)
unfolding collect_each lookup
collect-counters name [] acc h = refl
collect-counters name ((field, v) ∷ m) acc h =
    let rest = collect-counters name m (collect_field field v acc) h.1 in
    elim (Bool-cases (field == ("c:" <> name))) [
      | inl e ↦
          let same = (eq_iff field ("c:" <> name)).0 e in
          let gone : lookup ("c:" <> name) m ≡ none =
            missing ("c:" <> name) m (λ g. h.0 (subst (λ f. Has f (names m)) (sym same) g)) in
          let own : lookup name (collect_field field v acc).counters ≡ some v =
            ap (λ (t : MetricsSnapshot). lookup name t.counters)
              (collect_field_lem field v acc
                ∙ ap (λ w. collect_as w v acc) (ap field_of same ∙ field_of-counts name))
            ∙ own_counter name v acc in
          rw e (
            rest
            ∙ ap (λ o. first_of o (lookup name (collect_field field v acc).counters)) gone
            ∙ own)
      | inr e ↦
          let kept : lookup name (collect_field field v acc).counters ≡ lookup name acc.counters =
            ap (λ (t : MetricsSnapshot). lookup name t.counters) (collect_field_lem field v acc)
            ∙ counter_as-kept name (field_of field) v acc (
                other_counter field name
                  (λ f. absurd (cc (e, (eq_iff field ("c:" <> name)).1 f)))) in
          rw e (rest ∙ ap (first_of (lookup ("c:" <> name) m)) kept)
    ]

module _ (part : String) (get : DurationHistogram → ℤ) (P : IsPart part get) where
  own_part :
      (name : String) (v : ℤ) (m : MetricsSnapshot)
      → get (histogram_at name (collect_as (measures name part) v m)) ≡ v
  unfolding collect_as collect_histogram
  own_part name v m = rw (lookup-insert, eq_refl) (P.set v _)

  part_as-kept :
      (name : String) (w : Field) (v : ℤ) (m : MetricsSnapshot)
      → w ≢ measures name part
      → get (histogram_at name (collect_as w v m)) ≡ get (histogram_at name m)
  unfolding collect_as collect_histogram
  part_as-kept name (counts n) v m h = refl
  part_as-kept name unread v m h = refl
  part_as-kept name (measures n p) v m h = elim (Bool-cases (n == name)) [
    | inr e ↦ rw (lookup-insert, e) refl
    | inl e ↦
        let same = (eq_iff n name).0 e in
        rw (lookup-insert, e)
          (P.kept p v _ (λ f. h (ap (λ a. measures a p) same ∙ ap (measures name) f))
            ∙ ap (λ a. get (histogram_at a m)) same)
  ]

  -- A part of a histogram is the value of its field, and stays where there is no such field.
  pub collect-part :
      (name : String) (m : Dict ℤ) (acc : MetricsSnapshot)
      → AllDistinct (names m)
      → get (histogram_at name (collect_each m acc))
        ≡ value_or (get (histogram_at name acc)) (lookup (part_field name part) m)
  unfolding collect_each lookup
  collect-part name [] acc h = refl
  collect-part name ((field, v) ∷ m) acc h =
      let key = part_field name part in
      let next = collect_field field v acc in
      let rest = collect-part name m next h.1 in
      elim (Bool-cases (field == key)) [
        | inl e ↦
            let same = (eq_iff field key).0 e in
            let gone : lookup key m ≡ none =
              missing key m (λ g. h.0 (subst (λ f. Has f (names m)) (sym same) g)) in
            let own : get (histogram_at name next) ≡ v =
              ap (λ t. get (histogram_at name t))
                (collect_field_lem field v acc
                  ∙ ap (λ w. collect_as w v acc)
                      (ap field_of same ∙ field_of-measures name part P.plain))
              ∙ own_part name v acc in
            rw e (rest ∙ ap (value_or (get (histogram_at name next))) gone ∙ own)
        | inr e ↦
            let kept : get (histogram_at name next) ≡ get (histogram_at name acc) =
              ap (λ t. get (histogram_at name t)) (collect_field_lem field v acc)
              ∙ part_as-kept name (field_of field) v acc
                  (other_part field name part (λ f. absurd (cc (e, (eq_iff field key).1 f)))) in
            rw e (rest ∙ ap (λ z. value_or z (lookup key m)) kept)
      ]
