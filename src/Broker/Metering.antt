-- ===== src/Broker/Metering.antt =====
-- The hash `taskq:metrics` under HINCRBY and under the maximum of `RecordDurationMs`, field by field.
use crunchytask.Common.{
  ℕ, ℤ, pos, negsuc, ◌+ℤ◌, ltb_ℤ, String, ◌==◌, ◌<>◌, ◌≡◌, ◌≢◌, ◌⊎◌, Bool, true, false, Bool-cases,
  inl, inr, none, some, Option-cases, [], ◌∷◌, if◌then◌else◌, Dict, lookup, insert, lookup-insert,
  eq_iff, eq_refl, Has, AllDistinct, refl, ap, ◌∙◌, sym, arith,
}
use mathlib.Core.Path.{subst}
use crunchytask.Metrics.{value_or, max_ℤ}
use crunchytask.Metrics.Format.{names}
use crunchytask.Broker.Collect.{split_last}
use crunchytask.Broker.Recording.{hincrby, raise_max}
use crunchytask.Broker.Fields.{
  counts, measures, field_of, part_field, field_of-counts, field_of-measures,
}
use crunchytask.Broker.Reading.{differs}

module _ {V : Type 0} where
  names_branch :
      (x k j : String) (v w : V) (m rest : Dict V) (b : Bool)
      → (Has x (names rest) → (k ≡ x) ⊎ Has x (names m))
      → Has x (names (if b then (k, v) ∷ m else (j, w) ∷ rest))
      → (k ≡ x) ⊎ Has x (names ((j, w) ∷ m))
  names_branch x k j v w m rest true f (inl e) = inl e
  names_branch x k j v w m rest true f (inr g) = inr (inr g)
  names_branch x k j v w m rest false f (inl e) = inr (inl e)
  names_branch x k j v w m rest false f (inr g) = elim (f g) [ inl e ↦ inl e | inr r ↦ inr (inr r) ]

  names-insert :
      (x k : String) (v : V) (m : Dict V) → Has x (names (insert k v m)) → (k ≡ x) ⊎ Has x (names m)
  unfolding insert
  names-insert x k v [] h = h
  names-insert x k v ((j, w) ∷ m) h =
      names_branch x k j v w m (insert k v m) (j == k) (names-insert x k v m) h

  insert-AllDistinct :
      (k : String) (v : V) (m : Dict V) → AllDistinct (names m) → AllDistinct (names (insert k v m))
  unfolding insert
  insert-AllDistinct k v [] h = (λ g. g, tt)
  insert-AllDistinct k v ((j, w) ∷ m) h = elim (Bool-cases (j == k)) [
    | inl e ↦ rw e (λ g. h.0 (subst (λ i. Has i (names m)) (sym ((eq_iff j k).0 e)) g), h.1)
    | inr e ↦ rw e (
      λ g. elim (names-insert j k v m g) [
        | inl f ↦ absurd (cc (e, (eq_iff j k).1 (sym f)))
        | inr r ↦ h.0 r
      ],
      insert-AllDistinct k v m h.1,
    )
  ]

-- A missing field counts as 0.
abbrev pub value_at : String → Dict ℤ → ℤ
value_at field m = value_or (pos 0) (lookup field m)

zero_plus : (n : ℤ) → pos 0 +ℤ n ≡ n
unfolding ◌+ℤ◌
zero_plus (pos n) = ground arith
zero_plus (negsuc n) = ground arith

pub lookup-hincrby :
    (field : String) (delta : ℤ) (m : Dict ℤ)
    → lookup field (hincrby field delta m) ≡ some (value_at field m +ℤ delta)
unfolding hincrby
lookup-hincrby field delta m = elim (Option-cases (lookup field m)) [
  | inl e ↦ rw (lookup-insert, eq_refl, e) (ap some (sym (zero_plus delta)))
  | inr (n, e) ↦ rw (lookup-insert, eq_refl, e) refl
]

hincrby-own :
    (field : String) (delta : ℤ) (m : Dict ℤ)
    → value_at field (hincrby field delta m) ≡ value_at field m +ℤ delta
hincrby-own field delta m = ap (value_or (pos 0)) (lookup-hincrby field delta m)

pub hincrby-other :
    (field other : String) (delta : ℤ) (m : Dict ℤ)
    → (field == other) ≡ false
    → lookup other (hincrby field delta m) ≡ lookup other m
unfolding hincrby
hincrby-other field other delta m e = rw (lookup-insert, e) refl

raise_max-own :
    (field : String) (ms : ℕ) (m : Dict ℤ)
    → value_at field (raise_max field (pos ms) m) ≡ max_ℤ (value_at field m) (pos ms)
unfolding raise_max
raise_max-own field ms m = elim (Option-cases (lookup field m)) [
  | inl e ↦ rw (e, raise_max, lookup-insert, eq_refl) (ground arith)
  | inr (n, e) ↦ elim (Bool-cases (ltb_ℤ n (pos ms))) [
    | inl f ↦ rw (e, raise_max) (rw f (rw (lookup-insert, eq_refl) refl))
    | inr f ↦ rw (e, raise_max) (rw f (rw e refl))
  ]
]

raise_max-other :
    (field other : String) (ms : ℤ) (m : Dict ℤ)
    → (field == other) ≡ false
    → lookup other (raise_max field ms m) ≡ lookup other m
unfolding raise_max
raise_max-other field other ms m q = elim (Option-cases (lookup field m)) [
  | inl e ↦ rw (e, raise_max, lookup-insert, q) refl
  | inr (n, e) ↦ elim (Bool-cases (ltb_ℤ n ms)) [
    | inl f ↦ rw (e, raise_max) (rw f (rw (lookup-insert, q) refl))
    | inr f ↦ rw (e, raise_max) (rw f refl)
  ]
]

parts_apart :
    (a b p q : String)
    → split_last p ≡ none
    → split_last q ≡ none
    → measures a p ≢ measures b q
    → (part_field a p == part_field b q) ≡ false
parts_apart a b p q hp hq n =
    differs (part_field a p) (part_field b q)
      (λ e. n (sym (field_of-measures a p hp) ∙ ap field_of e ∙ field_of-measures b q hq))

pub counter_apart : (a b p : String) → split_last p ≡ none → (("c:" <> a) == part_field b p) ≡ false
counter_apart a b p hp =
    differs ("c:" <> a) (part_field b p)
      (λ e. absurd (cc (field_of-counts a, ap field_of e, field_of-measures b p hp)))

pub part_apart : (a b p : String) → split_last p ≡ none → (part_field b p == ("c:" <> a)) ≡ false
part_apart a b p hp =
    differs (part_field b p) ("c:" <> a)
      (λ e. absurd (cc (field_of-counts a, ap field_of e, field_of-measures b p hp)))

pub counter_same : (a b : String) → (("c:" <> a) == ("c:" <> b)) ≡ (a == b)
counter_same a b = elim (Bool-cases (a == b)) [
  | inl e ↦
      let same = (eq_iff a b).0 e in
      (eq_iff ("c:" <> a) ("c:" <> b)).1 (ap (λ t. "c:" <> t) same) ∙ sym e
  | inr e ↦
      differs ("c:" <> a) ("c:" <> b) (λ f. absurd (
        cc (
          e,
          (eq_iff a b).1 (inside (sym (field_of-counts a) ∙ ap field_of f ∙ field_of-counts b)),
        )))
      ∙ sym e
]
  where
    inside : counts a ≡ counts b → a ≡ b
    inside h = cc

pub count_plain : split_last "count" ≡ none
unfolding split_last
count_plain = refl

pub sum_plain : split_last "sum" ≡ none
unfolding split_last
sum_plain = refl

pub max_plain : split_last "max" ≡ none
unfolding split_last
max_plain = refl

-- The hash after `RecordDurationMs`.
abbrev pub timed_fields : String → ℕ → Dict ℤ → Dict ℤ
timed_fields name ms m =
    raise_max (part_field name "max") (pos ms)
      (hincrby (part_field name "sum") (pos ms) (hincrby (part_field name "count") (pos 1) m))

-- A field of another kind, or of another histogram, is left alone.
pub timed_fields-other :
    (field name : String) (ms : ℕ) (m : Dict ℤ)
    → (part_field name "count" == field) ≡ false
    → (part_field name "sum" == field) ≡ false
    → (part_field name "max" == field) ≡ false
    → lookup field (timed_fields name ms m) ≡ lookup field m
timed_fields-other field name ms m c s x =
    raise_max-other (part_field name "max") field (pos ms) _ x
    ∙ hincrby-other (part_field name "sum") field (pos ms) _ s
    ∙ hincrby-other (part_field name "count") field (pos 1) m c

within :
    (name p q : String)
    → split_last p ≡ none
    → split_last q ≡ none
    → (p == q) ≡ false
    → (part_field name p == part_field name q) ≡ false
within name p q hp hq f =
    parts_apart name name p q hp hq (λ e. absurd (cc (f, (eq_iff p q).1 (second e))))
  where
    second : measures name p ≡ measures name q → p ≡ q
    second e = cc

pub timed_fields-count :
    (name : String) (ms : ℕ) (m : Dict ℤ)
    → value_at (part_field name "count") (timed_fields name ms m)
      ≡ value_at (part_field name "count") m +ℤ pos 1
timed_fields-count name ms m =
    ap (value_or (pos 0)) (
      raise_max-other (part_field name "max") (part_field name "count") (pos ms) _
        (within name "max" "count" max_plain count_plain refl)
      ∙ hincrby-other (part_field name "sum") (part_field name "count") (pos ms) _
          (within name "sum" "count" sum_plain count_plain refl))
    ∙ hincrby-own (part_field name "count") (pos 1) m

pub timed_fields-sum :
    (name : String) (ms : ℕ) (m : Dict ℤ)
    → value_at (part_field name "sum") (timed_fields name ms m)
      ≡ value_at (part_field name "sum") m +ℤ pos ms
timed_fields-sum name ms m =
    ap (value_or (pos 0)) (
      raise_max-other (part_field name "max") (part_field name "sum") (pos ms) _
        (within name "max" "sum" max_plain sum_plain refl))
    ∙ hincrby-own (part_field name "sum") (pos ms) _
    ∙ ap (λ o. value_or (pos 0) o +ℤ pos ms)
        (hincrby-other (part_field name "count") (part_field name "sum") (pos 1) m
          (within name "count" "sum" count_plain sum_plain refl))

pub timed_fields-max :
    (name : String) (ms : ℕ) (m : Dict ℤ)
    → value_at (part_field name "max") (timed_fields name ms m)
      ≡ max_ℤ (value_at (part_field name "max") m) (pos ms)
timed_fields-max name ms m =
    raise_max-own (part_field name "max") ms _
    ∙ ap (λ o. max_ℤ (value_or (pos 0) o) (pos ms))
        (hincrby-other (part_field name "sum") (part_field name "max") (pos ms) _
            (within name "sum" "max" sum_plain max_plain refl)
          ∙ hincrby-other (part_field name "count") (part_field name "max") (pos 1) m
              (within name "count" "max" count_plain max_plain refl))

-- Fields of two histograms.
pub across :
    (a b p q : String)
    → split_last p ≡ none
    → split_last q ≡ none
    → (a == b) ≡ false
    → (part_field a p == part_field b q) ≡ false
across a b p q hp hq f = parts_apart a b p q hp hq (λ e. absurd (cc (f, (eq_iff a b).1 (first e))))
  where
    first : measures a p ≡ measures b q → a ≡ b
    first e = cc

pub hincrby-AllDistinct :
    (field : String) (delta : ℤ) (m : Dict ℤ)
    → AllDistinct (names m)
    → AllDistinct (names (hincrby field delta m))
unfolding hincrby
hincrby-AllDistinct field delta m h = insert-AllDistinct field _ m h

pub raise_max-AllDistinct :
    (field : String) (ms : ℤ) (m : Dict ℤ)
    → AllDistinct (names m)
    → AllDistinct (names (raise_max field ms m))
unfolding raise_max
raise_max-AllDistinct field ms m h = elim (Option-cases (lookup field m)) [
  | inl e ↦ rw (e, raise_max) (insert-AllDistinct field ms m h)
  | inr (n, e) ↦ elim (Bool-cases (ltb_ℤ n ms)) [
    | inl f ↦ rw (e, raise_max) (rw f (insert-AllDistinct field ms m h))
    | inr f ↦ rw (e, raise_max) (rw f h)
  ]
]
