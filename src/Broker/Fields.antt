-- ===== src/Broker/Fields.antt =====
-- The names of the fields of `taskq:metrics`: the loop of `CollectMetrics` reads each back as the
-- name that it was made from.
use Prim.Native.Char.{Char, code}
use text.Mathlib.TextLemmas.{nil-append, cons-append}
use crunchytask.Common.{
  nat_eq, ℤ, String, ◌<>◌, ◌≡◌, Bool-cases, inl, inr, Option, none, some, Option-cases, refl, ap,
  ◌∙◌, sym, arith, insert,
}
use text.Mathlib.TextEquality.{Char-path}
use crunchytask.Metrics.{MetricsSnapshot}
use crunchytask.Broker.Collect.{
  after_prefix, split_here, extended, split_last, collect_histogram, collect_field,
}

-- What a field is for.
pub data Field : Type 0 where
  counts : String → Field
  measures : String → String → Field
  unread : Field

abbrev pub measure_of : Option (String × String) → Field
measure_of none = unread
measure_of (some (name, part)) = measures name part

-- From what follows `c:` and what follows `h:`.
abbrev pub field_from : Option String → Option String → Field
field_from (some name) o = counts name
field_from none none = unread
field_from none (some key) = measure_of (split_last key)

unfoldable pub field_of : String → Field
unfolding after_prefix split_last
field_of field = field_from (after_prefix "c:" field) (after_prefix "h:" field)

-- The name of a field of a histogram.
abbrev pub part_field : String → String → String
part_field name part = "h:" <> name <> ":" <> part

cons_same :
    (c : Char) (p s : String) → after_prefix (String.◌∷◌ c p) (String.◌∷◌ c s) ≡ after_prefix p s
unfolding after_prefix
cons_same c p s = ground arith

nil_prefix : (s : String) → after_prefix String.[] s ≡ some s
unfolding after_prefix
nil_prefix s = refl

after_prefix-append : (p s : String) → after_prefix p (p <> s) ≡ some s
after_prefix-append String.[] s = ap (after_prefix String.[]) (nil-append s) ∙ nil_prefix s
after_prefix-append (String.◌∷◌ c p) s =
    ap (after_prefix (String.◌∷◌ c p)) (cons-append c p s)
    ∙ cons_same c p (p <> s)
    ∙ after_prefix-append p s

after_prefix_sound : (p s t : String) → after_prefix p s ≡ some t → s ≡ p <> t
unfolding after_prefix
after_prefix_sound String.[] s t e = let same : s ≡ t = cc in same ∙ sym (nil-append t)
after_prefix_sound (String.◌∷◌ c p) String.[] t e = absurd (cc)
after_prefix_sound (String.◌∷◌ c p) (String.◌∷◌ d s) t e =
    let same : code c ≡ code d = ground arith in
    let rest : after_prefix p s ≡ some t = ground arith in
    ap (λ a. String.◌∷◌ a s) (sym (Char-path c d same))
    ∙ ap (λ r. String.◌∷◌ c r) (after_prefix_sound p s t rest)
    ∙ sym (cons-append c p t)

colon_append : (s : String) → ":" <> s ≡ String.◌∷◌ ":" s
colon_append s = cons-append ":" "" s ∙ ap (λ t. String.◌∷◌ ":" t) (nil-append s)

-- A text that is split has the parts around a colon.
abbrev IsSplit : String → Option (String × String) → Type 0
IsSplit s none = Unit
IsSplit s (some (front, back)) = s ≡ front <> ":" <> back

split_here-IsSplit : (c : Char) (s : String) → IsSplit (String.◌∷◌ c s) (split_here (code c) s)
split_here-IsSplit c s = elim (Bool-cases (nat_eq (code c) b':')) [
  | inl e ↦
      let same : code c ≡ code ":" = ground (arith, e) in
      rw e (
        ap (λ a. String.◌∷◌ a s) (Char-path c ":" same)
        ∙ sym (colon_append s)
        ∙ sym (nil-append (":" <> s)))
  | inr e ↦ rw e tt
]

extended-IsSplit :
    (c : Char) (s : String) (o : Option (String × String))
    → IsSplit s o
    → IsSplit (String.◌∷◌ c s) (extended c s o)
extended-IsSplit c s none h = split_here-IsSplit c s
extended-IsSplit c s (some (front, back)) h =
    ap (λ t. String.◌∷◌ c t) h ∙ sym (cons-append c front (":" <> back))

split_last-IsSplit : (s : String) → IsSplit s (split_last s)
unfolding split_last
split_last-IsSplit String.[] = tt
split_last-IsSplit (String.◌∷◌ c s) = extended-IsSplit c s (split_last s) (split_last-IsSplit s)

split_last-append :
    (name part : String)
    → split_last part ≡ none
    → split_last (name <> ":" <> part) ≡ some (name, part)
unfolding split_last
split_last-append String.[] part e =
    ap split_last (nil-append (":" <> part) ∙ colon_append part) ∙ rw (e, split_last) refl
split_last-append (String.◌∷◌ c name) part e =
    ap split_last (cons-append c name (":" <> part))
    ∙ ap (extended c (name <> ":" <> part)) (split_last-append name part e)

-- Each field is read back as it was written.
pub field_of-counts : (name : String) → field_of ("c:" <> name) ≡ counts name
unfolding field_of
field_of-counts name =
    ap (λ o. field_from o (after_prefix "h:" ("c:" <> name))) (after_prefix-append "c:" name)

not_counter : (key : String) → after_prefix "c:" ("h:" <> key) ≡ none
unfolding after_prefix
not_counter key = ap (after_prefix "c:") (cons-append "h" ":" key)

pub field_of-measures :
    (name part : String)
    → split_last part ≡ none
    → field_of (part_field name part) ≡ measures name part
unfolding field_of
field_of-measures name part e =
    let key = name <> ":" <> part in
    ap (λ o. field_from o (after_prefix "h:" ("h:" <> key))) (not_counter key)
    ∙ ap (λ o. field_from none o) (after_prefix-append "h:" key)
    ∙ ap measure_of (split_last-append name part e)

-- A field that is read is the one that was written.
abbrev pub Sound : String → Field → Type 0
Sound field (counts name) = field ≡ "c:" <> name
Sound field (measures name part) = field ≡ part_field name part
Sound field unread = Unit

measure-Sound :
    (field key : String) (o : Option (String × String))
    → field ≡ "h:" <> key
    → IsSplit key o
    → Sound field (measure_of o)
measure-Sound field key none e h = tt
measure-Sound field key (some (name, part)) e h = e ∙ ap (λ k. "h:" <> k) h

from-Sound :
    (field : String) (o p : Option String)
    → after_prefix "c:" field ≡ o
    → after_prefix "h:" field ≡ p
    → Sound field (field_from o p)
from-Sound field (some name) p e f = after_prefix_sound "c:" field name e
from-Sound field none none e f = tt
from-Sound field none (some key) e f =
    measure-Sound field key (split_last key) (after_prefix_sound "h:" field key f)
      (split_last-IsSplit key)

pub field_of-Sound : (field : String) → Sound field (field_of field)
unfolding field_of
field_of-Sound field =
    from-Sound field (after_prefix "c:" field) (after_prefix "h:" field) refl refl

-- The body of the loop, by what the field is for.
unfoldable pub collect_as : Field → ℤ → MetricsSnapshot → MetricsSnapshot
unfolding collect_histogram
collect_as (counts name) value m = record m { counters = insert name value m.counters }
collect_as (measures name part) value m = collect_histogram value (some (name, part)) m
collect_as unread value m = m

collect_measure :
    (o : Option (String × String)) (value : ℤ) (m : MetricsSnapshot)
    → collect_histogram value o m ≡ collect_as (measure_of o) value m
unfolding collect_histogram collect_as
collect_measure none value m = refl
collect_measure (some (name, part)) value m = refl

pub collect_field_lem :
    (field : String) (value : ℤ) (m : MetricsSnapshot)
    → collect_field field value m ≡ collect_as (field_of field) value m
unfolding collect_field field_of collect_as
collect_field_lem field value m = elim (Option-cases (after_prefix "c:" field)) [
  | inr (name, e) ↦ rw (e, collect_field) refl
  | inl e ↦ elim (Option-cases (after_prefix "h:" field)) [
    | inl f ↦ rw (e, f, collect_field) refl
    | inr (key, f) ↦ rw (e, f, collect_field) (collect_measure (split_last key) value m)
  ]
]
