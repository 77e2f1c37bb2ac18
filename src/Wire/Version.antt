-- ===== src/Wire/Version.antt =====
-- `ParseTaskSchemaVersion` of src/task_json.cc: the versions that are refused.
use crunchytask.Common.{
  ℤ, pos, negsuc, ltb_ℤ, String, ◌≡◌, ◌≢◌, ◌⊎◌, inl, inr, true, false, some, Bool-cases, arith,
}
use crunchytask.Outside.Floats.{Floats}
use crunchytask.Outside.Json.{JsonLib}
use crunchytask.ParseResult.{ParseResult, ok, fail, ◌>>=◌}
use crunchytask.Wire.{task_schema_version, parse_task_schema_version, task_message_from_json}

abbrev pub IsFailure : {A : Type 0} → ParseResult A → Type 0
IsFailure (ok a) = ⊥
IsFailure (fail e) = Unit

>>=-IsFailure :
    {A B : Type 0} (r : ParseResult A) (f : A → ParseResult B) → IsFailure r → IsFailure (r >>= f)
>>=-IsFailure (ok a) f h = absurd h
>>=-IsFailure (fail e) f h = tt

neither_side : (n : ℤ) → ltb_ℤ (pos 1) n ≡ false → ltb_ℤ n (pos 1) ≡ false → n ≡ pos 1
neither_side (pos n) e f = ground arith
neither_side (negsuc n) e f = absurd (ground arith)

module _ (F : Floats) (J : JsonLib F.Double) where
  open J use {Json, member, is_object, is_number_integer, get_int}

  -- A value that is no integer, or that `get<int>()` does not read as 1.
  abbrev pub Unsupported : Json → Type 0
  Unsupported v = (is_number_integer v ≡ false) ⊎ (get_int v ≢ task_schema_version)

  version-IsFailure :
      (digits : ℤ → String) (json v : Json)
      → member json "schema_version" ≡ some v
      → Unsupported v
      → IsFailure (parse_task_schema_version F J digits json)
  unfolding parse_task_schema_version
  version-IsFailure digits json v e u = elim (Bool-cases (is_number_integer v)) [
    | inr not_whole ↦ rw (e, parse_task_schema_version) (rw not_whole tt)
    | inl whole ↦ elim (Bool-cases (ltb_ℤ (pos 1) (get_int v))) [
      | inl above ↦ rw (e, parse_task_schema_version) (rw (whole, above) tt)
      | inr not_above ↦ elim (Bool-cases (ltb_ℤ (get_int v) (pos 1))) [
        | inl below ↦ rw (e, parse_task_schema_version) (rw (whole, not_above, below) tt)
        | inr not_below ↦ elim u [
          | inl not_whole ↦ absurd (cc (whole, not_whole))
          | inr other ↦ absurd (other (neither_side (get_int v) not_above not_below))
        ]
      ]
    ]
  ]

  -- A message is refused, whatever its other fields are, where its `schema_version` is there and is
  -- no integer, or an integer that `get<int>()` does not read as 1.
  pub task_message_from_json-IsFailure :
      (digits : ℤ → String) (json v : Json)
      → member json "schema_version" ≡ some v
      → is_object json ≡ true
      → Unsupported v
      → IsFailure (task_message_from_json F J digits json)
  unfolding task_message_from_json
  task_message_from_json-IsFailure digits json v e o u = rw o (
      >>=-IsFailure (parse_task_schema_version F J digits json) _
        (version-IsFailure digits json v e u))
