-- ===== src/Wire/Message.antt =====
-- A task message written as JSON is read back as it was.
use crunchytask.Common.{
  ℤ, String, ◌≡◌, refl, true, false, Option, none, some, [], ◌∷◌, ◌==◌, if◌then◌else◌, IsInt32,
  IsInt64, lookup, arith, if_same, Bool-cases, inl, inr, eq_iff, ap, ◌∙◌, sym,
}
use mathlib.Core.Option
use crunchytask.Outside.Floats.{Floats}
use crunchytask.Outside.Json.{JsonLib}
use crunchytask.ParseResult.{ok}
use crunchytask.Task.Status.{task_status_to_string, from_string-to_string}
use crunchytask.Task.Id.{is_valid_uuid_format}
use crunchytask.Task.Id.Laws.{parse_id-eq-ok}
use crunchytask.Wire.{
  Message, parse_task_schema_version, policy_to_json, required_members, set_time, set_last_error,
  message_to_json, parse_time, parse_last_error, task_message_from_json,
  task_message_from_json_string, task_schema_version,
}
use crunchytask.Wire.RoundTrip.{
  PolicyFits, int_field, int64_field, string_field, present, from_json-policy_to_json,
}

-- A time that is absent or fits its type.
abbrev pub TimeFits : Option ℤ → Type 0
TimeFits none = Unit
TimeFits (some n) = IsInt64 n

module _ (F : Floats) (J : JsonLib F.Double) where
  open J use {
    Json, Text, object, set_member, member, of_int, of_string, is_object, is_number_integer,
    get_int64, get_int, is_object-object, member-object, is_object-set_member, member-set_member,
    is_number_integer-of_int, get_int64-of_int, get_int-of_int, HasText, dump, parse, parse-dump,
  }

  -- The messages that the program makes: identifiers in the format of a UUID, a policy that the
  -- validation accepts, and numbers that fit `int` and `std::int64_t`.
  pub record MessageFits (m : Message F J) : Type 0 where
    pub id_valid : is_valid_uuid_format m.id.value ≡ true
    pub policy_fits : PolicyFits F J m.retry_policy
    pub count_fits : IsInt32 m.retry_count
    pub created_fits : IsInt64 m.created_at_ms
    pub run_fits : TimeFits m.run_at_ms
    pub reserved_fits : TimeFits m.reserved_at_ms

  is_object-set_time :
      (key : String) (t : Option ℤ) (json : Json)
      → is_object json ≡ true
      → is_object (set_time F J key t json) ≡ true
  unfolding set_time
  is_object-set_time key none json h = h
  is_object-set_time key (some n) json h = is_object-set_member key (of_int n) json h

  is_object-set_last_error :
      (e : String) (json : Json)
      → is_object json ≡ true
      → is_object (set_last_error F J e json) ≡ true
  unfolding set_last_error
  is_object-set_last_error e json h = elim (Bool-cases (e == "")) [
    | inl p ↦ rw p h
    | inr p ↦ rw p (is_object-set_member "last_error" (of_string e) json h)
  ]

  abbrev or_before : Option Json → Option Json → Option Json
  or_before none before = before
  or_before (some v) before = some v

  member-set_time :
      (key other : String) (t : Option ℤ) (json : Json)
      → is_object json ≡ true
      → member (set_time F J key t json) other ≡ (
          if key == other
          then or_before (Option.map of_int t) (member json other)
          else member json other)
  unfolding set_time
  member-set_time key other none json h = ground arith
  member-set_time key other (some n) json h = member-set_member key other (of_int n) json h

  member-set_last_error :
      (e other : String) (json : Json)
      → is_object json ≡ true
      → member (set_last_error F J e json) other ≡ (
          if e == ""
          then member json other
          else if "last_error" == other
          then some (of_string e)
          else member json other)
  unfolding set_last_error
  member-set_last_error e other json h = elim (Bool-cases (e == "")) [
    | inl p ↦ rw p
    | inr p ↦ rw p (member-set_member "last_error" other (of_string e) json h)
  ]

  module _ (m : Message F J) where
    abbrev base : Json
    base = required_members F J m

    abbrev timed : Json
    timed = set_time F J "run_at_ms" m.run_at_ms base

    abbrev noted : Json
    noted = set_last_error F J m.last_error timed

    base_is_object : is_object base ≡ true
    unfolding required_members
    base_is_object = is_object-object _

    timed_is_object : is_object timed ≡ true
    timed_is_object = is_object-set_time _ _ _ base_is_object

    noted_is_object : is_object noted ≡ true
    noted_is_object = is_object-set_last_error _ _ timed_is_object

    pub message_to_json-is_object : is_object (message_to_json F J m) ≡ true
    unfolding message_to_json
    message_to_json-is_object = is_object-set_time _ _ _ noted_is_object

    -- A member that every message has.
    pub required_member :
        (key : String)
        → ("reserved_at_ms" == key) ≡ false
        → ("last_error" == key) ≡ false
        → ("run_at_ms" == key) ≡ false
        → member (message_to_json F J m) key ≡ member base key
    unfolding message_to_json
    required_member key r l t =
        rw
          (
            member-set_time "reserved_at_ms" key m.reserved_at_ms noted noted_is_object,
            r,
            member-set_last_error m.last_error key timed timed_is_object,
            l,
            member-set_time "run_at_ms" key m.run_at_ms base base_is_object,
            t,
          )
          (if_same (m.last_error == "") _)

    -- The members that `required_members` writes, and no others.
    base_member :
        (key : String)
        → member base key
          ≡ lookup key (
              ("schema_version", of_int task_schema_version)
              ∷ ("id", of_string m.id.value)
              ∷ ("name", of_string m.name)
              ∷ ("payload", m.payload)
              ∷ ("status", of_string (task_status_to_string m.status))
              ∷ ("retry_count", of_int m.retry_count)
              ∷ ("retry_policy", policy_to_json F J m.retry_policy)
              ∷ ("created_at_ms", of_int m.created_at_ms)
              ∷ [])
    unfolding required_members
    base_member key = member-object _ key

    or_before-none : (o : Option Json) → or_before o none ≡ o
    or_before-none none = refl
    or_before-none (some v) = refl

    run_member : member (message_to_json F J m) "run_at_ms" ≡ Option.map of_int m.run_at_ms
    unfolding message_to_json lookup
    run_member =
        rw
          (
            member-set_time "reserved_at_ms" "run_at_ms" m.reserved_at_ms noted noted_is_object,
            member-set_last_error m.last_error "run_at_ms" timed timed_is_object,
            member-set_time "run_at_ms" "run_at_ms" m.run_at_ms base base_is_object,
            base_member "run_at_ms",
            or_before-none,
          )
          (if_same (m.last_error == "") _)

    error_member :
        member (message_to_json F J m) "last_error"
        ≡ (if m.last_error == "" then none else some (of_string m.last_error))
    unfolding message_to_json lookup
    error_member = rw (
      member-set_time "reserved_at_ms" "last_error" m.reserved_at_ms noted noted_is_object,
      member-set_last_error m.last_error "last_error" timed timed_is_object,
      member-set_time "run_at_ms" "last_error" m.run_at_ms base base_is_object,
      base_member "last_error",
    )

    reserved_member :
        member (message_to_json F J m) "reserved_at_ms" ≡ Option.map of_int m.reserved_at_ms
    unfolding message_to_json lookup
    reserved_member = rw (
      member-set_time "reserved_at_ms" "reserved_at_ms" m.reserved_at_ms noted noted_is_object,
      member-set_last_error m.last_error "reserved_at_ms" timed timed_is_object,
      member-set_time "run_at_ms" "reserved_at_ms" m.run_at_ms base base_is_object,
      base_member "reserved_at_ms",
      if_same {A = Option Json} (m.last_error == "") none,
      or_before-none,
    )

    required_value :
        (key : String) (v : Json)
        → ("reserved_at_ms" == key) ≡ false
        → ("last_error" == key) ≡ false
        → ("run_at_ms" == key) ≡ false
        → member base key ≡ some v
        → member (message_to_json F J m) key ≡ some v
    required_value key v r l t e = required_member key r l t ∙ e

    pub id_member : member (message_to_json F J m) "id" ≡ some (of_string m.id.value)
    unfolding lookup
    id_member = required_value "id" _ refl refl refl (base_member "id")

  time_field :
      (json : Json) (key : String) (t : Option ℤ)
      → member json key ≡ Option.map of_int t
      → TimeFits t
      → parse_time F J json key ≡ ok t
  unfolding parse_time
  time_field json key none e h = rw (e, parse_time)
  time_field json key (some n) e h =
      rw (e, parse_time)
        (rw is_number_integer-of_int (ap (λ k. ok (some k)) (get_int64-of_int n h)))

  error_field :
      (json : Json) (e : String)
      → member json "last_error" ≡ (if e == "" then none else some (of_string e))
      → parse_last_error F J json ≡ ok e
  unfolding parse_last_error
  error_field json e h = elim (Bool-cases (e == "")) [
    | inl p ↦ rw (h, parse_last_error) (rw p (ap ok (sym ((eq_iff e "").0 p))))
    | inr p ↦
        let found : member json "last_error" ≡ some (of_string e) = rw h (rw p) in
        rw (found, parse_last_error) (string_field F J json "last_error" e found)
  ]

  version_field :
      (digits : ℤ → String) (json : Json)
      → member json "schema_version" ≡ some (of_int task_schema_version)
      → parse_task_schema_version F J digits json ≡ ok task_schema_version
  unfolding parse_task_schema_version
  version_field digits json e =
      rw (e, parse_task_schema_version)
        (rw (
          is_number_integer-of_int task_schema_version,
          get_int-of_int task_schema_version (omega arith),
        ))

  -- Every message that fits is read back from its JSON as it was.
  pub from_json-message_to_json :
      (digits : ℤ → String) (m : Message F J)
      → MessageFits m
      → task_message_from_json F J digits (message_to_json F J m) ≡ ok m
  unfolding task_message_from_json lookup
  from_json-message_to_json digits m h =
      let json : Json = message_to_json F J m in
      rw (
        message_to_json-is_object m,
        version_field digits json
            (required_value m "schema_version" _ refl refl refl (base_member m "schema_version")),
        string_field F J json "id" m.id.value
            (required_value m "id" _ refl refl refl (base_member m "id")),
        parse_id-eq-ok m.id.value h.id_valid,
        string_field F J json "name" m.name
            (required_value m "name" _ refl refl refl (base_member m "name")),
        present F J json "payload" m.payload
            (required_value m "payload" _ refl refl refl (base_member m "payload")),
        string_field F J json "status" (task_status_to_string m.status)
            (required_value m "status" _ refl refl refl (base_member m "status")),
        from_string-to_string m.status,
        int_field F J json "retry_count" m.retry_count
            (required_value m "retry_count" _ refl refl refl (base_member m "retry_count"))
            h.count_fits,
        present F J json "retry_policy" (policy_to_json F J m.retry_policy)
            (required_value m "retry_policy" _ refl refl refl (base_member m "retry_policy")),
        from_json-policy_to_json F J m.retry_policy h.policy_fits,
        int64_field F J json "created_at_ms" m.created_at_ms
            (required_value m "created_at_ms" _ refl refl refl (base_member m "created_at_ms"))
            h.created_fits,
        time_field json "run_at_ms" m.run_at_ms (run_member m) h.run_fits,
        error_field json m.last_error (error_member m),
        time_field json "reserved_at_ms" m.reserved_at_ms (reserved_member m) h.reserved_fits,
      )

  -- A message that fits, and whose JSON has a text, is read back from that text as it was: what
  -- `Enqueue` stores is what a parser of it returns.
  pub from_json_string-dump :
      (digits : ℤ → String) (m : Message F J)
      → MessageFits m
      → HasText (message_to_json F J m)
      → task_message_from_json_string F J digits (dump (message_to_json F J m)) ≡ ok m
  unfolding task_message_from_json_string
  from_json_string-dump digits m h t =
      rw (parse-dump _ t, task_message_from_json_string) (from_json-message_to_json digits m h)
