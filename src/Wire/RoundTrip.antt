-- ===== src/Wire/RoundTrip.antt =====
-- What is written as JSON is read back as it was.
use crunchytask.Common.{ℤ, String, ◌≡◌, true, some, IsInt32, IsInt64, lookup, [], ◌∷◌, ap}
use crunchytask.Outside.Floats.{Floats}
use crunchytask.Outside.Json.{JsonLib}
use crunchytask.ParseResult.{ok}
use crunchytask.Task.Result.{TaskResult}
use crunchytask.Config.{config_valid, validate_retry_policy}
use crunchytask.Wire.{
  Policy, require_field, parse_int64_field, parse_int_field, parse_double_field, parse_string_field,
  policy_to_json, retry_policy_from_json, result_to_json, task_result_from_json,
}

module _ (F : Floats) (J : JsonLib F.Double) where
  open J use {
    Json, object, set_member, member, of_int, of_double, of_string, of_bool, is_object,
    is_number_integer, is_number, is_string, is_boolean, get_int64, get_int, get_double, get_string,
    get_bool, is_object-object, member-object, is_object-set_member, member-set_member,
    is_number_integer-of_int, get_int64-of_int, get_int-of_int, is_number-of_double,
    get_double-of_double, is_string-of_string, get_string-of_string, is_boolean-of_bool,
    get_bool-of_bool,
  }

  -- A policy that `validate_retry_policy` accepts and whose fields fit their types.
  pub record PolicyFits (policy : Policy F J) : Type 0 where
    pub valid : validate_retry_policy F policy ≡ ok config_valid
    pub retries_fit : IsInt32 policy.max_retries
    pub delay_fits : IsInt64 policy.base_delay_ms

  -- One field, once its value is known.
  pub int_field :
      (json : Json) (key : String) (n : ℤ)
      → member json key ≡ some (of_int n)
      → IsInt32 n
      → parse_int_field F J json key ≡ ok n
  unfolding parse_int_field
  int_field json key n e h =
      rw (e, require_field) (rw is_number_integer-of_int (ap ok (get_int-of_int n h)))

  pub int64_field :
      (json : Json) (key : String) (n : ℤ)
      → member json key ≡ some (of_int n)
      → IsInt64 n
      → parse_int64_field F J json key ≡ ok n
  unfolding parse_int64_field
  int64_field json key n e h =
      rw (e, require_field) (rw is_number_integer-of_int (ap ok (get_int64-of_int n h)))

  pub double_field :
      (json : Json) (key : String) (d : F.Double)
      → member json key ≡ some (of_double d)
      → parse_double_field F J json key ≡ ok d
  unfolding parse_double_field
  double_field json key d e =
      rw (e, require_field) (rw is_number-of_double (ap ok (get_double-of_double d)))

  pub string_field :
      (json : Json) (key s : String)
      → member json key ≡ some (of_string s)
      → parse_string_field F J json key ≡ ok s
  unfolding parse_string_field
  string_field json key s e =
      rw (e, require_field) (rw is_string-of_string (ap ok (get_string-of_string s)))

  pub present :
      (json : Json) (key : String) (v : Json)
      → member json key ≡ some v
      → require_field F J json key ≡ ok v
  unfolding require_field
  present json key v e = rw (e, require_field)

  module _ (policy : Policy F J) where
    policy_is_object : is_object (policy_to_json F J policy) ≡ true
    unfolding policy_to_json
    policy_is_object = is_object-object _

    policy_member :
        (key : String)
        → member (policy_to_json F J policy) key
          ≡ lookup key (
              ("max_retries", of_int policy.max_retries)
              ∷ ("base_delay_ms", of_int policy.base_delay_ms)
              ∷ ("multiplier", of_double policy.multiplier)
              ∷ [])
    unfolding policy_to_json
    policy_member key = member-object _ key

  -- A valid policy whose numbers fit their widths is read back as it was written.
  pub from_json-policy_to_json :
      (policy : Policy F J)
      → PolicyFits policy
      → retry_policy_from_json F J (policy_to_json F J policy) ≡ ok policy
  unfolding retry_policy_from_json lookup
  from_json-policy_to_json policy h =
      let json : Json = policy_to_json F J policy in
      rw (
        policy_is_object policy,
        int_field json "max_retries" policy.max_retries (policy_member policy "max_retries")
            h.retries_fit,
        int64_field json "base_delay_ms" policy.base_delay_ms (policy_member policy "base_delay_ms")
            h.delay_fits,
        double_field json "multiplier" policy.multiplier (policy_member policy "multiplier"),
        h.valid,
      )

  -- Every result is read back as it was written.
  pub from_json-result_to_json :
      (result : TaskResult Json) → task_result_from_json F J (result_to_json F J result) ≡ ok result
  unfolding task_result_from_json result_to_json lookup
  from_json-result_to_json result =
      let json : Json = result_to_json F J result in
      rw (
        is_object-object _,
        present json "success" (of_bool result.success) (member-object _ _),
        is_boolean-of_bool result.success,
        present json "payload" result.payload (member-object _ _),
        string_field json "error_message" result.error_message (member-object _ _),
        get_bool-of_bool result.success,
      )
