-- ===== src/Wire.antt =====
-- src/task_json.cc and include/taskqueue/task_json.h: tasks, results and policies as JSON.
pub mod RoundTrip
pub mod Version
pub mod Message
use crunchytask.Common.{
  ℤ, pos, ltb_ℤ, String, Bool, true, false, Option, none, some, [], ◌∷◌, ◌==◌, ◌<>◌, if◌then◌else◌,
}
use crunchytask.Outside.Floats.{Floats}
use crunchytask.Outside.Json.{JsonLib}
use crunchytask.ParseResult.{ParseResult, ok, fail, ◌>>=◌}
use crunchytask.Task.Status.{TaskStatus, task_status_to_string, task_status_from_string}
use crunchytask.Task.Id.{TaskId, parse_id}
use crunchytask.Task.Policy.{RetryPolicy}
use crunchytask.Task.Result.{TaskResult}
use crunchytask.Task.Message.{TaskMessage}
use crunchytask.Config.{config_valid, validate_retry_policy}

abbrev pub task_schema_version : ℤ
task_schema_version = pos 1

module _ (F : Floats) (J : JsonLib F.Double) where
  open F use {Double}
  open J use {
    Json, Text, object, set_member, member, of_int, of_double, of_string, of_bool, is_object,
    is_number_integer, is_number, is_string, is_boolean, get_int64, get_int, get_double, get_string,
    get_bool, parse,
  }

  abbrev pub Policy : Type 0
  Policy = RetryPolicy Double

  abbrev pub Message : Type 0
  Message = TaskMessage Double Json

  -- The checks for presence; the value is what `json.at(key)` gives after them.
  unfoldable pub require_field : Json → String → ParseResult Json
  require_field json key = elim (member json key) [
    | none ↦ fail ("missing required field: " <> key)
    | some value ↦ ok value
  ]

  unfoldable pub parse_int64_field : Json → String → ParseResult ℤ
  unfolding require_field
  parse_int64_field json key = do
    value ← require_field json key
    if is_number_integer value then ok (get_int64 value) else fail ("field must be int: " <> key)

  unfoldable pub parse_int_field : Json → String → ParseResult ℤ
  unfolding require_field
  parse_int_field json key = do
    value ← require_field json key
    if is_number_integer value then ok (get_int value) else fail ("field must be int: " <> key)

  unfoldable pub parse_double_field : Json → String → ParseResult Double
  unfolding require_field
  parse_double_field json key = do
    value ← require_field json key
    if is_number value then ok (get_double value) else fail ("field must be number: " <> key)

  unfoldable pub parse_string_field : Json → String → ParseResult String
  unfolding require_field
  parse_string_field json key = do
    value ← require_field json key
    if is_string value then ok (get_string value) else fail ("field must be string: " <> key)

  -- The message for a version that is not supported; `digits` is `std::to_string`.
  unfoldable pub parse_task_schema_version : (ℤ → String) → Json → ParseResult ℤ
  parse_task_schema_version digits json = elim (member json "schema_version") [
    | none ↦ ok task_schema_version
    | some version_json ↦
        if is_number_integer version_json
        then (let version = get_int version_json in
            if ltb_ℤ task_schema_version version
            then fail (
                "unsupported task schema_version: "
                <> digits version
                <> " (max supported: "
                <> digits task_schema_version
                <> ")")
            else if ltb_ℤ version task_schema_version
            then fail ("unsupported task schema_version: " <> digits version)
            else ok version)
        else fail "schema_version must be an integer"
  ]

  unfoldable pub policy_to_json : Policy → Json
  policy_to_json policy = object (
      ("max_retries", of_int policy.max_retries)
      ∷ ("base_delay_ms", of_int policy.base_delay_ms)
      ∷ ("multiplier", of_double policy.multiplier)
      ∷ [])

  unfoldable pub retry_policy_from_json : Json → ParseResult Policy
  retry_policy_from_json json =
      if is_object json
      then (do
        max_retries ← parse_int_field json "max_retries"
        base_delay_ms ← parse_int64_field json "base_delay_ms"
        multiplier ← parse_double_field json "multiplier"
        let policy : Policy = record {
          max_retries = max_retries;
          base_delay_ms = base_delay_ms;
          multiplier = multiplier;
        }
        _ ← validate_retry_policy F policy
        ok policy)
      else fail "retry_policy must be an object"

  unfoldable pub result_to_json : TaskResult Json → Json
  result_to_json result = object (
      ("success", of_bool result.success)
      ∷ ("payload", result.payload)
      ∷ ("error_message", of_string result.error_message)
      ∷ [])

  unfoldable pub task_result_from_json : Json → ParseResult (TaskResult Json)
  task_result_from_json json =
      if is_object json
      then (do
        success ← require_field json "success"
        if is_boolean success
            then (do
              payload ← require_field json "payload"
              error_message ← parse_string_field json "error_message"
              ok (record {
                success = get_bool success;
                payload = payload;
                error_message = error_message;
              }))
            else fail "success must be a boolean")
      else fail "task result must be an object"

  -- The initialiser list of `ToJson(const TaskMessage&)`.
  unfoldable pub required_members : Message → Json
  unfolding policy_to_json
  required_members message = object (
      ("schema_version", of_int task_schema_version)
      ∷ ("id", of_string message.id.value)
      ∷ ("name", of_string message.name)
      ∷ ("payload", message.payload)
      ∷ ("status", of_string (task_status_to_string message.status))
      ∷ ("retry_count", of_int message.retry_count)
      ∷ ("retry_policy", policy_to_json message.retry_policy)
      ∷ ("created_at_ms", of_int message.created_at_ms)
      ∷ [])

  -- `if (time.has_value()) json[key] = *time;`
  unfoldable pub set_time : String → Option ℤ → Json → Json
  set_time key none json = json
  set_time key (some time) json = set_member key (of_int time) json

  -- `if (!message.last_error.empty()) json["last_error"] = message.last_error;`
  unfoldable pub set_last_error : String → Json → Json
  set_last_error last_error json =
      if last_error == "" then json else set_member "last_error" (of_string last_error) json

  unfoldable pub message_to_json : Message → Json
  message_to_json message = set_time "reserved_at_ms" message.reserved_at_ms (
      set_last_error message.last_error
        (set_time "run_at_ms" message.run_at_ms (required_members message)))

  -- An optional time: absent, an integer, or an error.
  unfoldable pub parse_time : Json → String → ParseResult (Option ℤ)
  parse_time json key = elim (member json key) [
    | none ↦ ok none
    | some value ↦
        if is_number_integer value
        then ok (some (get_int64 value))
        else fail (key <> " must be an integer")
  ]

  unfoldable pub parse_last_error : Json → ParseResult String
  parse_last_error json = elim (member json "last_error") [
    | none ↦ ok ""
    | some value ↦ parse_string_field json "last_error"
  ]

  unfoldable pub task_message_from_json : (ℤ → String) → Json → ParseResult Message
  task_message_from_json digits json =
      if is_object json
      then (do
        _ ← parse_task_schema_version digits json
        id_string ← parse_string_field json "id"
        id ← parse_id id_string
        name ← parse_string_field json "name"
        payload ← require_field json "payload"
        status_string ← parse_string_field json "status"
        status ← task_status_from_string status_string
        retry_count ← parse_int_field json "retry_count"
        retry_policy_json ← require_field json "retry_policy"
        retry_policy ← retry_policy_from_json retry_policy_json
        created_at_ms ← parse_int64_field json "created_at_ms"
        run_at_ms ← parse_time json "run_at_ms"
        last_error ← parse_last_error json
        reserved_at_ms ← parse_time json "reserved_at_ms"
        ok (record {
          id = id;
          name = name;
          payload = payload;
          status = status;
          retry_count = retry_count;
          retry_policy = retry_policy;
          created_at_ms = created_at_ms;
          run_at_ms = run_at_ms;
          reserved_at_ms = reserved_at_ms;
          last_error = last_error;
        }))
      else fail "task message must be an object"

  -- The parser's message goes behind the prefix.
  unfoldable pub task_message_from_json_string : (ℤ → String) → Text → ParseResult Message
  task_message_from_json_string digits json_text = elim (parse json_text) [
    | fail what ↦ fail ("invalid json: " <> what)
    | ok json ↦ task_message_from_json digits json
  ]
