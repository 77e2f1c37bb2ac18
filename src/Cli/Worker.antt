-- ===== src/Cli/Worker.antt =====
-- cli/main.cc: `worker start` up to the call of `Run`, and the handler that it registers. The
-- messages of nlohmann's exceptions are arguments.
use crunchytask.Common.{ℕ, ℤ, ◌+ℤ◌, String, ◌||◌, Option, none, some, [], ◌∷◌, if◌then◌else◌}
use crunchytask.Outside.Floats.{Floats}
use crunchytask.Outside.Json.{JsonLib}
use crunchytask.ParseResult.{ParseResult, ok, fail, ◌>>=◌}
use crunchytask.Config.{
  validate_redis_uri, validate_worker_concurrency, validate_visibility_timeout,
}
use crunchytask.Task.Result.{success_result}
use crunchytask.Worker.Registry.{
  Completion, returns, throws, TaskHandler, TaskRegistry, register_task,
}
use crunchytask.Worker.Settings.{Settings, construct, set, set_visibility_timeout}
use crunchytask.Cli.{ensure_redis}

-- The settings that the worker runs with.
unfoldable pub start_settings : Option String → String → ℕ → ℤ → ParseResult Settings
unfolding ensure_redis construct set
start_settings reply redis_uri concurrency visibility_timeout_ms =
    validate_redis_uri redis_uri >>= λ _. validate_worker_concurrency concurrency >>= λ _.
    validate_visibility_timeout visibility_timeout_ms >>= λ _. ensure_redis reply redis_uri >>= λ _.
    construct concurrency >>= λ settings.
    set (set_visibility_timeout visibility_timeout_ms) settings

module _ (F : Floats) (J : JsonLib F.Double) (at_error get_error : J.Json → String → String) where
  open J use {Json, object, member, of_int, is_number, is_boolean, get_int}

  -- `payload.at(key).get<int>()`; a number and a boolean are read.
  unfoldable pub int_at : Json → String → ParseResult ℤ
  int_at payload key = elim (member payload key) [
    | none ↦ fail (at_error payload key)
    | some value ↦
        if is_number value || is_boolean value
        then ok (get_int value)
        else fail (get_error payload key)
  ]

  abbrev pub added : ParseResult ℤ → Completion Json
  added (ok sum) = returns (success_result (object (("result", of_int sum) ∷ [])))
  added (fail what) = throws what

  unfoldable pub add_handler : TaskHandler Json
  unfolding int_at ◌+ℤ◌
  add_handler payload = added (int_at payload "a" >>= λ a. int_at payload "b" >>= λ b. ok (a +ℤ b))

  unfoldable pub start_registry : TaskRegistry Json
  unfolding register_task
  start_registry = register_task "add" add_handler []
