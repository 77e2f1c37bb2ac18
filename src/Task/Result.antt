-- ===== src/Task/Result.antt =====
-- include/taskqueue/task_result.h and src/task_result.cc.
use crunchytask.Common.{String, Bool, true, false}

pub record TaskResult (Json : Type 0) : Type 0 where
  pub success : Bool
  pub payload : Json
  pub error_message : String

module _ {Json : Type 0} where
  -- `TaskResult::Success(payload)`
  abbrev pub success_result : Json → TaskResult Json
  success_result payload = record { success = true; payload = payload; error_message = "" }

  -- `TaskResult::Failure(message)`; the payload stays the empty object that the field starts with.
  abbrev pub failure_result : Json → String → TaskResult Json
  failure_result empty_object message = record {
    success = false;
    payload = empty_object;
    error_message = message;
  }
