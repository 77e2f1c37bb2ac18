-- ===== src/Worker/Registry.antt =====
-- include/taskqueue/task_registry.h, task_handler.h and src/task_registry.cc. A handler's run ends
-- with its result or with an exception, so a handler returns a `Completion`.
use crunchytask.Common.{
  String, ◌==◌, ◌<>◌, ◌≡◌, Bool, none, some, is_some, if◌then◌else◌, Dict, lookup, insert,
  lookup-insert, eq_refl, refl, false, Bool-cases, inl, inr,
}
use crunchytask.Task.Result.{TaskResult, failure_result}

pub data Completion (Json : Type 0) : Type 0 where
  returns : TaskResult Json → Completion Json
  -- a `std::exception` with its `what()`
  throws : String → Completion Json
  throws_unknown : Completion Json

abbrev pub TaskHandler : Type 0 → Type 0
TaskHandler Json = Json → Completion Json

abbrev pub TaskRegistry : Type 0 → Type 0
TaskRegistry Json = Dict (TaskHandler Json)

module _ {Json : Type 0} where
  unfoldable pub register_task : String → TaskHandler Json → TaskRegistry Json → TaskRegistry Json
  register_task name handler handlers = insert name handler handlers

  unfoldable pub has_task : String → TaskRegistry Json → Bool
  has_task name handlers = is_some (lookup name handlers)

  -- The `catch` clauses of `Execute`.
  abbrev pub caught : Json → Completion Json → TaskResult Json
  caught empty_object (returns result) = result
  caught empty_object (throws what) = failure_result empty_object what
  caught empty_object throws_unknown =
      failure_result empty_object "task handler threw an unknown exception"

  unfoldable pub execute : Json → String → Json → TaskRegistry Json → TaskResult Json
  execute empty_object name payload handlers = elim (lookup name handlers) [
    | none ↦ failure_result empty_object ("unknown task: " <> name)
    | some handler ↦ caught empty_object (handler payload)
  ]

  -- The result of a task whose handler's run ends so: the handler's own result, or a failure with
  -- the text of its exception.
  abbrev pub EndsAs : Completion Json → TaskResult Json → Type 0
  EndsAs (returns result) r = r ≡ result
  EndsAs (throws what) r = (r.success ≡ false) × (r.error_message ≡ what)
  EndsAs throws_unknown r =
      (r.success ≡ false) × (r.error_message ≡ "task handler threw an unknown exception")

  caught-EndsAs : (empty_object : Json) (c : Completion Json) → EndsAs c (caught empty_object c)
  caught-EndsAs empty_object (returns result) = refl
  caught-EndsAs empty_object (throws what) = (refl, refl)
  caught-EndsAs empty_object throws_unknown = (refl, refl)

  -- After a registration `Execute` of the name gives the result of its newest handler, or a failure
  -- with the text of the exception that it throws, and every other name runs what it ran before.
  pub execute-register_task :
      (empty_object payload : Json) (name other : String) (handler : TaskHandler Json)
      (handlers : TaskRegistry Json)
      → (name == other) ≡ false
      → let registered = register_task name handler handlers in
        EndsAs (handler payload) (execute empty_object name payload registered)
        × (execute empty_object other payload registered
            ≡ execute empty_object other payload handlers)
  unfolding execute register_task
  execute-register_task empty_object payload name other handler handlers e = (
    rw (lookup-insert, eq_refl, execute) (caught-EndsAs empty_object (handler payload)),
    rw (lookup-insert, e, execute),
  )

  -- A task with a handler is one that was registered.
  pub has_task-register_task :
      (name other : String) (handler : TaskHandler Json) (handlers : TaskRegistry Json)
      → has_task other (register_task name handler handlers)
        ≡ (if name == other then Bool.true else has_task other handlers)
  unfolding has_task register_task
  has_task-register_task name other handler handlers = elim (Bool-cases (name == other)) [
    | inl e ↦ rw (lookup-insert, e, has_task)
    | inr e ↦ rw (lookup-insert, e, has_task)
  ]
