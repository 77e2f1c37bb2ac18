-- ===== src/Lib.antt =====
-- crunchytask: a distributed task queue over Redis, in C++.
--
-- Producers hand tasks to a broker, which keeps them in Redis. A worker asks the broker for a task,
-- runs the handler that is registered for its name, and acknowledges it, has it retried later, or
-- lets it end in the dead list. At each round a worker first moves delayed tasks that are due and
-- leased tasks that have timed out back to the pending list. The contents of Redis change only by
-- seven Lua scripts and a few transactions, each of them one atomic step.
--
-- The parts, and the files that model them:
--   ParseResult          include/taskqueue/parse_result.h
--   Config               src/runtime_config.cc
--   Task, Task/*         task_status, task_id, retry_policy, task_result and task_message, under
--                        src/ and include/taskqueue/
--   Wire, Wire/*         src/task_json.cc, both directions (`ToJson` is `message_to_json`,
--                        `policy_to_json` and `result_to_json`)
--   Scripts, Scripts/*   src/redis_scripts.cc: kReserveScript is `reserve_script`, and so on; the
--                        methods of RedisScripts are `scripts_reserve` and so on;
--                        Scripts/Loading is `LoadScripts`, `LoadScript` and `Eval`
--   Broker, Broker/*     src/redis_broker.cc and include/taskqueue/broker_stats.h; Broker/Collect is
--                        `CollectMetrics`
--   Worker, Worker/*     src/task_registry.cc and `ProcessTask` of src/worker.cc, over the record
--                        `Worker.Broker` of the calls that it makes (include/taskqueue/broker.h);
--                        Worker/Service fills the record with the broker over Redis
--   Scheduler            src/scheduler.cc and `RunOnce` of src/worker.cc
--   Pool, Pool/*         src/thread_pool.cc, as a step relation
--   Worker/Settings      the constructor and the setters of src/worker.cc and `CanAcceptTask`
--   Worker/Loop          `Run`, `Stop` and `MaybePublishHeartbeat` of src/worker.cc, as a machine of
--                        the loop's thread, the pool's threads and the other clients of the store,
--                        in the first `Run` of a worker, whose pool is the constructor's
--   Heartbeat            `UpsertWorkerHeartbeat` and `ListWorkers` of src/redis_broker.cc
--   Metrics, Metrics/*   `MetricsCollector` and the two text formats of src/metrics.cc, and
--                        src/metrics_snapshot.cc (Metrics/Live)
--   Cli, Cli/*           cli/main.cc: `run_command` and a function for each subcommand's callback;
--                        Cli/Worker is `worker start`
--   Common, Common/*     booleans, lists, maps, signed integers, sorting and written output
--   Outside/*            the parameters: double arithmetic, nlohmann::json, cjson and Lua, Redis and
--                        its script cache
--   Tests, Tests/*       concrete libraries for the parameters, and runs of the model on them
--
-- The state of the broker is the contents of the keys of include/taskqueue/redis_keys.h, the record
-- `Data`. A JSON text is opaque to the model: the C++ side writes and reads it by `dump` and
-- `parse`, a script by `decode` and `encode`, and the laws of Outside say what these agree on. They
-- promise that a script keeps the texts of a table, and nothing of its arrays and numbers. A task
-- is in the store (`Present`) where a text with its identifier is pending, delayed, leased or dead.
-- `NamesTasks` says that the pending and delayed texts name a task, that each lease stands under the
-- name of its task, and that the tables of all these texts and of the dead ones can be encoded again.
-- `cjson.encode` raises an error where a table is not `encodable`, for a number that is not finite,
-- and a script that raises it keeps what it wrote and removed before. `dump` gives a text that the
-- laws speak of where `HasText` holds; where it does not, the C++ side raises an exception or writes
-- what cjson cannot read: the exception in `Retry` is a branch of `retry` (`can_dump`), and the rest
-- is left to the hypotheses that name it.
--
-- The clock's readings, the bytes drawn for an identifier and the time that a handler takes are
-- arguments. An exception is a value: `raised` and `thrown` for a script's error, `throws` for a
-- handler's. An `int` or an `std::int64_t` is a signed integer; the fields that are read back from
-- JSON have the bounds of their width as a hypothesis. The loop of `PromoteDueTasks` has fuel one
-- above the size of the delayed set: each round that goes on removes a member. The commands of
-- `RecordDurationMs` are one step of the model, in which no other client writes between them.
--
-- The loop of `Run` has no fuel: it is a step relation, and what is stated of it holds in every
-- state that any interleaving reaches. What a subcommand or a format writes is the sequence of its
-- texts, numbers and JSON documents; `std::sort` is an insertion sort by the same order.
--
-- Not modelled: the connection to Redis and its errors, with `RecordRedisOperationError`; the host
-- name and the process id of a worker, which are the system's; the condition variables of the pool,
-- in place of which a waiting thread may step when its predicate holds; the reading of the command
-- line by CLI11, its help text and the signal handler; the in-memory broker of the tests; the
-- benchmarks, the examples and the Python client.
pub mod Cli
pub mod Common
pub mod Outside
pub mod ParseResult
pub mod Config
pub mod Task
pub mod Wire
pub mod Scripts
pub mod Metrics
pub mod Broker
pub mod Worker
pub mod Scheduler
pub mod Pool
pub mod Tests
pub mod Heartbeat
