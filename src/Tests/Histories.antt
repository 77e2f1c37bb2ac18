-- ===== src/Tests/Histories.antt =====
-- The order of `Reserve`.
use crunchytask.Common.{ℤ, none}
use crunchytask.Task.Message.{TaskMessage}
use crunchytask.Tests.Json.{Json}
use crunchytask.Tests.Broker.{mail}

-- Two tasks that are due at once.
abbrev second : TaskMessage ℤ Json
second = record mail { name = "report"; run_at_ms = none }

abbrev first : TaskMessage ℤ Json
first = record mail { run_at_ms = none }
