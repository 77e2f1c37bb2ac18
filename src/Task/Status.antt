-- ===== src/Task/Status.antt =====
-- include/taskqueue/task_status.h and src/task_status.cc.
use crunchytask.Common.{◌≡◌, refl, String, ◌==◌, ◌<>◌, if◌then◌else◌, arith, eq_iff}
use crunchytask.ParseResult.{ParseResult, ok, fail}

pub data TaskStatus : Type 0 where
  pending running succeeded failed retrying dead : TaskStatus

unfoldable pub task_status_to_string : TaskStatus → String
task_status_to_string pending = "pending"
task_status_to_string running = "running"
task_status_to_string succeeded = "succeeded"
task_status_to_string failed = "failed"
task_status_to_string retrying = "retrying"
task_status_to_string dead = "dead"

unfoldable pub task_status_from_string : String → ParseResult TaskStatus
task_status_from_string value =
    if value == "pending"
    then ok pending
    else if value == "running"
    then ok running
    else if value == "succeeded"
    then ok succeeded
    else if value == "failed"
    then ok failed
    else if value == "retrying"
    then ok retrying
    else if value == "dead"
    then ok dead
    else fail ("unknown task status: " <> value)

-- Every status is read back from its name.
pub from_string-to_string :
    (s : TaskStatus) → task_status_from_string (task_status_to_string s) ≡ ok s
unfolding task_status_from_string task_status_to_string
from_string-to_string pending = refl
from_string-to_string _ = refl

-- A text that is read as a status is the status's name.
pub from_string-eq-ok :
    (value : String) (s : TaskStatus)
    → task_status_from_string value ≡ ok s
    → value ≡ task_status_to_string s
unfolding task_status_from_string task_status_to_string
from_string-eq-ok value pending h = ground (
  arith,
  eq_iff value "pending",
  eq_iff value "running",
  eq_iff value "succeeded",
  eq_iff value "failed",
  eq_iff value "retrying",
  eq_iff value "dead",
)
from_string-eq-ok value _ h = ground (
  arith,
  eq_iff value "pending",
  eq_iff value "running",
  eq_iff value "succeeded",
  eq_iff value "failed",
  eq_iff value "retrying",
  eq_iff value "dead",
)
