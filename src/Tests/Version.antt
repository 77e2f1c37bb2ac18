-- ===== src/Tests/Version.antt =====
-- A message of a later version of the wire format.
use crunchytask.Common.{pos, ◌≡◌, ◌≢◌, inr, some, refl}
use crunchytask.Wire.{task_message_from_json}
use crunchytask.Wire.Version.{IsFailure, task_message_from_json-IsFailure}
use crunchytask.Tests.Json.{Json, empty_object, whole, field}
use crunchytask.Tests.Libraries.{floats, json_lib, member}
use crunchytask.Tests.Broker.{digits}

abbrev later : Json
later = field "schema_version" (whole (pos 2)) empty_object

has_version : member later "schema_version" ≡ some (whole (pos 2))
unfolding member
has_version = refl

two_is_not_one : pos 2 ≢ pos 1
two_is_not_one e = cc

task_message_from_json-IsFailure_example :
    IsFailure (task_message_from_json floats json_lib digits later)
task_message_from_json-IsFailure_example =
    task_message_from_json-IsFailure floats json_lib digits later (whole (pos 2)) has_version refl
      (inr two_is_not_one)
