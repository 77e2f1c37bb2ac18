-- ===== src/Tests/Broker.antt =====
-- Runs of the wire format and of the broker.
use crunchytask.Common.{
  ℕ, ℤ, pos, ◌+ℤ◌, String, ◌<>◌, ◌≡◌, ◌≢◌, ◌^◌, ◌*◌, inl, List, [], ◌∷◌, none, some, lookup, refl,
  arith, eq_iff,
}
use crunchytask.ParseResult.{ok, fail}
use crunchytask.Config.{validate_retry_policy}
use crunchytask.Task.Id.{is_valid_uuid_format, is_hex_digit}
use crunchytask.Task.Status.{pending, succeeded, dead}
use crunchytask.Task.Message.{TaskMessage}
use crunchytask.Task.Policy.{RetryPolicy, compute_retry_delay_ms}
use crunchytask.Task.Policy.Laws.{backoff}
use crunchytask.Task.Result.{success_result, failure_result}
use crunchytask.Wire.{
  message_to_json, task_message_from_json_string, policy_to_json, retry_policy_from_json,
  result_to_json, task_result_from_json,
}
use crunchytask.Wire.RoundTrip.{PolicyFits, from_json-policy_to_json, from_json-result_to_json}
use crunchytask.Wire.Message.{MessageFits, from_json_string-dump}
use crunchytask.Scripts.Copies.{Present, in_pending, HasId}
use crunchytask.Scripts.Names.{NamesTasks}
use crunchytask.Scripts.NoLoss.{Keeps}
use crunchytask.Broker.{
  finished, enqueue, promote_due_tasks, ack, fail_task, get_status, get_failure_reason,
  get_task_result,
}
use crunchytask.Broker.Delivery.{Call, promotes, reserves, acks, retries, fails, run}
use crunchytask.Broker.History.{no_task_lost, enqueued_until_acked}
use crunchytask.Broker.Promotion.{NoneDue, promote_due_tasks-ends}
use crunchytask.Broker.Outcomes.{RetryRuns, FailRuns, ack-outcome, fail-outcome}
use crunchytask.Tests.Json.{Json, string, empty_object, field}
use crunchytask.Tests.Libraries.{floats, json_lib, lua, bridge, index, member}
use crunchytask.Tests.Server.{Store, server}

abbrev pub policy : RetryPolicy ℤ
policy = record { max_retries = pos 3; base_delay_ms = pos 1000; multiplier = pos 2 }

abbrev pub mail : TaskMessage ℤ Json
mail = record {
  id = record { value = "123e4567-e89b-42d3-a456-426614174000" };
  name = "mail";
  payload = field "to" (string "ann") empty_object;
  status = pending;
  retry_count = pos 1;
  retry_policy = policy;
  created_at_ms = pos 5;
  run_at_ms = some (pos 90);
  reserved_at_ms = none;
  last_error = "timeout";
}

abbrev pub empty_store : Store
empty_store = record {
  pending = [];
  dead = [];
  delayed = [];
  running = [];
  results = [];
  statuses = [];
  failures = [];
  metrics = [];
}

abbrev pub mail_text : Json
mail_text = field "id" (string mail.id.value) (field "name" (string "mail") empty_object)

-- The task waits in the pending list.
abbrev pub one_pending : Store
one_pending = record empty_store { pending = mail_text ∷ [] }

-- The task waits in the delayed set until 90.
abbrev pub one_delayed : Store
one_delayed = record empty_store { delayed = (mail_text, pos 90) ∷ [] }

abbrev pub digits : ℤ → String
digits n = "n"

abbrev pub bytes : ℕ → ℕ
bytes i = i

pub mail-HasId : HasId floats lua server mail.id.value mail_text
unfolding index member
mail-HasId = record {
  table = mail_text;
  decoded = refl;
  is_a_table = refl;
  is_encodable = refl;
  named = refl;
}

pub one_pending-NamesTasks : NamesTasks floats lua server one_pending
unfolding lookup
one_pending-NamesTasks = record {
  pending_named = ((mail.id.value, mail-HasId), tt);
  delayed_named = tt;
  dead_encodable = tt;
  leases_named = λ f t e. absurd (cc);
}

pub one_delayed-NamesTasks : NamesTasks floats lua server one_delayed
unfolding lookup
one_delayed-NamesTasks = record {
  pending_named = tt;
  delayed_named = ((mail.id.value, mail-HasId), tt);
  dead_encodable = tt;
  leases_named = λ f t e. absurd (cc);
}

pub one_pending-Present : Present floats lua server mail.id.value one_pending
one_pending-Present = in_pending (inl mail-HasId)

policy-PolicyFits : PolicyFits floats json_lib policy
unfolding validate_retry_policy
policy-PolicyFits = record { valid = refl; retries_fit = omega arith; delay_fits = omega arith }

backoff_example :
    compute_retry_delay_ms floats
      (record { max_retries = pos 3; base_delay_ms = pos 1000; multiplier = pos 2 })
      (pos 3)
    ≡ pos (1000 * 2 ^ 2)
backoff_example = backoff floats (pos 3) 1000 2 2 (omega arith) (omega arith)

from_json-policy_to_json_example :
    retry_policy_from_json floats json_lib (policy_to_json floats json_lib policy) ≡ ok policy
from_json-policy_to_json_example = from_json-policy_to_json floats json_lib policy policy-PolicyFits

from_json-result_to_json_example :
    task_result_from_json floats json_lib
      (result_to_json floats json_lib (failure_result empty_object "boom"))
    ≡ ok (failure_result empty_object "boom")
from_json-result_to_json_example =
    from_json-result_to_json floats json_lib (failure_result empty_object "boom")

mail-MessageFits : MessageFits floats json_lib mail
unfolding is_valid_uuid_format is_hex_digit
mail-MessageFits = record {
  id_valid = refl;
  policy_fits = policy-PolicyFits;
  count_fits = omega arith;
  created_fits = omega arith;
  run_fits = omega arith;
  reserved_fits = tt;
}

from_json_string-dump_example :
    task_message_from_json_string floats json_lib digits (message_to_json floats json_lib mail)
    ≡ ok mail
from_json_string-dump_example =
    from_json_string-dump floats json_lib digits mail mail-MessageFits tt

-- A worker reserves the task, its handler fails, and it is retried, promoted and reserved again.
abbrev pub history : List (Call floats json_lib lua server bridge)
history =
    reserves (pos 10)
    ∷ retries (pos 20) mail "timeout"
    ∷ promotes (pos 9000)
    ∷ reserves (pos 9001)
    ∷ fails mail.id "gave up"
    ∷ acks (record { value = "other" })
    ∷ []

other_id : "other" ≢ mail.id.value
other_id e = absurd (cc ((eq_iff "other" mail.id.value).1 e))

no_task_lost_example :
    Present floats lua server mail.id.value
      (run floats json_lib lua server bridge digits history one_pending)
    × NamesTasks floats lua server
        (run floats json_lib lua server bridge digits history one_pending)
no_task_lost_example =
    no_task_lost floats json_lib lua server bridge digits history one_pending mail.id.value
      (tt, (tt, (tt, (tt, (tt, (tt, tt)))))) one_pending-NamesTasks one_pending-Present
      (tt, (tt, (tt, (tt, (tt, (other_id, tt))))))

enqueued_until_acked_example :
    Present floats lua server
      (enqueue floats json_lib lua server (pos 7) bytes mail one_pending).0.value
      (run floats json_lib lua server bridge digits history
        (enqueue floats json_lib lua server (pos 7) bytes mail one_pending).1)
enqueued_until_acked_example =
    enqueued_until_acked floats json_lib lua server bridge digits (pos 7) bytes mail history
      one_pending ((tt, tt), (tt, (tt, (tt, (tt, (tt, (tt, tt))))))) one_pending-NamesTasks
      (tt, (tt, (tt, (tt, (tt, (unfold enqueue in other_id, tt))))))

delayed_kept : Keeps floats lua server (λ id. ⊥) one_delayed
delayed_kept = record { names = one_delayed-NamesTasks; copies = λ id e. elim e [ ] }

promote_due_tasks-ends_example :
    (after : Store) × (promote_due_tasks floats json_lib lua server (pos 100) one_delayed
      ≡ finished after)
    × NoneDue floats json_lib lua server (pos 100) after
    × Keeps floats lua server (λ id. ⊥) after
promote_due_tasks-ends_example =
    promote_due_tasks-ends floats json_lib lua server (pos 100) one_delayed delayed_kept

ack-outcome_example :
    let after = ack floats json_lib lua server mail.id one_pending in
    (get_status floats json_lib lua server mail.id after ≡ ok succeeded)
    × (get_task_result floats json_lib lua server mail.id after ≡ ok (success_result empty_object))
    × (get_failure_reason floats json_lib lua server mail.id after
        ≡ fail ("failure reason not found: " <> mail.id.value))
    × (lookup mail.id.value after.running ≡ none)
ack-outcome_example = ack-outcome floats json_lib lua server mail.id one_pending tt

-- Its second count, and the time of its next run.
pub mail-RetryRuns : RetryRuns floats json_lib lua server (pos 20) mail "boom"
unfolding ◌+ℤ◌ crunchytask.Common.◌-ℤ◌ compute_retry_delay_ms
mail-RetryRuns = (omega arith, omega arith, tt)

mail-FailRuns : FailRuns floats json_lib lua server mail.id "boom" one_pending
unfolding crunchytask.Scripts.scripts_fail crunchytask.Scripts.fail_script lookup
mail-FailRuns = refl

fail-outcome_example :
    let after = fail_task floats json_lib lua server mail.id "boom" one_pending in
    (get_status floats json_lib lua server mail.id after ≡ ok dead)
    × (get_failure_reason floats json_lib lua server mail.id after ≡ ok "boom")
fail-outcome_example =
    fail-outcome floats json_lib lua server mail.id "boom" one_pending mail-FailRuns
