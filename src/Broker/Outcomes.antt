-- ===== src/Broker/Outcomes.antt =====
-- What a client sees of a task after each of the broker's calls.
use crunchytask.Common.{
  ℤ, pos, ◌+ℤ◌, String, ◌≡◌, List, [], ◌∷◌, ◌<>◌, Option, none, some, Dict, lookup, insert, remove,
  lookup-insert, lookup-remove, eq_refl, refl, ap, ◌∙◌, IsInt32, IsInt64,
}
use crunchytask.Outside.Floats.{Floats}
use crunchytask.Outside.Json.{JsonLib}
use crunchytask.Outside.Lua.{Lua}
use crunchytask.Outside.Redis.{Redis, status_key, failures_key, score_of}
use crunchytask.ParseResult.{ParseResult, ok, fail}
use crunchytask.Task.Status.{
  TaskStatus, succeeded, retrying, dead, task_status_to_string, from_string-to_string,
}
use crunchytask.Task.Id.{TaskId}
use crunchytask.Task.Result.{TaskResult, success_result}
use crunchytask.Wire.{Message, message_to_json, result_to_json}
use crunchytask.Wire.RoundTrip.{from_json-result_to_json}
use crunchytask.Scripts.{
  Reply, returned, raised, Done, done, buried, scripts_retry, scripts_fail, scripts_ack,
  fail_script,
}
use crunchytask.Scripts.Effects.{ack_script_lem, retry_script_lem}
use crunchytask.Task.Policy.{compute_retry_delay_ms}
use crunchytask.Broker.{
  Store, record_counter, ack, retried, retry, fail_task, get_status, get_failure_reason,
  get_task_result, counted_failure,
}

module _ (F : Floats) (J : JsonLib F.Double) (L : Lua F.Double J.Text)
    (R : Redis F.Double J.Text F.leb) where
  open J use {Json, Text, object, HasText, dump, can_dump-HasText, parse-dump}
  open R use {
    hset_text_lem, hdel_text_lem, hget_text_lem, hset_document_lem, hdel_document_lem,
    hget_document_lem, zadd_lem, lpush_lem,
  }

  abbrev pub reason_of : TaskId → Option String → ParseResult String
  reason_of id none = fail ("failure reason not found: " <> id.value)
  reason_of id (some r) = ok r

  -- The queries, once the entry of their hash is known.
  pub status_is :
      (id : TaskId) (status : TaskStatus) (d : Store F J L R)
      → lookup id.value d.statuses ≡ some (task_status_to_string status)
      → get_status F J L R id d ≡ ok status
  unfolding get_status
  status_is id status d e =
      rw (get_status, hget_text_lem, e, get_status) (from_string-to_string status)

  pub reason_is :
      (id : TaskId) (o : Option String) (d : Store F J L R)
      → lookup id.value d.failures ≡ o
      → get_failure_reason F J L R id d ≡ reason_of id o
  unfolding get_failure_reason
  reason_is id none d e = rw (get_failure_reason, hget_text_lem, e, get_failure_reason)
  reason_is id (some r) d e = rw (get_failure_reason, hget_text_lem, e, get_failure_reason)

  result_is :
      (id : TaskId) (result : TaskResult Json) (d : Store F J L R)
      → HasText (result_to_json F J result)
      → lookup id.value d.results ≡ some (dump (result_to_json F J result))
      → get_task_result F J L R id d ≡ ok result
  unfolding get_task_result
  result_is id result d t e =
      rw (get_task_result, hget_document_lem, e, get_task_result)
        (rw (parse-dump _ t, get_task_result) (from_json-result_to_json F J result))

  pub inserted {ℓ} :
      {V : Type ℓ} (k : String) (v : V) (m : Dict V) → lookup k (insert k v m) ≡ some v
  inserted k v m = rw (lookup-insert, eq_refl)

  removed {ℓ} : {V : Type ℓ} (k : String) (m : Dict V) → lookup k (remove k m) ≡ none
  removed k m = rw (lookup-remove, eq_refl)

  score_of-head :
      (t : Text) (s : F.Double) (z : List (Text × F.Double))
      → score_of R.same t ((t, s) ∷ z) ≡ some s
  unfolding score_of
  score_of-head t s z = rw ((R.same_iff t t).1 refl)

  pub get_status-ack :
      (id : TaskId) (d : Store F J L R) → get_status F J L R id (ack F J L R id d) ≡ ok succeeded
  unfolding ack scripts_ack record_counter
  get_status-ack id d = status_is id succeeded _ (
      ap (λ s. lookup id.value s.statuses)
        (ack_script_lem F L R id.value (dump (result_to_json F J (success_result (object []))))
          (task_status_to_string succeeded) d)
      ∙ inserted id.value _ d.statuses)

  -- After `Ack` the status is `succeeded`, the result is the empty success, there is no failure
  -- reason, and no worker holds the task. The empty success must have a JSON text.
  pub ack-outcome :
      (id : TaskId) (d : Store F J L R)
      → HasText (result_to_json F J (success_result (object [])))
      → let after = ack F J L R id d in
        (get_status F J L R id after ≡ ok succeeded)
        × (get_task_result F J L R id after ≡ ok (success_result (object [])))
        × (get_failure_reason F J L R id after ≡ fail ("failure reason not found: " <> id.value))
        × (lookup id.value after.running ≡ none)
  unfolding ack scripts_ack record_counter
  ack-outcome id d t =
      let e =
        ack_script_lem F L R id.value (dump (result_to_json F J (success_result (object []))))
          (task_status_to_string succeeded) d in
      (
        get_status-ack id d,
        result_is id _ _ t (ap (λ s. lookup id.value s.results) e ∙ inserted id.value _ d.results),
        reason_is id none _ (ap (λ s. lookup id.value s.failures) e ∙ removed id.value d.failures),
        ap (λ s. lookup id.value s.running) e ∙ removed id.value d.running,
      )

  -- The script of Fail raises no error for this store.
  abbrev pub FailRuns : TaskId → String → Store F J L R → Type 0
  FailRuns id reason d = (scripts_fail F L R id.value reason d).0 ≡ returned done

  DeadWith : String → String → Reply Done × Store F J L R → Type 0
  DeadWith id reason o =
      (lookup id (counted_failure F J L R o).statuses ≡ some (task_status_to_string dead))
      × (lookup id (counted_failure F J L R o).failures ≡ some reason)

  buried-DeadWith :
      (id reason : String) (o : Reply Done × Store F J L R)
      → (buried F L R id reason (task_status_to_string dead) o).0 ≡ returned done
      → DeadWith id reason (buried F L R id reason (task_status_to_string dead) o)
  unfolding counted_failure record_counter DeadWith
  buried-DeadWith id reason (returned done, d) e = (
    rw (hset_text_lem status_key) (inserted id _ _),
    rw (hset_text_lem status_key) (rw (hset_text_lem failures_key) (inserted id _ _)),
  )
  buried-DeadWith id reason (raised, d) e = absurd (cc)

  -- After `Fail` the status is `dead` and the reason is the one given, where its script does not
  -- raise an error.
  pub fail-outcome :
      (id : TaskId) (reason : String) (d : Store F J L R)
      → FailRuns id reason d
      → let after = fail_task F J L R id reason d in
        (get_status F J L R id after ≡ ok dead) × (get_failure_reason F J L R id after ≡ ok reason)
  unfolding fail_task scripts_fail fail_script DeadWith
  fail-outcome id reason d runs =
      let (s, r) = buried-DeadWith id.value reason _ runs in
      (status_is id dead _ s, reason_is id (some reason) _ r)

  -- Retry makes no arithmetic overflow, and its message has a JSON text.
  abbrev pub RetryRuns : ℤ → Message F J → String → Type 0
  RetryRuns now task reason =
      IsInt32 (task.retry_count +ℤ pos 1)
      × IsInt64 (now +ℤ compute_retry_delay_ms F task.retry_policy (task.retry_count +ℤ pos 1))
      × HasText (message_to_json F J (retried F J L R now task reason))

  pub retry-outcome :
      (now : ℤ) (task : Message F J) (reason : String) (d : Store F J L R)
      → RetryRuns now task reason
      → let after = retry F J L R now task reason d in
        let again = retried F J L R now task reason in
        (get_status F J L R task.id after ≡ ok retrying)
        × (get_failure_reason F J L R task.id after ≡ ok reason)
        × (lookup task.id.value after.running ≡ none)
        × (score_of R.same (dump (message_to_json F J again)) after.delayed
            ≡ some (
                F.of_int
                  (now +ℤ compute_retry_delay_ms F task.retry_policy (task.retry_count +ℤ pos 1))))
  unfolding retry scripts_retry record_counter retried
  retry-outcome now task reason d runs =
      let e =
        retry_script_lem F L R task.id.value
          (dump (message_to_json F J (retried F J L R now task reason))) _ reason
          (task_status_to_string retrying) d in
      rw (can_dump-HasText (message_to_json F J (retried F J L R now task reason)) runs.2, retry)
        (
          status_is task.id retrying _
              (ap (λ s. lookup task.id.value s.statuses) e ∙ inserted task.id.value _ d.statuses),
          reason_is task.id (some reason) _
              (ap (λ s. lookup task.id.value s.failures) e ∙ inserted task.id.value _ d.failures),
          ap (λ s. lookup task.id.value s.running) e ∙ removed task.id.value d.running,
          ap
                (λ s.
                  score_of R.same (dump (message_to_json F J (retried F J L R now task reason)))
                    s.delayed)
                e
              ∙ score_of-head _ _ _,
        )
