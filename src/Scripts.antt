-- ===== src/Scripts.antt =====
-- src/redis_scripts.cc and include/taskqueue/redis_scripts.h: the Lua scripts, each over the
-- contents of the store, and the methods that call them with their arguments. A script that
-- raises an error keeps what it wrote before, as the server does. `KEYS` are the typed keys.
pub mod Copies
pub mod Names
pub mod NoLoss
pub mod Moves
pub mod Ends
pub mod Effects
pub mod Loading
use crunchytask.Common.{
  ℤ, String, ◌≡◌, Bool, true, false, not, List, [], ◌∷◌, ◌==◌, Option, none, some, if◌then◌else◌,
  arith,
}
use crunchytask.Outside.Floats.{Floats}
use crunchytask.Outside.Lua.{Lua}
use crunchytask.Outside.Redis.{
  Data, Redis, pending_key, dead_key, running_key, results_key, status_key, failures_key,
}
use crunchytask.Task.Status.{pending, succeeded, retrying, dead, task_status_to_string}

pub data Reply {ℓ} (A : Type ℓ) : Type ℓ where
  returned : A → Reply A
  raised : Reply A

-- The reply of a script whose caller drops it.
pub data Done : Type 0 where
  done : Done

module _ (F : Floats) {Text : Type 0} (L : Lua F.Double Text) (R : Redis F.Double Text F.leb) where
  open F use {Double, of_int, sub, leb}
  open L use {
    Value, decode, encodable, encode, is_table, index, truthy, equals, set_text, set_number, clear,
    argument, tonumber,
  }
  open R use {
    lpush, rpop, lrem, lrange, zadd, zrem, first_due, hset_document, hget_document, hdel_document,
    hset_text, hdel_text,
  }

  abbrev pub Store : Type 0
  Store = Data Double Text

  abbrev pub Outcome : Type 0 → Type 0
  Outcome A = Reply A × Store

  -- `pcall(cjson.decode, text)`, and `none` unless the result is a table.
  unfoldable pub decode_table : Text → Option Value
  decode_table text = elim (decode text) [
    | none ↦ none
    | some msg ↦ if is_table msg then some msg else none
  ]

  -- The table of a text with `msg[key]`; `none` where the scripts return early.
  unfoldable pub decode_with : String → Text → Option Value
  unfolding decode_table
  decode_with key text = elim (decode_table text) [
    | none ↦ none
    | some msg ↦ if truthy (index msg key) then some msg else none
  ]

  -- The writes of kReserveScript to `running` and `status`.
  abbrev leased_as : Text → Option String → Store → Outcome (Option Text)
  leased_as running_json none d = (raised, d)
  leased_as running_json (some id) d = (
    returned (some running_json),
    hset_text status_key id "running" (hset_document running_key id running_json d),
  )

  -- kReserveScript, after the decoding.
  unfoldable pub reserve_message : ℤ → Value → Store → Outcome (Option Text)
  reserve_message reserved_at msg d =
      let running_msg = set_number "reserved_at_ms" reserved_at (set_text "status" "running" msg) in
      if encodable running_msg
      then leased_as (encode running_msg) (argument (index running_msg "id")) d
      else (raised, d)

  unfoldable pub reserve_text : ℤ → Text → Store → Outcome (Option Text)
  unfolding reserve_message decode_with
  reserve_text reserved_at json d = elim (decode_with "id" json) [
    | none ↦ (returned none, d)
    | some msg ↦ reserve_message reserved_at msg d
  ]

  unfoldable pub reserve_script : ℤ → Store → Outcome (Option Text)
  unfolding reserve_text
  reserve_script reserved_at d = elim (rpop pending_key d) [
    | none ↦ (returned none, d)
    | some (json, popped) ↦ reserve_text reserved_at json popped
  ]

  -- The last write of kPromoteOneScript.
  abbrev promoted_as : String → Option String → Store → Outcome Bool
  promoted_as pending_status none d = (raised, d)
  promoted_as pending_status (some id) d = (returned true, hset_text status_key id pending_status d)

  -- kPromoteOneScript
  unfoldable pub promote_message : String → Value → Store → Outcome Bool
  promote_message pending_status msg d =
      let pending_msg = set_text "status" "pending" (clear "run_at_ms" msg) in
      if encodable pending_msg
      then promoted_as pending_status (argument (index pending_msg "id"))
          (lpush pending_key (encode pending_msg) d)
      else (raised, d)

  unfoldable pub promote_member : String → Text → Bool × Store → Outcome Bool
  unfolding promote_message decode_with
  promote_member pending_status member (false, d) = (returned false, d)
  promote_member pending_status member (true, d) = elim (decode_with "id" member) [
    | none ↦ (returned false, d)
    | some msg ↦ promote_message pending_status msg d
  ]

  unfoldable pub promote_one_script : Double → String → Store → Outcome Bool
  unfolding promote_member
  promote_one_script now_ms pending_status d = elim (first_due now_ms d) [
    | none ↦ (returned false, d)
    | some member ↦ promote_member pending_status member (zrem member d)
  ]

  -- kReclaimOneScript
  unfoldable pub requeue : String → Value → Bool × Store → Outcome Bool
  requeue task_id msg (false, d) = (returned false, d)
  requeue task_id msg (true, d) =
      let pending_msg = clear "reserved_at_ms" (set_text "status" "pending" msg) in
      if encodable pending_msg
      then (
        returned true,
        hset_text status_key task_id "pending" (lpush pending_key (encode pending_msg) d),
      )
      else (raised, d)

  unfoldable pub reclaim_message : String → Double → Double → Value → Store → Outcome Bool
  unfolding requeue
  reclaim_message task_id now_ms timeout_ms msg d = elim (tonumber (index msg "reserved_at_ms")) [
    | none ↦ (raised, d)
    | some reserved_at ↦
        if leb (sub now_ms reserved_at) timeout_ms
        then (returned false, d)
        else requeue task_id msg (hdel_document running_key task_id d)
  ]

  unfoldable pub reclaim_text : String → Double → Double → Text → Store → Outcome Bool
  unfolding reclaim_message decode_with
  reclaim_text task_id now_ms timeout_ms json d = elim (decode_with "reserved_at_ms" json) [
    | none ↦ (returned false, d)
    | some msg ↦ reclaim_message task_id now_ms timeout_ms msg d
  ]

  unfoldable pub reclaim_one_script : String → Double → Double → Store → Outcome Bool
  unfolding reclaim_text
  reclaim_one_script task_id now_ms timeout_ms d = elim (hget_document running_key task_id d) [
    | none ↦ (returned false, d)
    | some json ↦ reclaim_text task_id now_ms timeout_ms json d
  ]

  -- kRetryScript
  unfoldable pub retry_script : String → Text → Double → String → String → Store → Store
  retry_script task_id delayed_json run_at_ms reason status d =
      hset_text failures_key task_id reason (
        hset_text status_key task_id status
          (zadd run_at_ms delayed_json (hdel_document running_key task_id d).1))

  -- kFailScript
  unfoldable pub bury_message : String → Value → Store → Outcome Done
  bury_message reason msg d =
      let dead_msg = set_text "last_error" reason (set_text "status" "dead" msg) in
      if encodable dead_msg
      then (returned done, lpush dead_key (encode dead_msg) d)
      else (raised, d)

  unfoldable pub bury : String → Option Text → Store → Outcome Done
  unfolding decode_table bury_message
  bury reason none d = (returned done, d)
  bury reason (some json) d = elim (decode_table json) [
    | none ↦ (returned done, d)
    | some msg ↦ bury_message reason msg d
  ]

  -- The last two writes of kFailScript, which an error keeps from being made.
  abbrev pub buried : String → String → String → Outcome Done → Outcome Done
  buried task_id reason status (returned done, d) =
      (returned done, hset_text status_key task_id status (hset_text failures_key task_id reason d))
  buried task_id reason status (raised, d) = (raised, d)

  unfoldable pub fail_script : String → String → String → Store → Outcome Done
  unfolding bury
  fail_script task_id reason status d =
      buried task_id reason status
        (bury reason (hget_document running_key task_id d) (hdel_document running_key task_id d).1)

  -- kAckScript
  unfoldable pub ack_script : String → Text → String → Store → Store
  ack_script task_id result_json succeeded_status d =
      (hdel_text failures_key task_id (
        hset_document results_key task_id result_json (
          hset_text status_key task_id succeeded_status (hdel_document running_key task_id d).1))).1

  -- kRetryDeadTaskScript: the loop over the dead list, and what it does at the task's entry.
  unfoldable pub revived_message : Value → Value
  revived_message msg = clear "reserved_at_ms" (
      clear "run_at_ms"
        (clear "last_error" (set_number "retry_count" (ℤ.pos 0) (set_text "status" "pending" msg))))

  unfoldable pub revive : String → Value → Bool × Store → Outcome Bool
  unfolding revived_message
  revive task_id msg (false, d) = (returned false, d)
  revive task_id msg (true, d) =
      if encodable (revived_message msg)
      then (
        returned true,
        (hdel_text failures_key task_id (
            hset_text status_key task_id "pending"
              (lpush pending_key (encode (revived_message msg)) d))).1,
      )
      else (raised, d)

  unfoldable pub retry_dead_items : String → List Text → Store → Outcome Bool
  unfolding decode_table
  retry_dead_items task_id [] d = (returned false, d)
  retry_dead_items task_id (json ∷ items) d =
      let later = retry_dead_items task_id items d in
      elim (decode_table json) [
        | none ↦ later
        | some msg ↦
            if equals (index msg "id") task_id
            then revive task_id msg (lrem dead_key json d)
            else later
      ]

  unfoldable pub retry_dead_task_script : String → Store → Outcome Bool
  retry_dead_task_script task_id d = retry_dead_items task_id (lrange dead_key d) d

  -- The methods of RedisScripts. A number goes through `std::to_string` and `tonumber`.
  unfoldable pub scripts_reserve : ℤ → Store → Outcome (Option Text)
  scripts_reserve reserved_at_ms = reserve_script reserved_at_ms

  unfoldable pub scripts_promote_one : ℤ → Store → Outcome Bool
  scripts_promote_one now_ms = promote_one_script (of_int now_ms) (task_status_to_string pending)

  unfoldable pub scripts_reclaim_one : String → ℤ → ℤ → Store → Outcome Bool
  scripts_reclaim_one task_id now_ms visibility_timeout_ms =
      reclaim_one_script task_id (of_int now_ms) (of_int visibility_timeout_ms)

  unfoldable pub scripts_retry : String → Text → Double → String → Store → Store
  scripts_retry task_id delayed_json run_at_ms reason =
      retry_script task_id delayed_json run_at_ms reason (task_status_to_string retrying)

  unfoldable pub scripts_fail : String → String → Store → Outcome Done
  scripts_fail task_id reason = fail_script task_id reason (task_status_to_string dead)

  unfoldable pub scripts_ack : String → Text → Store → Store
  scripts_ack task_id result_json = ack_script task_id result_json (task_status_to_string succeeded)

  unfoldable pub scripts_retry_dead_task : String → Store → Outcome Bool
  scripts_retry_dead_task = retry_dead_task_script
