-- ===== src/Broker/Revival.antt =====
-- What a client sees of a dead task that is sent back to the pending list.
use crunchytask.Common.{
  String, ◌≡◌, Bool, true, false, List, [], ◌∷◌, some, lookup, lookup-insert, eq_refl, refl,
  Bool-cases, Option-cases, inl, inr,
}
use crunchytask.Outside.Floats.{Floats}
use crunchytask.Outside.Json.{JsonLib}
use crunchytask.Outside.Lua.{Lua}
use crunchytask.Outside.Redis.{Redis, dead_key}
use crunchytask.ParseResult.{ok}
use crunchytask.Task.Id.{TaskId}
use crunchytask.Task.Status.{pending, task_status_to_string, from_string-to_string}
use crunchytask.Scripts.{
  Reply, returned, raised, revived_message, decode_table, revive, retry_dead_items,
  retry_dead_task_script, scripts_retry_dead_task,
}
use crunchytask.Broker.{Store, found_dead, retry_dead_task, get_status}

module _ (F : Floats) (J : JsonLib F.Double) (L : Lua F.Double J.Text)
    (R : Redis F.Double J.Text F.leb) where
  open J use {Text}
  open L use {Value, encodable, equals, index}
  open R use {lrem, hset_text_lem, hdel_text_lem, hget_text_lem}

  -- A script that finds the task leaves it with the pending status.
  abbrev Revived : String → Reply Bool × Store F J L R → Type 0
  Revived id (returned true, d) = lookup id d.statuses ≡ some "pending"
  Revived id (returned false, d) = Unit
  Revived id (raised, d) = Unit

  revive-Revived :
      (id : String) (msg : Value) (r : Bool × Store F J L R) → Revived id (revive F L R id msg r)
  unfolding revive
  revive-Revived id msg (false, d) = tt
  revive-Revived id msg (true, d) = elim (Bool-cases (encodable (revived_message F L R msg))) [
    | inl e ↦
        rw (e, revive) (rw hdel_text_lem (rw hset_text_lem (rw (lookup-insert, eq_refl) refl)))
    | inr e ↦ rw (e, revive) tt
  ]

  retry_dead_items-Revived :
      (id : String) (items : List Text) (d : Store F J L R)
      → Revived id (retry_dead_items F L R id items d)
  unfolding retry_dead_items
  retry_dead_items-Revived id [] d = tt
  retry_dead_items-Revived id (json ∷ items) d = elim (Option-cases (decode_table F L R json)) [
    | inl e ↦ rw (e, retry_dead_items) (retry_dead_items-Revived id items d)
    | inr (msg, e) ↦ elim (Bool-cases (equals (index msg "id") id)) [
      | inl q ↦ rw (e, retry_dead_items) (rw q (revive-Revived id msg (lrem dead_key json d)))
      | inr q ↦ rw (e, retry_dead_items) (rw q (retry_dead_items-Revived id items d))
    ]
  ]

  pending_status :
      (id : TaskId) (r : Reply Bool × Store F J L R)
      → Revived id.value r
      → found_dead F J L R id r.0 ≡ returned (ok id)
      → get_status F J L R id r.1 ≡ ok pending
  unfolding found_dead get_status task_status_to_string
  pending_status id (returned true, d) h e =
      rw (get_status, hget_text_lem, h, get_status) (from_string-to_string pending)
  pending_status id (returned false, d) h e = absurd (cc)
  pending_status id (raised, d) h e = absurd (cc)

  -- Where `RetryDeadTask` answers with the identifier, the status of the task is `pending`.
  pub retry_dead_task-outcome :
      (id : TaskId) (d : Store F J L R)
      → (retry_dead_task F J L R id d).0 ≡ returned (ok id)
      → get_status F J L R id (retry_dead_task F J L R id d).1 ≡ ok pending
  unfolding retry_dead_task scripts_retry_dead_task retry_dead_task_script
  retry_dead_task-outcome id d e =
      pending_status id (retry_dead_items F L R id.value (R.lrange dead_key d) d)
        (retry_dead_items-Revived id.value (R.lrange dead_key d) d) e
