-- ===== src/Scheduler/Once.antt =====
-- `RunOnce` drops a task only where its handler succeeded.
use crunchytask.Common.{
  ℕ, ℤ, pos, String, ◌==◌, ◌≡◌, ◌≢◌, ◌⊎◌, inl, inr, Option, none, some, [], Bool-cases, eq_iff,
  refl, sym,
}
use mathlib.Core.Path.{subst}
use crunchytask.Outside.Floats.{Floats}
use crunchytask.Outside.Json.{JsonLib}
use crunchytask.Outside.Lua.{Lua}
use crunchytask.Outside.Redis.{Redis}
use crunchytask.Outside.Bridge.{Bridge}
use crunchytask.ParseResult.{ok}
use crunchytask.Task.Id.{TaskId}
use crunchytask.Task.Result.{TaskResult}
use crunchytask.Task.Status.{succeeded}
use crunchytask.Task.Message.{should_retry}
use crunchytask.Wire.{Message, message_to_json}
use crunchytask.Scripts.{Reply, returned, raised}
use crunchytask.Scripts.Copies.{Present, in_pending, in_delayed, in_dead, in_running}
use crunchytask.Scripts.Names.{NamesTasks}
use crunchytask.Scripts.NoLoss.{Keeps}
use crunchytask.Broker.{
  Store, LoopEnd, finished, thrown, unfinished, reclaim_stale_tasks, reserve, retried, get_status,
  ack, retry, fail_task,
}
use crunchytask.Broker.Recording.{record_duration_ms}
use crunchytask.Broker.Promotion.{promote_due_tasks-ends}
use crunchytask.Broker.Delivery.{
  reserves, reclaims, acks, retries, fails, perform, fewer, Keeps-record_counter,
}
use crunchytask.Broker.History.{perform-Keeps}
use crunchytask.Broker.Outcomes.{get_status-ack}
use crunchytask.Worker.{process_task, settle, tasks_failed_total, task_execution_duration_ms}
use crunchytask.Worker.Registry.{TaskRegistry, execute, has_task}
use crunchytask.Worker.Service.{redis_broker}
use crunchytask.Scheduler.{
  Times, run_scheduler_tick, reclaimed_end, after_reserve, after_tick, run_once,
}

module _ (F : Floats) (J : JsonLib F.Double) (L : Lua F.Double J.Text)
    (R : Redis F.Double J.Text F.leb) (B : Bridge F J L) where
  open J use {Json, object, HasText}

  module _ {Source : String → Type 0} where
    record_duration_ms-Keeps :
        (name : String) (duration_ms : ℤ) (d : Store F J L R)
        → Keeps F L R Source d
        → Keeps F L R Source (record_duration_ms name duration_ms d)
    unfolding record_duration_ms
    record_duration_ms-Keeps name duration_ms d h = record {
      names = record {
        pending_named = h.names.pending_named;
        delayed_named = h.names.delayed_named;
        dead_encodable = h.names.dead_encodable;
        leases_named = h.names.leases_named;
      };
      copies = λ id s. elim (h.copies id s) [
        | in_pending p ↦ in_pending p
        | in_delayed p ↦ in_delayed p
        | in_dead p ↦ in_dead p
        | in_running t e p ↦ in_running t e p
      ];
    }

  -- What each of the calls keeps.
  module _ {Source : String → Type 0} where
    ack-Keeps :
        (digits : ℤ → String) (id : TaskId) (d : Store F J L R)
        → Keeps F L R Source d
        → Keeps F L R (λ i. Source i × (id.value ≢ i)) (ack F J L R id d)
    unfolding perform
    ack-Keeps digits id d h = perform-Keeps F J L R B digits (acks id) d tt h

    retry-Keeps :
        (digits : ℤ → String) (now : ℤ) (task : Message F J) (reason : String) (d : Store F J L R)
        → HasText (message_to_json F J (retried F J L R now task reason))
        → Keeps F L R Source d
        → Keeps F L R Source (retry F J L R now task reason d)
    unfolding perform
    retry-Keeps digits now task reason d t h =
        fewer F J L R B (λ id s. (s, tt))
          (perform-Keeps F J L R B digits (retries now task reason) d t h)

    fail-Keeps :
        (digits : ℤ → String) (id : TaskId) (reason : String) (d : Store F J L R)
        → Keeps F L R Source d
        → Keeps F L R Source (fail_task F J L R id reason d)
    unfolding perform
    fail-Keeps digits id reason d h =
        fewer F J L R B (λ i s. (s, tt)) (perform-Keeps F J L R B digits (fails id reason) d tt h)

    reserve-Keeps :
        (digits : ℤ → String) (now : ℤ) (d : Store F J L R)
        → Keeps F L R Source d
        → Keeps F L R Source (reserve F J L R digits now d).1
    unfolding perform
    reserve-Keeps digits now d h =
        fewer F J L R B (λ i s. (s, tt)) (perform-Keeps F J L R B digits (reserves now) d tt h)

    reclaim-Keeps :
        (digits : ℤ → String) (now timeout : ℤ) (d : Store F J L R)
        → Keeps F L R Source d
        → Keeps F L R Source (reclaim_stale_tasks F J L R now timeout d).1
    unfolding perform
    reclaim-Keeps digits now timeout d h =
        fewer F J L R B (λ i s. (s, tt))
          (perform-Keeps F J L R B digits (reclaims now timeout) d tt h)

  -- Each task that was there is there, or is done.
  abbrev KeptOrDone : (String → Type 0) → Store F J L R → Type 0
  KeptOrDone Source d =
      NamesTasks F L R d
      × ((id : String)
          → Source id
          → Present F L R id d ⊎ (get_status F J L R (record { value = id }) d ≡ ok succeeded))

  module _ {Source : String → Type 0} where
    kept : {d : Store F J L R} → Keeps F L R Source d → KeptOrDone Source d
    kept h = (h.names, λ id s. inl (h.copies id s))

    -- An acknowledged task is done, and every other is kept.
    acked :
        (digits : ℤ → String) (task : Message F J) (d : Store F J L R)
        → Keeps F L R Source d
        → KeptOrDone Source (ack F J L R task.id d)
    acked digits task d h =
        let k = ack-Keeps digits task.id d h in
        (
          k.names,
          λ id s. elim (Bool-cases (task.id.value == id)) [
            | inl e ↦ inr (
                subst
                  (λ i.
                    get_status F J L R (record { value = i }) (ack F J L R task.id d)
                    ≡ ok succeeded)
                  ((eq_iff task.id.value id).0 e) (get_status-ack F J L R task.id d))
            | inr e ↦ inl (k.copies id (s, λ q. absurd (cc (e, (eq_iff task.id.value id).1 q))))
          ],
        )

    settle-KeptOrDone :
        (digits : ℤ → String) (now : ℤ) (task : Message F J) (result : TaskResult Json)
        (d : Store F J L R)
        → HasText (message_to_json F J (retried F J L R now task result.error_message))
        → Keeps F L R Source d
        → KeptOrDone Source (settle F J (redis_broker F J L R) now task result d)
    unfolding settle
    settle-KeptOrDone digits now task result d t h = elim (Bool-cases result.success) [
      | inl e ↦ rw e (acked digits task d h)
      | inr e ↦
          let counted = Keeps-record_counter F J L R B tasks_failed_total (pos 1) d h in
          elim (Bool-cases (should_retry task)) [
            | inl again ↦
                rw (e, again) (kept (retry-Keeps digits now task result.error_message _ t counted))
            | inr last ↦
                rw (e, last) (kept (fail-Keeps digits task.id result.error_message _ counted))
          ]
    ]

    process_task-KeptOrDone :
        (digits : ℤ → String) (registry : TaskRegistry Json) (now duration_ms : ℤ)
        (task : Message F J) (d : Store F J L R)
        → HasText (
            message_to_json F J (
              retried F J L R now task
                (execute (object []) task.name task.payload registry).error_message))
        → Keeps F L R Source d
        → KeptOrDone Source
            (process_task F J (redis_broker F J L R) registry now duration_ms task d)
    unfolding process_task
    process_task-KeptOrDone digits registry now duration_ms task d t h =
        elim (Bool-cases (has_task task.name registry)) [
          | inl e ↦ rw e (
              settle-KeptOrDone digits now task
                (execute (object []) task.name task.payload registry) _ t
                (record_duration_ms-Keeps task_execution_duration_ms duration_ms d h))
          | inr e ↦ rw e (kept (fail-Keeps digits task.id _ d h))
        ]

  -- Whatever `Reserve` hands out can be written back where its handler fails.
  abbrev pub Rewritable : TaskRegistry Json → ℤ → Reply (Option (Message F J)) → Type 0
  Rewritable registry now (returned (some task)) = HasText (
      message_to_json F J (
        retried F J L R now task
          (execute (object []) task.name task.payload registry).error_message))
  Rewritable registry now _ = Unit

  -- The store when the tick is over.
  abbrev pub ticked_store : Store F J L R → LoopEnd F J L R → Store F J L R
  ticked_store before (finished d) = d
  ticked_store before (thrown d) = d
  ticked_store before unfinished = before

  module _ {Source : String → Type 0} where
    after_reserve-KeptOrDone :
        (digits : ℤ → String) (registry : TaskRegistry Json) (times : Times F J L R)
        (r : Reply (Option (Message F J))) (d : Store F J L R)
        → Rewritable registry times.settled r
        → Keeps F L R Source d
        → KeptOrDone Source (after_reserve F J L R registry times (r, d)).1
    unfolding after_reserve
    after_reserve-KeptOrDone digits registry times raised d t h = kept h
    after_reserve-KeptOrDone digits registry times (returned none) d t h = kept h
    after_reserve-KeptOrDone digits registry times (returned (some task)) d t h =
        process_task-KeptOrDone digits registry times.settled times.duration_ms task d t h

    reclaimed_end-Keeps :
        (before : Store F J L R) (o : Reply ℕ × Store F J L R)
        → Keeps F L R Source o.1
        → Keeps F L R Source (ticked_store before (reclaimed_end F J L R o))
    reclaimed_end-Keeps before (raised, d) h = h
    reclaimed_end-Keeps before (returned n, d) h = h

    run_scheduler_tick-Keeps :
        (digits : ℤ → String) (now timeout : ℤ) (d : Store F J L R)
        → Keeps F L R Source d
        → Keeps F L R Source (ticked_store d (run_scheduler_tick F J L R now timeout d))
    unfolding run_scheduler_tick
    run_scheduler_tick-Keeps digits now timeout d h =
        let (after, e, _, k) = promote_due_tasks-ends F J L R now d h in
        rw e (reclaimed_end-Keeps d _ (reclaim-Keeps digits now timeout after k))

    after_tick-KeptOrDone :
        (digits : ℤ → String) (registry : TaskRegistry Json) (times : Times F J L R)
        (before : Store F J L R) (end : LoopEnd F J L R)
        → Rewritable registry times.settled
            (reserve F J L R digits times.reserved (ticked_store before end)).0
        → Keeps F L R Source (ticked_store before end)
        → KeptOrDone Source (after_tick F J L R registry digits times before end).1
    unfolding after_tick
    after_tick-KeptOrDone digits registry times before (finished d) t h =
        after_reserve-KeptOrDone digits registry times _ _ t
          (reserve-Keeps digits times.reserved d h)
    after_tick-KeptOrDone digits registry times before (thrown d) t h = kept h
    after_tick-KeptOrDone digits registry times before unfinished t h = kept h

  -- From a store whose texts name their tasks and can be encoded again, a task that is there before
  -- `RunOnce` is there after it, or its status is `succeeded`, and the texts are as before in this.
  -- The message that `Reserve` hands out must have a text again after a failure.
  pub run_once-drops_nothing :
      (digits : ℤ → String) (registry : TaskRegistry Json) (times : Times F J L R) (timeout : ℤ)
      (d : Store F J L R) (id : String)
      → Rewritable registry times.settled
          (reserve F J L R digits times.reserved
            (ticked_store d (run_scheduler_tick F J L R times.ticked timeout d))).0
      → NamesTasks F L R d
      → Present F L R id d
      → let after = (run_once F J L R registry digits times timeout d).1 in
        NamesTasks F L R after
        × (Present F L R id after
            ⊎ (get_status F J L R (record { value = id }) after ≡ ok succeeded))
  unfolding run_once
  run_once-drops_nothing digits registry times timeout d id t n p =
      let k : Keeps F L R (λ i. i ≡ id) d = record {
        names = n;
        copies = λ i e. subst (λ j. Present F L R j d) (sym e) p;
      } in
      let (names, all) =
        after_tick-KeptOrDone digits registry times d
          (run_scheduler_tick F J L R times.ticked timeout d) t
          (run_scheduler_tick-Keeps digits times.ticked timeout d k) in
      (names, all id refl)
