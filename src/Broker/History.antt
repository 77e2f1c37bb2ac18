-- ===== src/Broker/History.antt =====
-- No history of calls, by any number of producers and workers, loses a task.
use crunchytask.Common.{ℕ, ℤ, pos, String, ◌≡◌, inl, inr, List, [], ◌∷◌, All, refl, sym}
use mathlib.Core.Path.{subst}
use crunchytask.Outside.Floats.{Floats}
use crunchytask.Outside.Json.{JsonLib}
use crunchytask.Outside.Lua.{Lua}
use crunchytask.Outside.Redis.{Redis}
use crunchytask.Outside.Bridge.{Bridge}
use crunchytask.Task.Status.{retrying, dead, succeeded, task_status_to_string}
use crunchytask.Wire.{Message, message_to_json}
use crunchytask.Scripts.{
  Reply, returned, raised, Done, done, scripts_reserve, scripts_retry, scripts_fail, scripts_ack,
  scripts_retry_dead_task,
}
use crunchytask.Scripts.Copies.{Present}
use crunchytask.Scripts.Names.{NamesTasks}
use crunchytask.Scripts.NoLoss.{Keeps, reserve_script-Keeps}
use crunchytask.Scripts.Moves.{retry_script-Keeps, fail_script-Buries, Buries}
use crunchytask.Scripts.Ends.{ack_script-Keeps, retry_dead_task_script-Keeps}
use crunchytask.Broker.{
  tasks_enqueued_total, tasks_completed_total, tasks_retried_total, tasks_dead_lettered_total,
  Store, with_id, enqueue, reserve, reclaim_stale_tasks, ack, retried, retry, fail_task,
  retry_dead_task, counted_failure,
}
use crunchytask.Broker.Delivery.{
  Call, enqueues, promotes, reserves, reclaims, acks, retries, fails, revives, perform, run,
  Writable, Spares, message-HasId, fewer, Keeps-record_counter, submit-Keeps, reclaim_each-Keeps,
  promotes-Keeps,
}

module _ (F : Floats) (J : JsonLib F.Double) (L : Lua F.Double J.Text)
    (R : Redis F.Double J.Text F.leb) (B : Bridge F J L) where
  open F use {Double, of_int}
  open J use {HasText, can_dump-HasText}

  counted_failure-Keeps :
      (Source : String → Type 0) (o : Reply Done × Store F J L R)
      → Buries F L R Source o
      → Keeps F L R Source (counted_failure F J L R o)
  unfolding counted_failure
  counted_failure-Keeps Source (returned done, d) h =
      Keeps-record_counter F J L R B tasks_dead_lettered_total (pos 1) d h
  counted_failure-Keeps Source (raised, d) h = elim h [ ]

  module _ {Source : String → Type 0} where
    -- A call keeps every task that it does not acknowledge.
    pub perform-Keeps :
        (digits : ℤ → String) (c : Call F J L R B) (d : Store F J L R)
        → Writable F J L R B c
        → Keeps F L R Source d
        → Keeps F L R (λ id. Source id × Spares F J L R B id c) (perform F J L R B digits c d)
    unfolding perform enqueue reserve reclaim_stale_tasks ack retry fail_task retry_dead_task
        scripts_reserve scripts_retry scripts_fail scripts_ack scripts_retry_dead_task
    perform-Keeps digits (enqueues now drawn task) d w h =
        fewer F J L R B (λ id s. inl s.0)
          (Keeps-record_counter F J L R B tasks_enqueued_total (pos 1) _
            (submit-Keeps F J L R B now (with_id F J L R drawn task) d w.0 w.1 h))
    perform-Keeps digits (promotes now) d w h =
        fewer F J L R B (λ id s. s.0) (promotes-Keeps F J L R B now d h)
    perform-Keeps digits (reserves now) d w h =
        fewer F J L R B (λ id s. s.0) (reserve_script-Keeps F L R now d h)
    perform-Keeps digits (reclaims now timeout) d w h =
        fewer F J L R B (λ id s. s.0) (reclaim_each-Keeps F J L R B d.running now timeout 0 d h)
    perform-Keeps digits (acks id) d w h =
        Keeps-record_counter F J L R B tasks_completed_total (pos 1) _
          (ack_script-Keeps F L R id.value _ (task_status_to_string succeeded) d h)
    perform-Keeps digits (retries now task reason) d w h =
        fewer F J L R B (λ id s. s.0)
          (rw (can_dump-HasText (message_to_json F J (retried F J L R now task reason)) w, retry)
            (Keeps-record_counter F J L R B tasks_retried_total (pos 1) _ (
              retry_script-Keeps F L R task.id.value _ _ reason (task_status_to_string retrying) d
                (message-HasId F J L R B (retried F J L R now task reason) w) h)))
    perform-Keeps digits (fails id reason) d w h =
        fewer F J L R B (λ id s. s.0)
          (counted_failure-Keeps Source _
            (fail_script-Buries F L R id.value reason (task_status_to_string dead) d h))
    perform-Keeps digits (revives id) d w h =
        fewer F J L R B (λ id s. s.0) (retry_dead_task_script-Keeps F L R id.value d h)

  run-Keeps :
      (digits : ℤ → String) (cs : List (Call F J L R B)) {Source : String → Type 0}
      (d : Store F J L R)
      → All (Writable F J L R B) cs
      → Keeps F L R Source d
      → Keeps F L R (λ id. Source id × All (Spares F J L R B id) cs) (run F J L R B digits cs d)
  unfolding run
  run-Keeps digits [] d w h = fewer F J L R B (λ id s. s.0) h
  run-Keeps digits (c ∷ cs) d w h =
      fewer F J L R B (λ id s. ((s.0, s.1.0), s.1.1))
        (run-Keeps digits cs _ w.1 (perform-Keeps digits c d w.0 h))

  -- From a store whose texts name their tasks and can be encoded again, no sequence of calls that
  -- never acknowledges a task loses it, where each message that the calls enqueue or retry has a
  -- text: if the task is pending, delayed, leased or dead before, it is so after. The texts go on
  -- naming their tasks.
  pub no_task_lost :
      (digits : ℤ → String) (calls : List (Call F J L R B)) (d : Store F J L R) (id : String)
      → All (Writable F J L R B) calls
      → NamesTasks F L R d
      → Present F L R id d
      → All (Spares F J L R B id) calls
      → Present F L R id (run F J L R B digits calls d)
        × NamesTasks F L R (run F J L R B digits calls d)
  no_task_lost digits calls d id w n p spared =
      let k : Keeps F L R (λ i. i ≡ id) d = record {
        names = n;
        copies = λ i e. subst (λ j. Present F L R j d) (sym e) p;
      } in
      let after = run-Keeps digits calls d w k in (after.copies id (refl, spared), after.names)

  -- A task is enqueued in a store whose texts name their tasks and can be encoded again, and the
  -- messages that this call and the calls after it enqueue or retry have texts. Then the task is in
  -- the store, under the identifier that `Enqueue` returned, after any calls that do not acknowledge
  -- it.
  pub enqueued_until_acked :
      (digits : ℤ → String) (now : ℤ) (drawn : ℕ → ℕ) (task : Message F J)
      (calls : List (Call F J L R B)) (d : Store F J L R)
      → All (Writable F J L R B) (enqueues now drawn task ∷ calls)
      → NamesTasks F L R d
      → All (Spares F J L R B (enqueue F J L R now drawn task d).0.value) calls
      → Present F L R
          (enqueue F J L R now drawn task d).0.value
          (run F J L R B digits calls (enqueue F J L R now drawn task d).1)
  unfolding enqueue
  enqueued_until_acked digits now drawn task calls d w n spared =
      let m = with_id F J L R drawn task in
      let k : Keeps F L R (λ i. ⊥) d = record { names = n; copies = λ i e. elim e [ ] } in
      let added =
        Keeps-record_counter F J L R B tasks_enqueued_total (pos 1) _
          (submit-Keeps F J L R B now m d w.0.0 w.0.1 k) in
      (run-Keeps digits calls _ w.1 added).copies m.id.value (inr refl, spared)
