-- ===== src/Broker/Delivery.antt =====
-- The methods of the broker lose no task, in any sequence of calls by any number of workers.
use crunchytask.Common.{
  ℕ, suc, ℤ, String, ◌≡◌, ◌≢◌, ◌⊎◌, inl, inr, Bool, true, false, List, [], ◌∷◌, none, Dict,
  Bool-cases,
}
use mathlib.Core.Path.{subst}
use crunchytask.Outside.Floats.{Floats}
use crunchytask.Outside.Json.{JsonLib}
use crunchytask.Outside.Lua.{Lua}
use crunchytask.Outside.Redis.{Redis, pending_key, status_key}
use crunchytask.Outside.Bridge.{Bridge}
use crunchytask.Task.Id.{TaskId}
use crunchytask.Task.Status.{pending, task_status_to_string}
use crunchytask.Wire.{Message, message_to_json}
use crunchytask.Wire.Message.{message_to_json-is_object, id_member}
use crunchytask.Scripts.{Reply, returned, raised, scripts_reclaim_one}
use crunchytask.Scripts.Copies.{
  HasId, Present, in_pending, in_delayed, in_dead, in_running, Present-lpush, lpush-Present,
  Present-zadd, zadd-Present,
}
use crunchytask.Scripts.Names.{NamesTasks-lpush_pending, NamesTasks-zadd}
use crunchytask.Scripts.NoLoss.{Keeps, Keeps-hset_text}
use crunchytask.Scripts.Moves.{reclaim_one_script-Keeps}
use crunchytask.Broker.{
  Store, LoopEnd, finished, thrown, unfinished, record_counter, with_id, is_delayed, submit,
  enqueue, promote_due_tasks, reserve, after_reclaim, reclaim_each, reclaim_stale_tasks, ack,
  retried, retry, fail_task, retry_dead_task,
}
use crunchytask.Broker.Promotion.{promote_due_tasks-ends}

module _ (F : Floats) (J : JsonLib F.Double) (L : Lua F.Double J.Text)
    (R : Redis F.Double J.Text F.leb) (B : Bridge F J L) where
  open F use {Double, of_int}
  open J use {Text, dump, HasText}
  open B use {decode-dump}

  -- The text of a message names the message's task.
  pub message-HasId :
      (m : Message F J)
      → HasText (message_to_json F J m)
      → HasId F L R m.id.value (dump (message_to_json F J m))
  message-HasId m h =
      let (v, e, t, s, texts) =
        decode-dump (message_to_json F J m) h (message_to_json-is_object F J m) in
      record {
        table = v;
        decoded = e;
        is_a_table = t;
        is_encodable = s;
        named = texts "id" m.id.value (id_member F J m);
      }

  -- A call of one of the broker's methods that change tasks.
  pub data Call : Type 0 where
    enqueues : ℤ → (ℕ → ℕ) → Message F J → Call
    promotes : ℤ → Call
    reserves : ℤ → Call
    reclaims : ℤ → ℤ → Call
    acks : TaskId → Call
    retries : ℤ → Message F J → String → Call
    fails : TaskId → String → Call
    revives : TaskId → Call

  abbrev pub loop_store : Store F J L R → LoopEnd F J L R → Store F J L R
  loop_store d (finished after) = after
  loop_store d (thrown after) = after
  loop_store d unfinished = d

  -- The store after a call.
  unfoldable pub perform : (ℤ → String) → Call → Store F J L R → Store F J L R
  perform digits (enqueues now drawn task) d = (enqueue F J L R now drawn task d).1
  perform digits (promotes now) d = loop_store d (promote_due_tasks F J L R now d)
  perform digits (reserves now) d = (reserve F J L R digits now d).1
  perform digits (reclaims now timeout) d = (reclaim_stale_tasks F J L R now timeout d).1
  perform digits (acks id) d = ack F J L R id d
  perform digits (retries now task reason) d = retry F J L R now task reason d
  perform digits (fails id reason) d = fail_task F J L R id reason d
  perform digits (revives id) d = (retry_dead_task F J L R id d).1

  unfoldable pub run : (ℤ → String) → List Call → Store F J L R → Store F J L R
  run digits [] d = d
  run digits (c ∷ cs) d = run digits cs (perform digits c d)

  -- The messages that the call writes have a text.
  abbrev pub Writable : Call → Type 0
  Writable (enqueues now drawn task) =
      HasText (message_to_json F J (with_id F J L R drawn task))
      × HasText (message_to_json F J (record (with_id F J L R drawn task) { run_at_ms = none }))
  Writable (retries now task reason) =
      HasText (message_to_json F J (retried F J L R now task reason))
  Writable _ = Unit

  -- The call does not acknowledge the task.
  abbrev pub Spares : String → Call → Type 0
  Spares id (acks done) = done.value ≢ id
  Spares id _ = Unit

  record_counter-Present :
      (name : String) (n : ℤ) (id : String) (d : Store F J L R)
      → Present F L R id d
      → Present F L R id (record_counter F J L R name n d)
  unfolding record_counter
  record_counter-Present name n id d (in_pending p) = in_pending p
  record_counter-Present name n id d (in_delayed p) = in_delayed p
  record_counter-Present name n id d (in_dead p) = in_dead p
  record_counter-Present name n id d (in_running t e p) = in_running t e p

  -- What is kept with more tasks is kept with fewer.
  pub fewer :
      {More Fewer : String → Type 0} {d : Store F J L R}
      → ((id : String) → Fewer id → More id)
      → Keeps F L R More d
      → Keeps F L R Fewer d
  fewer f h = record { names = h.names; copies = λ id s. h.copies id (f id s) }

  module _ {Source : String → Type 0} where
    pub Keeps-record_counter :
        (name : String) (n : ℤ) (d : Store F J L R)
        → Keeps F L R Source d
        → Keeps F L R Source (record_counter F J L R name n d)
    unfolding record_counter
    Keeps-record_counter name n d h = record {
      names = record {
        pending_named = h.names.pending_named;
        delayed_named = h.names.delayed_named;
        dead_encodable = h.names.dead_encodable;
        leases_named = h.names.leases_named;
      };
      copies = λ id s. record_counter-Present name n id d (h.copies id s);
    }

  module _ {Source : String → Type 0} where
    -- A submitted task is there, and so is every other.
    pub submit-Keeps :
        (now : ℤ) (m : Message F J) (d : Store F J L R)
        → HasText (message_to_json F J m)
        → HasText (message_to_json F J (record m { run_at_ms = none }))
        → Keeps F L R Source d
        → Keeps F L R (λ id. Source id ⊎ (m.id.value ≡ id)) (submit F J L R now m d)
    unfolding submit
    submit-Keeps now m d t u h = elim (Bool-cases (is_delayed F J L R now m.run_at_ms)) [
      | inl e ↦ rw e (
          Keeps-hset_text F L R status_key m.id.value (task_status_to_string pending) _
            (added (message-HasId m t)))
      | inr e ↦ rw e (
          Keeps-hset_text F L R status_key m.id.value (task_status_to_string pending) _
            (pushed (message-HasId (record m { run_at_ms = none }) u)))
    ]
      where
        added :
            {t : Text} {s : Double}
            → HasId F L R m.id.value t
            → Keeps F L R (λ id. Source id ⊎ (m.id.value ≡ id)) (R.zadd s t d)
        added {t} {s} n = record {
          names = NamesTasks-zadd F L R s t d (m.id.value, n) h.names;
          copies = λ id. elim [
            | inl p ↦ Present-zadd F L R s t d (h.copies id p)
            | inr e ↦ zadd-Present F L R s t d (subst (λ i. HasId F L R i t) e n)
          ];
        }

        pushed :
            {t : Text}
            → HasId F L R m.id.value t
            → Keeps F L R (λ id. Source id ⊎ (m.id.value ≡ id)) (R.lpush pending_key t d)
        pushed {t} n = record {
          names = NamesTasks-lpush_pending F L R t d (m.id.value, n) h.names;
          copies = λ id. elim [
            | inl p ↦ Present-lpush F L R pending_key t d (h.copies id p)
            | inr e ↦ lpush-Present F L R pending_key t d (subst (λ i. HasId F L R i t) e n)
          ];
        }

    -- One step of the loop over the leases.
    after_reclaim-Keeps :
        (rest : ℕ → Store F J L R → Reply ℕ × Store F J L R) (n : ℕ) (r : Reply Bool)
        (d : Store F J L R)
        → ((k : ℕ) (e : Store F J L R) → Keeps F L R Source e → Keeps F L R Source (rest k e).1)
        → Keeps F L R Source d
        → Keeps F L R Source (after_reclaim F J L R rest n (r, d)).1
    unfolding after_reclaim
    after_reclaim-Keeps rest n raised d f h = h
    after_reclaim-Keeps rest n (returned true) d f h = f (suc n) d h
    after_reclaim-Keeps rest n (returned false) d f h = f n d h

    scripts_reclaim_one-Keeps :
        (id : String) (now timeout : ℤ) (d : Store F J L R)
        → Keeps F L R Source d
        → Keeps F L R Source (scripts_reclaim_one F L R id now timeout d).1
    unfolding scripts_reclaim_one
    scripts_reclaim_one-Keeps id now timeout d h =
        reclaim_one_script-Keeps F L R id (of_int now) (of_int timeout) d h

    pub reclaim_each-Keeps :
        (entries : Dict Text) (now timeout : ℤ) (n : ℕ) (d : Store F J L R)
        → Keeps F L R Source d
        → Keeps F L R Source (reclaim_each F J L R entries now timeout n d).1
    unfolding reclaim_each
    reclaim_each-Keeps [] now timeout n d h = h
    reclaim_each-Keeps ((id, _) ∷ entries) now timeout n d h =
        after_reclaim-Keeps (reclaim_each F J L R entries now timeout) n _ _
          (λ k e. reclaim_each-Keeps entries now timeout k e)
          (scripts_reclaim_one-Keeps id now timeout d h)

    pub promotes-Keeps :
        (now : ℤ) (d : Store F J L R)
        → Keeps F L R Source d
        → Keeps F L R Source (loop_store d (promote_due_tasks F J L R now d))
    promotes-Keeps now d h = let (after, e, _, k) = promote_due_tasks-ends F J L R now d h in rw e k
