-- ===== src/Heartbeat.antt =====
-- include/taskqueue/worker_heartbeat.h, and `UpsertWorkerHeartbeat` and `ListWorkers` of
-- src/redis_broker.cc. A worker's key is a hash of texts with a time to live, which the server
-- counts down. `std::to_string` and `std::stoll` are the record `Numerals`.
pub mod RoundTrip
use crunchytask.Common.{
  ℕ, ℤ, pos, ltb_ℤ, pos_part, String, ◌<>◌, ◌≡◌, Option, none, some, List, [], ◌∷◌, if◌then◌else◌,
  Dict, lookup, insert, IsInt64,
}

pub record WorkerHeartbeat : Type 0 where
  pub worker_id : String
  pub hostname : String
  pub pid : ℤ
  pub started_at_ms : ℤ
  pub last_seen_ms : ℤ
  pub concurrency : ℕ
  pub currently_running : ℕ

-- Numbers as texts. A number is read back from its own text.
pub record Numerals : Type 0 where
  pub to_string : ℤ → String
  -- `std::stoll` and `std::stoull`
  pub stoll : String → ℤ
  pub stoull : String → ℕ
  pub stoll-to_string : (n : ℤ) → IsInt64 n → stoll (to_string n) ≡ n
  pub stoull-to_string : (n : ℕ) → IsInt64 (pos n) → stoull (to_string (pos n)) ≡ n

-- The keys under `taskq:workers:`, by their whole name.
pub record WorkerKeys : Type 0 where
  pub hashes : Dict (Dict String)
  pub expiries : Dict ℤ

unfoldable pub worker_key : String → String
worker_key worker_id = "taskq:workers:" <> worker_id

abbrev pub fields_or_empty : Option (Dict String) → Dict String
fields_or_empty none = []
fields_or_empty (some fields) = fields

-- `redis_->hset(key, field, value)`
unfoldable pub hset : String → String → String → WorkerKeys → WorkerKeys
hset key name value d = record d {
  hashes = insert key (insert name value (fields_or_empty (lookup key d.hashes))) d.hashes;
}

module _ (N : Numerals) where
  open N use {to_string, stoll, stoull}

  -- The fields, in the order of the calls of HSET.
  unfoldable pub hset_fields : String → WorkerHeartbeat → WorkerKeys → WorkerKeys
  unfolding hset
  hset_fields key heartbeat d =
      hset key "currently_running" (to_string (pos heartbeat.currently_running)) (
        hset key "concurrency" (to_string (pos heartbeat.concurrency)) (
          hset key "last_seen" (to_string heartbeat.last_seen_ms) (
            hset key "started_at" (to_string heartbeat.started_at_ms) (
              hset key "pid" (to_string heartbeat.pid) (
                hset key "hostname" heartbeat.hostname
                  (hset key "worker_id" heartbeat.worker_id d))))))

  -- `if (ttl_seconds > 0) redis_->expire(key, ttl_seconds);`
  abbrev pub expire_after : String → ℤ → WorkerKeys → WorkerKeys
  expire_after key ttl_seconds d =
      if ltb_ℤ (pos 0) ttl_seconds
      then record d { expiries = insert key ttl_seconds d.expiries }
      else d

  unfoldable pub upsert_worker_heartbeat : WorkerHeartbeat → ℤ → WorkerKeys → WorkerKeys
  unfolding hset_fields
  upsert_worker_heartbeat heartbeat ttl_seconds d =
      let key = worker_key heartbeat.worker_id in
      expire_after key ttl_seconds (hset_fields key heartbeat d)

  unfoldable pub parse_int64 : String → Dict String → ℤ
  parse_int64 key fields = elim (lookup key fields) [ none ↦ pos 0 | some text ↦ stoll text ]

  unfoldable pub parse_size : String → Dict String → ℕ
  parse_size key fields = elim (lookup key fields) [ none ↦ 0 | some text ↦ stoull text ]

  unfoldable pub text_field : String → Dict String → String
  text_field key fields = elim (lookup key fields) [ none ↦ "" | some text ↦ text ]

  unfoldable pub worker_heartbeat_from_hash : Dict String → WorkerHeartbeat
  unfolding parse_int64 parse_size text_field
  worker_heartbeat_from_hash fields = record {
    worker_id = text_field "worker_id" fields;
    hostname = text_field "hostname" fields;
    pid = parse_int64 "pid" fields;
    started_at_ms = parse_int64 "started_at" fields;
    last_seen_ms = parse_int64 "last_seen" fields;
    concurrency = parse_size "concurrency" fields;
    currently_running = parse_size "currently_running" fields;
  }

  -- The loop over the keys; an empty hash is skipped.
  abbrev pub add_worker : Dict String → List WorkerHeartbeat → List WorkerHeartbeat
  add_worker [] workers = workers
  add_worker (f ∷ fields) workers = worker_heartbeat_from_hash (f ∷ fields) ∷ workers

  unfoldable pub read_workers : Dict (Dict String) → List WorkerHeartbeat
  unfolding worker_heartbeat_from_hash
  read_workers [] = []
  read_workers ((key, fields) ∷ rest) = add_worker fields (read_workers rest)

  unfoldable pub list_workers : WorkerKeys → List WorkerHeartbeat
  unfolding read_workers
  list_workers d = read_workers d.hashes
