-- ===== src/Heartbeat/RoundTrip.antt =====
-- What a worker publishes is what `ListWorkers` reads of its key.
use crunchytask.Common.{
  Bool-cases, inl, inr, ltb_ℤ, ℕ, ℤ, pos, String, ◌==◌, ◌≡◌, Option, some, if◌then◌else◌, Dict,
  lookup, lookup-insert, eq_refl, refl, IsInt64,
}
use crunchytask.Heartbeat.{
  WorkerHeartbeat, Numerals, WorkerKeys, worker_key, fields_or_empty, hset, hset_fields,
  parse_int64, parse_size, text_field, worker_heartbeat_from_hash, upsert_worker_heartbeat,
}

-- Its numbers fit their widths.
pub record HeartbeatFits (h : WorkerHeartbeat) : Type 0 where
  pub pid_fits : IsInt64 h.pid
  pub started_fits : IsInt64 h.started_at_ms
  pub seen_fits : IsInt64 h.last_seen_ms
  pub concurrency_fits : IsInt64 (pos h.concurrency)
  pub running_fits : IsInt64 (pos h.currently_running)

-- The field of a key after HSET.
field-hset :
    (key name value asked : String) (d : WorkerKeys)
    → lookup asked (fields_or_empty (lookup key (hset key name value d).hashes))
      ≡ (if name == asked then some value else lookup asked (fields_or_empty (lookup key d.hashes)))
unfolding hset
field-hset key name value asked d =
    rw (lookup-insert, eq_refl)
      (lookup-insert name asked value (fields_or_empty (lookup key d.hashes)))

module _ (N : Numerals) where
  abbrev written : WorkerHeartbeat → WorkerKeys → Dict String
  written h d =
      fields_or_empty
        (lookup (worker_key h.worker_id) (hset_fields N (worker_key h.worker_id) h d).hashes)

  text_is :
      (key value : String) (fields : Dict String)
      → lookup key fields ≡ some value
      → text_field N key fields ≡ value
  unfolding text_field
  text_is key value fields e = rw (e, text_field) refl

  int64_is :
      (key : String) (n : ℤ) (fields : Dict String)
      → IsInt64 n
      → lookup key fields ≡ some (N.to_string n)
      → parse_int64 N key fields ≡ n
  unfolding parse_int64
  int64_is key n fields fits e = rw (e, parse_int64) (N.stoll-to_string n fits)

  size_is :
      (key : String) (n : ℕ) (fields : Dict String)
      → IsInt64 (pos n)
      → lookup key fields ≡ some (N.to_string (pos n))
      → parse_size N key fields ≡ n
  unfolding parse_size
  size_is key n fields fits e = rw (e, parse_size) (N.stoull-to_string n fits)

  module _ (h : WorkerHeartbeat) (d : WorkerKeys) where
    abbrev key : String
    key = worker_key h.worker_id

    -- The text that each field ends with.
    abbrev expected : String → Option String
    expected asked =
        if "currently_running" == asked
        then some (N.to_string (pos h.currently_running))
        else if "concurrency" == asked
        then some (N.to_string (pos h.concurrency))
        else if "last_seen" == asked
        then some (N.to_string h.last_seen_ms)
        else if "started_at" == asked
        then some (N.to_string h.started_at_ms)
        else if "pid" == asked
        then some (N.to_string h.pid)
        else if "hostname" == asked
        then some h.hostname
        else if "worker_id" == asked
        then some h.worker_id
        else lookup asked (fields_or_empty (lookup key d.hashes))

    written_lem : (asked : String) → lookup asked (written h d) ≡ expected asked
    unfolding hset_fields
    written_lem asked =
        rw
          (
            field-hset key,
            field-hset key,
            field-hset key,
            field-hset key,
            field-hset key,
            field-hset key,
            field-hset key,
          )
          refl

    from_hash-hset_fields : HeartbeatFits h → worker_heartbeat_from_hash N (written h d) ≡ h
    unfolding worker_heartbeat_from_hash
    from_hash-hset_fields fits =
        rw
          (
            text_is "worker_id" h.worker_id (written h d) (written_lem "worker_id"),
            text_is "hostname" h.hostname (written h d) (written_lem "hostname"),
            int64_is "pid" h.pid (written h d) fits.pid_fits (written_lem "pid"),
            int64_is "started_at" h.started_at_ms (written h d) fits.started_fits
                (written_lem "started_at"),
            int64_is "last_seen" h.last_seen_ms (written h d) fits.seen_fits
                (written_lem "last_seen"),
            size_is "concurrency" h.concurrency (written h d) fits.concurrency_fits
                (written_lem "concurrency"),
            size_is "currently_running" h.currently_running (written h d) fits.running_fits
                (written_lem "currently_running"),
          )
          refl

  -- A heartbeat whose numbers fit 64 bits is read back from the hash of its worker's key as it was
  -- published, whatever the key held before, and whatever the time to live.
  pub from_hash-upsert_worker_heartbeat :
      (h : WorkerHeartbeat) (ttl_seconds : ℤ) (d : WorkerKeys)
      → HeartbeatFits h
      → worker_heartbeat_from_hash N (
          fields_or_empty
            (lookup (worker_key h.worker_id) (upsert_worker_heartbeat N h ttl_seconds d).hashes))
        ≡ h
  unfolding upsert_worker_heartbeat
  from_hash-upsert_worker_heartbeat h ttl_seconds d fits =
      elim (Bool-cases (ltb_ℤ (pos 0) ttl_seconds)) [
        | inl e ↦ rw e (from_hash-hset_fields h d fits)
        | inr e ↦ rw e (from_hash-hset_fields h d fits)
      ]
