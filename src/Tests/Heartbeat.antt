-- ===== src/Tests/Heartbeat.antt =====
-- A heartbeat that is published and read, with numbers written in unary.
use crunchytask.Common.{
  ℕ, zero, suc, ℤ, pos, negsuc, String, ◌≡◌, [], lookup, refl, ap, arith, nat_eq, if◌then◌else◌,
}
use crunchytask.Heartbeat.{
  WorkerHeartbeat, Numerals, WorkerKeys, worker_key, fields_or_empty, worker_heartbeat_from_hash,
  upsert_worker_heartbeat,
}
use crunchytask.Heartbeat.RoundTrip.{HeartbeatFits, from_hash-upsert_worker_heartbeat}
use crunchytask.Task.Id.{codes}
use crunchytask.Common.{List, ◌∷◌}

abbrev unary : ℕ → String
unary zero = ""
unary (suc n) = String.◌∷◌ "1" (unary n)

abbrev count : List ℕ → ℕ
count [] = 0
count (c ∷ cs) = suc (count cs)

abbrev signed : ℤ → String
signed (pos n) = String.◌∷◌ "+" (unary n)
signed (negsuc n) = String.◌∷◌ "-" (unary n)

abbrev size_of : List ℕ → ℕ
size_of [] = 0
size_of (c ∷ cs) = count cs

abbrev number_of : List ℕ → ℤ
number_of [] = pos 0
number_of (c ∷ cs) = if nat_eq c b'-' then negsuc (count cs) else pos (count cs)

pub count-unary : (n : ℕ) → count (codes (unary n)) ≡ n
count-unary zero = refl
count-unary (suc n) = ap suc (count-unary n)

pub number_of-signed : (n : ℤ) → number_of (codes (signed n)) ≡ n
number_of-signed (pos n) = ap pos (count-unary n)
number_of-signed (negsuc n) = ap negsuc (count-unary n)

abbrev pub numerals : Numerals
numerals = record {
  to_string = signed;
  stoll = λ s. number_of (codes s);
  stoull = λ s. size_of (codes s);
  stoll-to_string = λ n h. number_of-signed n;
  stoull-to_string = λ n h. count-unary n;
}

abbrev worker : WorkerHeartbeat
worker = record {
  worker_id = "w1";
  hostname = "host";
  pid = pos 7;
  started_at_ms = pos 3;
  last_seen_ms = pos 5;
  concurrency = 4;
  currently_running = 2;
}

worker-HeartbeatFits : HeartbeatFits worker
worker-HeartbeatFits = record {
  pid_fits = omega arith;
  started_fits = omega arith;
  seen_fits = omega arith;
  concurrency_fits = omega arith;
  running_fits = omega arith;
}

abbrev pub no_workers : WorkerKeys
no_workers = record { hashes = []; expiries = [] }

from_hash-upsert_worker_heartbeat_example :
    worker_heartbeat_from_hash numerals (
      fields_or_empty (
        lookup
          (worker_key "w1")
          (upsert_worker_heartbeat numerals worker (pos 15) no_workers).hashes))
    ≡ worker
from_hash-upsert_worker_heartbeat_example =
    from_hash-upsert_worker_heartbeat numerals worker (pos 15) no_workers worker-HeartbeatFits
