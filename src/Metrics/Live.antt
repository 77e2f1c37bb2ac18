-- ===== src/Metrics/Live.antt =====
-- src/metrics_snapshot.cc: the gauges that are read from the broker and its workers.
use crunchytask.Common.{ℕ, ◌+◌, pos, String, List, [], ◌∷◌}
use crunchytask.Broker.{BrokerStats}
use crunchytask.Heartbeat.{WorkerHeartbeat}
use crunchytask.Metrics.{MetricsSnapshot, set_gauge}

abbrev pub queue_depth : String
queue_depth = "queue_depth"

abbrev pub delayed_depth : String
delayed_depth = "delayed_depth"

abbrev pub running_tasks : String
running_tasks = "running_tasks"

abbrev pub worker_threads_active : String
worker_threads_active = "worker_threads_active"

-- The loop over the workers, from `active_threads` so far.
unfoldable pub active_threads : ℕ → List WorkerHeartbeat → ℕ
active_threads sum [] = sum
active_threads sum (worker ∷ workers) = active_threads (sum + worker.currently_running) workers

unfoldable pub apply_broker_gauges :
    MetricsSnapshot → BrokerStats → List WorkerHeartbeat → MetricsSnapshot
unfolding set_gauge active_threads
apply_broker_gauges snapshot stats workers =
    set_gauge worker_threads_active (pos (active_threads 0 workers)) (
      set_gauge running_tasks (pos stats.running_count) (
        set_gauge delayed_depth (pos stats.delayed_count)
          (set_gauge queue_depth (pos stats.pending_count) snapshot)))
