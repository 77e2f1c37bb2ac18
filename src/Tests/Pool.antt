-- ===== src/Tests/Pool.antt =====
-- A run of a pool of one thread: a task is submitted, taken and finished, and the pool is shut down.
use crunchytask.Common.{
  ℕ, ◌+◌, ◌≤◌, ◌≡◌, Bool, true, false, List, [], ◌∷◌, ◌++◌, length, All, refl, arith,
}
use crunchytask.Pool.{
  Thread, waits, runs, exited, State, new_pool, submit, shut_down, idle, in_flight_count, submits,
  takes, finishes, exits, shuts_down, Run, starts, then_step,
}
use crunchytask.Pool.Counts.{running_count, active_count-bound}
use crunchytask.Pool.Order.{first_in_first_out, idle_means_done}
use crunchytask.Pool.Drain.{IsExited, Drains, joined_means_done, shutdown_can_finish}

abbrev job : ℕ
job = 7

abbrev jobs : List ℕ
jobs = job ∷ []

abbrev pool_of : List (Thread ℕ) → List ℕ → ℕ → Bool → State ℕ
pool_of threads tasks active stop = record {
  threads = threads;
  tasks = tasks;
  active_count = active;
  stop = stop;
}

taken-Run : Run 1 jobs jobs 0 (pool_of (runs job ∷ []) [] 1 false)
unfolding new_pool submit
taken-Run = then_step (then_step starts (submits job)) (takes [] job [] [] refl refl)

finished-Run : Run 1 jobs jobs 1 (pool_of (waits ∷ []) [] 0 false)
finished-Run = then_step taken-Run (finishes [] job [] refl)

joined-Run : Run 1 jobs jobs 1 (pool_of (exited ∷ []) [] 0 true)
unfolding shut_down
joined-Run = then_step (then_step finished-Run shuts_down) (exits [] [] refl refl refl)

active_count-bound_example : (1 ≡ running_count (runs job ∷ [])) × (1 ≤ 1)
active_count-bound_example = active_count-bound taken-Run

first_in_first_out_example :
    (jobs ≡ jobs ++ (pool_of (runs job ∷ []) [] 1 false).tasks)
    × (in_flight_count (pool_of (runs job ∷ []) [] 1 false) + 0 ≡ 1)
first_in_first_out_example = first_in_first_out taken-Run

is_idle : idle (pool_of (waits ∷ []) [] 0 false) ≡ true
unfolding idle
is_idle = refl

idle_means_done_example : (jobs ≡ jobs) × (1 ≡ length jobs)
idle_means_done_example = idle_means_done finished-Run is_idle

joined_means_done_example : (jobs ≡ jobs) × (1 ≡ length jobs)
joined_means_done_example = joined_means_done joined-Run (omega arith) (tt, tt)

abbrev busy : State ℕ
busy = pool_of (runs job ∷ waits ∷ []) (8 ∷ 9 ∷ []) 1 false

shutdown_can_finish_example : (t : State ℕ) × Drains (shut_down busy) t × All IsExited t.threads
shutdown_can_finish_example = shutdown_can_finish busy
