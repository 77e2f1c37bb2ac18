-- ===== src/Pool.antt =====
-- src/thread_pool.cc: the pool as a machine whose steps are the stretches of code that hold the
-- lock, in any interleaving of its threads and of the callers.
pub mod Counts
pub mod Order
pub mod Drain
use crunchytask.Common.{
  ℕ, zero, suc, ◌+◌, ◌-◌, nat_eq, ◌≡◌, Bool, true, false, ◌||◌, ◌&&◌, not, List, [], ◌∷◌, ◌++◌,
  length, if◌then◌else◌,
}

-- Where a thread of `WorkerLoop` is: at the wait for a task, in `task()`, or returned.
pub data Thread (A : Type 0) : Type 0 where
  waits : Thread A
  runs : A → Thread A
  exited : Thread A

-- `ThreadPool::State`.
pub record State (A : Type 0) : Type 0 where
  pub threads : List (Thread A)
  pub tasks : List A
  pub active_count : ℕ
  pub stop : Bool

module _ {A : Type 0} where
  -- `tasks.empty()`
  abbrev pub no_tasks : List A → Bool
  no_tasks [] = true
  no_tasks (t ∷ ts) = false

  abbrev pub all_waiting : ℕ → List (Thread A)
  all_waiting zero = []
  all_waiting (suc n) = waits ∷ all_waiting n

  -- The constructor.
  unfoldable pub new_pool : ℕ → State A
  new_pool thread_count = record {
    threads = all_waiting thread_count;
    tasks = [];
    active_count = 0;
    stop = false;
  }

  -- `Submit`
  unfoldable pub submit : A → State A → State A
  submit task s = if s.stop then s else record s { tasks = s.tasks ++ (task ∷ []) }

  -- The predicate of `WaitIdle`.
  unfoldable pub idle : State A → Bool
  idle s = no_tasks s.tasks && nat_eq s.active_count 0

  -- The first part of `Shutdown`; the rest waits for the threads to exit.
  unfoldable pub shut_down : State A → State A
  shut_down s = record s { stop = true }

  unfoldable pub pending_count : State A → ℕ
  pending_count s = length s.tasks

  unfoldable pub in_flight_count : State A → ℕ
  in_flight_count s = length s.tasks + s.active_count

  -- `WorkerLoop`: a thread between `before` and `after` takes the first task, with the threads of
  -- the pool written around it.
  abbrev pub taken : List (Thread A) → A → List A → List (Thread A) → State A → State A
  taken before task rest after s = record s {
    threads = before ++ (runs task ∷ after);
    tasks = rest;
    active_count = suc s.active_count;
  }

  -- The end of a round of `WorkerLoop`, when `task()` has returned.
  abbrev pub done : List (Thread A) → List (Thread A) → State A → State A
  done before after s = record s {
    threads = before ++ (waits ∷ after);
    active_count = s.active_count - 1;
  }

  abbrev pub left : List (Thread A) → List (Thread A) → State A → State A
  left before after s = record s { threads = before ++ (exited ∷ after) }

  pub data Step : State A → State A → Type 0 where
    submits : {s : State A} (task : A) → Step s (submit task s)
    takes :
        {s : State A} (before : List (Thread A)) (task : A) (rest : List A)
        (after : List (Thread A))
        → s.threads ≡ before ++ (waits ∷ after)
        → s.tasks ≡ task ∷ rest
        → Step s (taken before task rest after s)
    finishes :
        {s : State A} (before : List (Thread A)) (task : A) (after : List (Thread A))
        → s.threads ≡ before ++ (runs task ∷ after)
        → Step s (done before after s)
    exits :
        {s : State A} (before after : List (Thread A))
        → s.threads ≡ before ++ (waits ∷ after)
        → s.tasks ≡ []
        → s.stop ≡ true
        → Step s (left before after s)
    shuts_down : {s : State A} → Step s (shut_down s)

  -- What a step adds to the tasks that were accepted, started and finished.
  abbrev pub accepted_by : {s t : State A} → Step s t → List A
  accepted_by {s} (submits task) = if s.stop then [] else task ∷ []
  accepted_by _ = []

  abbrev pub started_by : {s t : State A} → Step s t → List A
  started_by (takes before task rest after e f) = task ∷ []
  started_by _ = []

  abbrev pub finished_by : {s t : State A} → Step s t → ℕ
  finished_by (finishes before task after e) = 1
  finished_by _ = 0

  -- A run of a new pool of `n` threads to a state, with the tasks that `Submit` accepted and the
  -- tasks that a thread took, in the order of the steps, and the number that returned.
  pub data Run (n : ℕ) : List A → List A → ℕ → State A → Type 0 where
    starts : Run n [] [] 0 (new_pool n)
    then_step :
        {accepted started : List A} {finished : ℕ} {s t : State A}
        → Run n accepted started finished s
        → (step : Step s t)
        → Run n
            (accepted ++ accepted_by step)
            (started ++ started_by step)
            (finished + finished_by step)
            t
