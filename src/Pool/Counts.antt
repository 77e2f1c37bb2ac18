-- ===== src/Pool/Counts.antt =====
-- The pool's counter and the number of its threads.
use crunchytask.Common.{
  ℕ, zero, suc, ◌+◌, ◌≤◌, ◌≡◌, Bool, true, false, List, [], ◌∷◌, ◌++◌, length, if◌then◌else◌, arith,
  refl, ap, ◌∙◌, sym, length-append,
}
use crunchytask.Pool.{
  Thread, waits, runs, exited, State, all_waiting, new_pool, submit, shut_down, Step, submits,
  takes, finishes, exits, shuts_down, Run, starts, then_step,
}

module _ {A : Type 0} where
  abbrev is_running : Thread A → ℕ
  is_running waits = 0
  is_running (runs task) = 1
  is_running exited = 0

  -- The threads that are in `task()`.
  unfoldable pub running_count : List (Thread A) → ℕ
  running_count [] = 0
  running_count (t ∷ ts) = is_running t + running_count ts

  pub running_count-around :
      (before after : List (Thread A)) (t : Thread A)
      → running_count (before ++ (t ∷ after))
        ≡ running_count before + is_running t + running_count after
  unfolding running_count
  running_count-around [] after t = omega arith
  running_count-around (x ∷ before) after t = omega (arith, running_count-around before after t)

  running_count-le : (ts : List (Thread A)) → running_count ts ≤ length ts
  unfolding running_count
  running_count-le [] = omega arith
  running_count-le (waits ∷ ts) = omega (arith, running_count-le ts)
  running_count-le (runs task ∷ ts) = omega (arith, running_count-le ts)
  running_count-le (exited ∷ ts) = omega (arith, running_count-le ts)

module _ (A : Type 0) where
  running_count-all_waiting : (n : ℕ) → running_count (all_waiting {A = A} n) ≡ 0
  unfolding running_count
  running_count-all_waiting zero = refl
  running_count-all_waiting (suc n) = omega (arith, running_count-all_waiting n)

  length-all_waiting : (n : ℕ) → length (all_waiting {A = A} n) ≡ n
  length-all_waiting zero = refl
  length-all_waiting (suc n) = ap suc (length-all_waiting n)

module _ {A : Type 0} where
  -- The counter is the number of running threads, and the pool keeps its threads.
  pub record Counted (n : ℕ) (s : State A) : Type 0 where
    pub active : s.active_count ≡ running_count s.threads
    pub size : length s.threads ≡ n

  -- The two branches of `Submit`.
  unless_stopped :
      {n : ℕ} (b : Bool) (task : A) (s : State A)
      → Counted n s
      → Counted n (if b then s else record s { tasks = s.tasks ++ (task ∷ []) })
  unless_stopped true task s h = h
  unless_stopped false task s h = record { active = h.active; size = h.size }

  Step-Counted : {n : ℕ} {s t : State A} → Step s t → Counted n s → Counted n t
  unfolding submit shut_down
  Step-Counted {n} {s} (submits task) h = unless_stopped s.stop task s h
  Step-Counted {n} {s} (takes before task rest after e f) h = record {
    active =
        let old = h.active ∙ ap running_count e ∙ running_count-around before after waits in
        omega (arith, old, running_count-around before after (runs task));
    size =
        let old = sym h.size ∙ ap length e ∙ length-append before (waits ∷ after) in
        omega (arith, old, length-append before (runs task ∷ after));
  }
  Step-Counted {n} {s} (finishes before task after e) h = record {
    active =
        let old = h.active ∙ ap running_count e ∙ running_count-around before after (runs task) in
        omega (arith, old, running_count-around before after waits);
    size =
        let old = sym h.size ∙ ap length e ∙ length-append before (runs task ∷ after) in
        omega (arith, old, length-append before (waits ∷ after));
  }
  Step-Counted {n} {s} (exits before after e f g) h = record {
    active =
        let old = h.active ∙ ap running_count e ∙ running_count-around before after waits in
        omega (arith, old, running_count-around before after exited);
    size =
        let old = sym h.size ∙ ap length e ∙ length-append before (waits ∷ after) in
        omega (arith, old, length-append before (exited ∷ after));
  }
  Step-Counted shuts_down h = record { active = h.active; size = h.size }

  pub Run-Counted :
      {n finished : ℕ} {accepted started : List A} {s : State A}
      → Run n accepted started finished s
      → Counted n s
  unfolding new_pool
  Run-Counted {n} starts = record {
    active = sym (running_count-all_waiting A n);
    size = length-all_waiting A n;
  }
  Run-Counted (then_step r step) = Step-Counted step (Run-Counted r)

  -- In every reachable state `ActiveCount` is the number of threads in a task, and at most the
  -- number of threads.
  pub active_count-bound :
      {n finished : ℕ} {accepted started : List A} {s : State A}
      → Run n accepted started finished s
      → (s.active_count ≡ running_count s.threads) × (s.active_count ≤ n)
  active_count-bound {s = s} r =
      let h = Run-Counted r in
      (h.active, omega (arith, h.active, h.size, running_count-le s.threads))
