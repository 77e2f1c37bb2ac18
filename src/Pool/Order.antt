-- ===== src/Pool/Order.antt =====
-- The pool starts the accepted tasks in their order, each once, and is idle when all have returned.
use crunchytask.Common.{
  ℕ, ◌+◌, nat_eq, ◌≡◌, Bool, true, false, ◌&&◌, List, [], ◌∷◌, ◌++◌, length, if◌then◌else◌, arith,
  refl, ap, ◌∙◌, sym, length-append, append_assoc, append_nil,
}
use crunchytask.Pool.{
  runs, State, no_tasks, new_pool, submit, shut_down, idle, in_flight_count, Step, submits, takes,
  finishes, exits, shuts_down, accepted_by, started_by, finished_by, Run, starts, then_step,
}
use crunchytask.Pool.Counts.{Counted, Run-Counted, running_count, running_count-around}

module _ {A : Type 0} where
  -- The queue holds what is accepted and not started; a started task runs or has returned.
  pub record Ordered (accepted started : List A) (finished : ℕ) (s : State A) : Type 0 where
    pub queue : accepted ≡ started ++ s.tasks
    pub returned_or_running : length started ≡ finished + s.active_count

  -- The two branches of `Submit`.
  submit_branch :
      {accepted started : List A} {finished : ℕ} (b : Bool) (task : A) (s : State A)
      → Ordered accepted started finished s
      → Ordered
          (accepted ++ (if b then [] else task ∷ []))
          (started ++ [])
          (finished + 0)
          (if b then s else record s { tasks = s.tasks ++ (task ∷ []) })
  submit_branch {accepted} {started} true task s h = record {
    queue = append_nil accepted ∙ h.queue ∙ ap (λ l. l ++ s.tasks) (sym (append_nil started));
    returned_or_running = ap length (append_nil started) ∙ omega (arith, h.returned_or_running);
  }
  submit_branch {accepted} {started} false task s h = record {
    queue =
        ap (λ l. l ++ (task ∷ [])) h.queue
        ∙ append_assoc started s.tasks (task ∷ [])
        ∙ ap (λ l. l ++ (s.tasks ++ (task ∷ []))) (sym (append_nil started));
    returned_or_running = ap length (append_nil started) ∙ omega (arith, h.returned_or_running);
  }

  Step-Ordered :
      {n finished : ℕ} {accepted started : List A} {s t : State A} (step : Step s t)
      → Counted n s
      → Ordered accepted started finished s
      → Ordered
          (accepted ++ accepted_by step)
          (started ++ started_by step)
          (finished + finished_by step)
          t
  unfolding submit shut_down
  Step-Ordered {s = s} (submits task) c h = submit_branch s.stop task s h
  Step-Ordered {accepted = accepted} {started = started} (takes before task rest after e f) c h =
      record {
        queue =
            append_nil accepted
            ∙ h.queue
            ∙ ap (λ l. started ++ l) f
            ∙ sym (append_assoc started (task ∷ []) rest);
        returned_or_running =
            omega (arith, length-append started (task ∷ []), h.returned_or_running);
      }
  Step-Ordered {accepted = accepted} {started = started} {s = s} (finishes before task after e) c
        h =
      record {
        queue = append_nil accepted ∙ h.queue ∙ ap (λ l. l ++ s.tasks) (sym (append_nil started));
        returned_or_running =
            let active =
              c.active ∙ ap running_count e ∙ running_count-around before after (runs task) in
            ap length (append_nil started) ∙ omega (arith, h.returned_or_running, active);
      }
  Step-Ordered {accepted = accepted} {started = started} {s = s} (exits before after e f g) c h =
      record {
        queue = append_nil accepted ∙ h.queue ∙ ap (λ l. l ++ s.tasks) (sym (append_nil started));
        returned_or_running = ap length (append_nil started) ∙ omega (arith, h.returned_or_running);
      }
  Step-Ordered {accepted = accepted} {started = started} {s = s} shuts_down c h = record {
    queue = append_nil accepted ∙ h.queue ∙ ap (λ l. l ++ s.tasks) (sym (append_nil started));
    returned_or_running = ap length (append_nil started) ∙ omega (arith, h.returned_or_running);
  }

  Run-Ordered :
      {n finished : ℕ} {accepted started : List A} {s : State A}
      → Run n accepted started finished s
      → Ordered accepted started finished s
  unfolding new_pool
  Run-Ordered starts = record { queue = refl; returned_or_running = refl }
  Run-Ordered (then_step r step) = Step-Ordered step (Run-Counted r) (Run-Ordered r)

  -- In every reachable state the accepted tasks are the started ones followed by the queue, so a
  -- task starts at most once and in its turn, and `InFlightCount` is the number of accepted tasks
  -- less those that returned.
  pub first_in_first_out :
      {n finished : ℕ} {accepted started : List A} {s : State A}
      → Run n accepted started finished s
      → (accepted ≡ started ++ s.tasks) × (in_flight_count s + finished ≡ length accepted)
  unfolding in_flight_count
  first_in_first_out {started = started} {s = s} r =
      let h = Run-Ordered r in
      (
        h.queue,
        omega (arith, h.returned_or_running, ap length h.queue ∙ length-append started s.tasks),
      )

  empty_of_length : (xs : List A) → length xs ≡ 0 → xs ≡ []
  empty_of_length [] e = refl
  empty_of_length (x ∷ xs) e = absurd (omega (arith, e))

  idle_parts : (ts : List A) (n : ℕ) → no_tasks ts && nat_eq n 0 ≡ true → (ts ≡ []) × (n ≡ 0)
  idle_parts [] n e = (refl, ground arith)
  idle_parts (t ∷ ts) n e = absurd (cc)

  idle-parts : (s : State A) → idle s ≡ true → (s.tasks ≡ []) × (s.active_count ≡ 0)
  unfolding idle
  idle-parts s e = idle_parts s.tasks s.active_count e

  -- Where `WaitIdle` stops waiting, every task accepted so far has started and returned.
  pub idle_means_done :
      {n finished : ℕ} {accepted started : List A} {s : State A}
      → Run n accepted started finished s
      → idle s ≡ true
      → (started ≡ accepted) × (finished ≡ length accepted)
  idle_means_done {started = started} {s = s} r e =
      let h = Run-Ordered r in
      let (no_tasks, none_active) = idle-parts s e in
      let q = h.queue ∙ ap (λ l. started ++ l) no_tasks ∙ append_nil started in
      (sym q, omega (arith, h.returned_or_running, none_active, ap length q))
