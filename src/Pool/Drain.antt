-- ===== src/Pool/Drain.antt =====
-- `Shutdown`: its wait for the threads ends, and by then every accepted task has run.
use crunchytask.Common.{
  ℕ, zero, suc, ◌+◌, ◌*◌, ◌≤◌, ◌<◌, ◌≡◌, ◌⊎◌, inl, inr, Bool, true, false, List, [], ◌∷◌, ◌++◌,
  length, if◌then◌else◌, All, arith, refl, ap, ◌∙◌,
}
use crunchytask.Pool.{
  Thread, waits, runs, exited, State, all_waiting, new_pool, submit, idle, shut_down, Step, submits,
  takes, finishes, exits, shuts_down, taken, done, left, Run, starts, then_step,
}
use crunchytask.Pool.Counts.{Run-Counted, running_count}
use crunchytask.Pool.Order.{idle_means_done}

module _ {A : Type 0} where
  -- The thread has returned, so that `join` returns.
  abbrev pub IsExited : Thread A → Type 0
  IsExited exited = Unit
  IsExited _ = ⊥

  -- A thread that has not exited, with the threads around it.
  data Found (ts : List (Thread A)) : Type 0 where
    none_left : All IsExited ts → Found ts
    waiting_at : (before after : List (Thread A)) → ts ≡ before ++ (waits ∷ after) → Found ts
    running_at :
        (before : List (Thread A)) (task : A) (after : List (Thread A))
        → ts ≡ before ++ (runs task ∷ after)
        → Found ts

  Found-after : (ts : List (Thread A)) → Found ts → Found (exited ∷ ts)
  Found-after ts (none_left h) = none_left (tt, h)
  Found-after ts (waiting_at before after e) =
      waiting_at (exited ∷ before) after (ap (λ l. exited ∷ l) e)
  Found-after ts (running_at before task after e) =
      running_at (exited ∷ before) task after (ap (λ l. exited ∷ l) e)

  find : (ts : List (Thread A)) → Found ts
  find [] = none_left tt
  find (waits ∷ ts) = waiting_at [] ts refl
  find (runs task ∷ ts) = running_at [] task ts refl
  find (exited ∷ ts) = Found-after ts (find ts)

  -- Steps of the pool's own threads alone.
  pub data Drains : State A → State A → Type 0 where
    stays : {s : State A} → Drains s s
    takes_then :
        {s t : State A} (before : List (Thread A)) (task : A) (rest : List A)
        (after : List (Thread A))
        → s.threads ≡ before ++ (waits ∷ after)
        → s.tasks ≡ task ∷ rest
        → Drains (taken before task rest after s) t
        → Drains s t
    finishes_then :
        {s t : State A} (before : List (Thread A)) (task : A) (after : List (Thread A))
        → s.threads ≡ before ++ (runs task ∷ after)
        → Drains (done before after s) t
        → Drains s t
    exits_then :
        {s t : State A} (before after : List (Thread A))
        → s.threads ≡ before ++ (waits ∷ after)
        → s.tasks ≡ []
        → s.stop ≡ true
        → Drains (left before after s) t
        → Drains s t

  abbrev rounds_left : Thread A → ℕ
  rounds_left waits = 1
  rounds_left (runs task) = 2
  rounds_left exited = 0

  unfoldable work : List (Thread A) → ℕ
  work [] = 0
  work (t ∷ ts) = rounds_left t + work ts

  work-around :
      (before after : List (Thread A)) (t : Thread A)
      → work (before ++ (t ∷ after)) ≡ work before + rounds_left t + work after
  unfolding work
  work-around [] after t = omega arith
  work-around (x ∷ before) after t = omega (arith, work-around before after t)

  work_split :
      {ts : List (Thread A)} (before after : List (Thread A)) (t : Thread A)
      → ts ≡ before ++ (t ∷ after)
      → work ts ≡ work before + rounds_left t + work after
  work_split before after t e = ap work e ∙ work-around before after t

  abbrev Drained : State A → Type 0
  Drained s = (t : State A) × Drains s t × All IsExited t.threads

  abbrev load : State A → ℕ
  load s = 2 * length s.tasks + work s.threads

  drain_from :
      (fuel : ℕ) (s : State A) (tasks : List A)
      → ((t : State A) → t.stop ≡ true → load t < fuel → Drained t)
      → s.stop ≡ true
      → load s < suc fuel
      → s.tasks ≡ tasks
      → Found s.threads
      → Drained s
  drain_from fuel s tasks more e lt q (none_left h) = (s, stays, h)
  drain_from fuel s tasks more e lt q (running_at before task after p) =
      let (t, d, h) = more (done before after s) e (
        omega (arith, lt, work_split before after (runs task) p, work-around before after waits)) in
      (t, finishes_then before task after p d, h)
  drain_from fuel s [] more e lt q (waiting_at before after p) =
      let (t, d, h) =
        more (left before after s) e
          (omega (arith, lt, work_split before after waits p, work-around before after exited)) in
      (t, exits_then before after p q e d, h)
  drain_from fuel s (task ∷ rest) more e lt q (waiting_at before after p) =
      let (t, d, h) = more (taken before task rest after s) e (
        omega (
          arith,
          lt,
          ap length q,
          work_split before after waits p,
          work-around before after (runs task),
        )) in
      (t, takes_then before task rest after p q d, h)

  drain : (fuel : ℕ) (s : State A) → s.stop ≡ true → load s < fuel → Drained s
  drain zero s e lt = absurd (omega arith)
  drain (suc fuel) s e lt = drain_from fuel s s.tasks (drain fuel) e lt refl (find s.threads)

  -- After `Shutdown` has set `stop`, in whatever state the pool was, its threads can all go on to
  -- exit, taking what is queued first, so the loop of `join` is not stuck in any of them.
  pub shutdown_can_finish :
      (s : State A) → (t : State A) × Drains (shut_down s) t × All IsExited t.threads
  unfolding shut_down
  shutdown_can_finish s = drain (suc (load (shut_down s))) (shut_down s) refl (omega arith)

  abbrev is_out : Thread A → ℕ
  is_out waits = 0
  is_out (runs task) = 0
  is_out exited = 1

  unfoldable exited_count : List (Thread A) → ℕ
  exited_count [] = 0
  exited_count (t ∷ ts) = is_out t + exited_count ts

  exited_count-around :
      (before after : List (Thread A)) (t : Thread A)
      → exited_count (before ++ (t ∷ after)) ≡ exited_count before + is_out t + exited_count after
  unfolding exited_count
  exited_count-around [] after t = omega arith
  exited_count-around (x ∷ before) after t = omega (arith, exited_count-around before after t)

  counts_when_exited :
      (ts : List (Thread A))
      → All IsExited ts
      → (exited_count ts ≡ length ts) × (running_count ts ≡ 0)
  unfolding exited_count running_count
  counts_when_exited [] h = (refl, refl)
  counts_when_exited (waits ∷ ts) h = absurd h.0
  counts_when_exited (runs task ∷ ts) h = absurd h.0
  counts_when_exited (exited ∷ ts) h =
      let (e, f) = counts_when_exited ts h.1 in (omega (arith, e), omega (arith, f))

  -- A thread exits only when the pool is stopped and its queue empty, and then it stays so.
  abbrev Stopped : State A → Type 0
  Stopped s = (exited_count s.threads ≡ 0) ⊎ ((s.stop ≡ true) × (s.tasks ≡ []))

  submit-Stopped :
      (b : Bool) (task : A) (s : State A)
      → s.stop ≡ b
      → Stopped s
      → Stopped (if b then s else record s { tasks = s.tasks ++ (task ∷ []) })
  submit-Stopped true task s e h = h
  submit-Stopped false task s e (inl h) = inl h
  submit-Stopped false task s e (inr (f, q)) = absurd (cc)

  Step-Stopped : {s t : State A} → Step s t → Stopped s → Stopped t
  unfolding submit shut_down
  Step-Stopped {s} (submits task) h = submit-Stopped s.stop task s refl h
  Step-Stopped (takes before task rest after e f) (inl h) = inl (
      omega (
        arith,
        h,
        ap exited_count e,
        exited_count-around before after waits,
        exited_count-around before after (runs task),
      ))
  Step-Stopped (takes before task rest after e f) (inr (g, q)) = absurd (cc)
  Step-Stopped (finishes before task after e) (inl h) = inl (
      omega (
        arith,
        h,
        ap exited_count e,
        exited_count-around before after waits,
        exited_count-around before after (runs task),
      ))
  Step-Stopped (finishes before task after e) (inr h) = inr h
  Step-Stopped (exits before after e f g) h = inr (g, f)
  Step-Stopped shuts_down (inl h) = inl h
  Step-Stopped shuts_down (inr (g, q)) = inr (refl, q)

module _ (A : Type 0) where
  none_exited : (n : ℕ) → exited_count (all_waiting {A = A} n) ≡ 0
  unfolding exited_count
  none_exited zero = refl
  none_exited (suc n) = omega (arith, none_exited n)

module _ {A : Type 0} where
  Run-Stopped :
      {n finished : ℕ} {accepted started : List A} {s : State A}
      → Run n accepted started finished s
      → Stopped s
  unfolding new_pool
  Run-Stopped {n} starts = inl (none_exited A n)
  Run-Stopped (then_step r step) = Step-Stopped step (Run-Stopped r)

  pub Run-exited :
      {n finished : ℕ} {accepted started : List A} {s : State A}
      → Run n accepted started finished s
      → 1 ≤ n
      → All IsExited s.threads
      → (s.stop ≡ true) × (s.tasks ≡ [])
  Run-exited {s = s} r le h =
      let out = (counts_when_exited s.threads h).0 in
      elim (Run-Stopped r) [
        | inl none ↦ absurd (omega (arith, none, out, (Run-Counted r).size, le))
        | inr stopped ↦ stopped
      ]

  -- Where all threads of a pool have exited, as they have when `Shutdown` returns, every task that
  -- `Submit` accepted has started and returned. The pool has at least one thread.
  pub joined_means_done :
      {n finished : ℕ} {accepted started : List A} {s : State A}
      → Run n accepted started finished s
      → 1 ≤ n
      → All IsExited s.threads
      → (started ≡ accepted) × (finished ≡ length accepted)
  unfolding idle
  joined_means_done {s = s} r le h =
      let running = (counts_when_exited s.threads h).1 in
      idle_means_done r (rw ((Run-exited r le h).1, (Run-Counted r).active ∙ running) refl)
