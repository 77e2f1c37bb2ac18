-- ===== src/Worker/Loop/Kept.antt =====
-- What the steps of `Run` and of its pool keep: a thread is free for each task that is fetched.
use crunchytask.Common.{
  ℕ, ◌+◌, ◌≤◌, ltb, ℤ, String, ◌≡◌, Bool, true, false, Bool-cases, inl, inr, Option, none, some,
  List, [], ◌∷◌, ◌++◌, length, if◌then◌else◌, arith, refl, sym, ap, ◌∙◌, length-append, append_nil,
}
use mathlib.Core.Path.{subst}
use crunchytask.Outside.Floats.{Floats}
use crunchytask.Outside.Json.{JsonLib}
use crunchytask.Outside.Lua.{Lua}
use crunchytask.Outside.Redis.{Redis}
use crunchytask.Wire.{Message}
use crunchytask.Scripts.{Reply, returned, raised}
use crunchytask.Broker.{Store, LoopEnd, finished, thrown, unfinished, reserve}
use crunchytask.Pool
use crunchytask.Pool.{
  Thread, State, new_pool, submit, shut_down, in_flight_count, taken, done, left, submits, takes,
  finishes, exits, shuts_down, starts, then_step, Step, accepted_by, started_by, finished_by,
}
use crunchytask.Scheduler.{run_scheduler_tick}
use crunchytask.Heartbeat.{Numerals}
use crunchytask.Worker.Settings.{can_accept_task, heartbeat_due}
use crunchytask.Worker.Loop.{
  Setup, Clock, Beat, enters, advances, stops, others, takes_task, finishes_task, exits_thread,
  Phase, starting, top, beating, testing, ready, closing, escaped, holding, Machine, Runs,
  new_worker, enter_run, maybe_publish_heartbeat, fetched, fetch, advance_at, advance, stop_worker,
  finish_task, hand, reserved_at,
}

module _ (F : Floats) (J : JsonLib F.Double) (L : Lua F.Double J.Text)
    (R : Redis F.Double J.Text F.leb) (N : Numerals) where
  open J use {Json}

  -- The threads that are kept for the loop.
  abbrev pub kept : Phase F J L R N → ℕ
  kept ready = 1
  kept (holding task) = 1
  kept _ = 0

  abbrev pub is_open : Phase F J L R N → Bool
  is_open closing = false
  is_open _ = true

  -- The pool has run like a pool alone; what is reserved is accepted or in the loop's hand, and
  -- finds a thread.
  pub record Kept (n : ℕ) (reserved : List (Message F J)) (count : ℕ) (p : Phase F J L R N)
      (s : State (Message F J)) : Type 0 where
    pub accepted : List (Message F J)
    pub started : List (Message F J)
    pub pool_run : Pool.Run n accepted started count s
    pub in_hand : reserved ≡ accepted ++ hand F J L R N p
    pub open_pool : is_open p ≡ true → s.stop ≡ false
    pub room : kept p + in_flight_count s ≤ n

  -- A step of the loop that reserves nothing and keeps no thread more.
  Kept-on :
      {n count : ℕ} {reserved : List (Message F J)} (p q : Phase F J L R N)
      (s t : State (Message F J))
      → t ≡ s
      → hand F J L R N q ≡ hand F J L R N p
      → kept q ≤ kept p
      → (is_open q ≡ true → is_open p ≡ true)
      → Kept n reserved count p s
      → Kept n (reserved ++ []) count q t
  Kept-on {n} {count} {reserved} p q s t same e le o h = record {
    accepted = h.accepted;
    started = h.started;
    pool_run = subst (λ u. Pool.Run n h.accepted h.started count u) (sym same) h.pool_run;
    in_hand = append_nil reserved ∙ h.in_hand ∙ ap (λ l. h.accepted ++ l) (sym e);
    open_pool = λ f. ap (λ u. u.stop) same ∙ h.open_pool (o f);
    room = omega (arith, h.room, le, ap in_flight_count same);
  }

  maybe_publish_heartbeat-pool :
      (setup : Setup Json) (now : Clock) (m : Machine F J L R N)
      → (maybe_publish_heartbeat F J L R N setup now m).pool ≡ m.pool
  unfolding maybe_publish_heartbeat
  maybe_publish_heartbeat-pool setup now m =
      elim (Bool-cases (heartbeat_due setup.settings m.last_heartbeat_at now.steady)) [
        | inl e ↦ rw e refl
        | inr e ↦ rw e refl
      ]

  -- The phase after the two calls, and the pool, which they leave alone.
  fetched-Kept :
      {n count : ℕ} {reserved : List (Message F J)}
      (end : Reply (Option (Message F J)) × Store F J L R) (m : Machine F J L R N)
      → Kept n reserved count ready m.pool
      → let f = fetched F J L R N end m in
        Kept n (reserved ++ hand F J L R N f.phase) count f.phase f.pool
  unfolding fetched
  fetched-Kept (raised, d) m h =
      Kept-on ready escaped m.pool m.pool refl refl (omega arith) (λ e. refl) h
  fetched-Kept (returned none, d) m h =
      Kept-on ready top m.pool m.pool refl refl (omega arith) (λ e. refl) h
  fetched-Kept (returned (some task), d) m h = record {
    accepted = h.accepted;
    started = h.started;
    pool_run = h.pool_run;
    in_hand = ap (λ l. l ++ (task ∷ [])) (h.in_hand ∙ append_nil h.accepted);
    open_pool = λ e. h.open_pool refl;
    room = h.room;
  }

  fetch-Kept :
      {n count : ℕ} {reserved : List (Message F J)} (digits : ℤ → String) (now : Clock)
      (end : LoopEnd F J L R) (m : Machine F J L R N)
      → Kept n reserved count ready m.pool
      → let f = fetch F J L R N digits now end m in
        Kept n (reserved ++ hand F J L R N f.phase) count f.phase f.pool
  unfolding fetch
  fetch-Kept digits now (finished d) m h = fetched-Kept (reserve F J L R digits now.reserved d) m h
  fetch-Kept digits now (thrown d) m h =
      Kept-on ready escaped m.pool m.pool refl refl (omega arith) (λ e. refl) h
  fetch-Kept digits now unfinished m h =
      Kept-on ready escaped m.pool m.pool refl refl (omega arith) (λ e. refl) h

  -- `Submit` on a pool that is open.
  submit-Kept :
      {n count : ℕ} {reserved : List (Message F J)} (task : Message F J) (s : State (Message F J))
      → Kept n reserved count (holding task) s
      → Kept n (reserved ++ []) count top (submit task s)
  unfolding submit in_flight_count
  submit-Kept {n} {count} {reserved} task s h = record {
    accepted = h.accepted ++ (if s.stop then [] else task ∷ []);
    started = h.started ++ [];
    pool_run =
        subst
          (λ k.
            Pool.Run n (h.accepted ++ (if s.stop then [] else task ∷ [])) (h.started ++ []) k
              (submit task s))
          (omega arith) (then_step h.pool_run (submits task));
    in_hand = rw (h.open_pool refl) (append_nil reserved ∙ h.in_hand ∙ sym (append_nil _));
    open_pool = λ e. rw (h.open_pool refl) refl;
    room = rw (h.open_pool refl) (omega (arith, h.room, length-append s.tasks (task ∷ [])));
  }

  shut_down-Kept :
      {n count : ℕ} {reserved : List (Message F J)} (s : State (Message F J))
      → Kept n reserved count top s
      → Kept n (reserved ++ []) count closing (shut_down s)
  unfolding shut_down in_flight_count
  shut_down-Kept {n} {count} {reserved} s h = record {
    accepted = h.accepted ++ [];
    started = h.started ++ [];
    pool_run =
        subst (λ k. Pool.Run n (h.accepted ++ []) (h.started ++ []) k (shut_down s)) (omega arith)
          (then_step h.pool_run shuts_down);
    in_hand = append_nil reserved ∙ h.in_hand ∙ sym (append_nil _);
    open_pool = λ e. absurd (cc);
    room = h.room;
  }

  advance_at-Kept :
      {count : ℕ} {reserved : List (Message F J)} (setup : Setup Json) (digits : ℤ → String)
      (now : Clock) (p : Phase F J L R N) (m : Machine F J L R N)
      → m.phase ≡ p
      → Kept setup.settings.concurrency reserved count p m.pool
      → let after = advance_at F J L R N setup digits now p m in
        Kept setup.settings.concurrency
          (reserved ++ reserved_at F J L R N p after.phase)
          count
          after.phase
          after.pool
  unfolding advance_at can_accept_task
  advance_at-Kept setup digits now starting m same h =
      Kept-on starting top m.pool _ (maybe_publish_heartbeat-pool setup now m) refl (omega arith)
        (λ e. refl) h
  advance_at-Kept setup digits now top m same h = elim (Bool-cases m.running) [
    | inl e ↦ rw e (Kept-on top beating m.pool m.pool refl refl (omega arith) (λ f. refl) h)
    | inr e ↦ rw e (shut_down-Kept m.pool h)
  ]
  advance_at-Kept setup digits now beating m same h =
      Kept-on beating testing m.pool _ (maybe_publish_heartbeat-pool setup now m) refl (omega arith)
        (λ e. refl) h
  advance_at-Kept {count} {reserved} setup digits now testing m same h =
      elim (Bool-cases (ltb (in_flight_count m.pool) setup.settings.concurrency)) [
        | inl e ↦ rw e (record {
          accepted = h.accepted;
          started = h.started;
          pool_run = h.pool_run;
          in_hand = append_nil reserved ∙ h.in_hand;
          open_pool = h.open_pool;
          room = ground arith;
        })
        | inr e ↦ rw e (Kept-on testing top m.pool m.pool refl refl (omega arith) (λ f. refl) h)
      ]
  advance_at-Kept setup digits now ready m same h =
      fetch-Kept digits now
        (run_scheduler_tick F J L R now.ticked setup.settings.visibility_timeout m.store) m h
  advance_at-Kept setup digits now (holding task) m same h = submit-Kept task m.pool h
  advance_at-Kept {count} {reserved} setup digits now closing m same h =
      Kept-on closing m.phase m.pool m.pool refl (ap (hand F J L R N) same)
        (omega (arith, ap kept same)) (λ e. sym (ap is_open same) ∙ e) h
  advance_at-Kept {count} {reserved} setup digits now escaped m same h =
      Kept-on escaped m.phase m.pool m.pool refl (ap (hand F J L R N) same)
        (omega (arith, ap kept same)) (λ e. refl) h

  -- A step of a thread of the pool.
  from_pool-Kept :
      {n count k : ℕ} {reserved : List (Message F J)} (p : Phase F J L R N)
      {s t : State (Message F J)} (step : Step s t)
      → accepted_by step ≡ []
      → k ≡ count + finished_by step
      → t.stop ≡ s.stop
      → in_flight_count t ≤ in_flight_count s
      → Kept n reserved count p s
      → Kept n reserved k p t
  from_pool-Kept {n} {count} p {t = t} step none_new e same le h = record {
    accepted = h.accepted ++ accepted_by step;
    started = h.started ++ started_by step;
    pool_run =
        subst (λ i. Pool.Run n (h.accepted ++ accepted_by step) (h.started ++ started_by step) i t)
          (sym e) (then_step h.pool_run step);
    in_hand =
        h.in_hand
        ∙ ap (λ l. l ++ hand F J L R N p)
            (sym (append_nil h.accepted) ∙ ap (λ l. h.accepted ++ l) (sym none_new));
    open_pool = λ f. same ∙ h.open_pool f;
    room = omega (arith, h.room, le);
  }

  pub Runs-Kept :
      {setup : Setup Json} {digits : ℤ → String} {count : ℕ} {reserved : List (Message F J)}
      {beats : List Beat} {m : Machine F J L R N}
      → Runs F J L R N setup digits reserved beats count m
      → Kept setup.settings.concurrency reserved count m.phase m.pool
  unfolding new_worker enter_run advance stop_worker finish_task new_pool in_flight_count
  Runs-Kept (enters started_at_ms d keys) = record {
    accepted = [];
    started = [];
    pool_run = starts;
    in_hand = refl;
    open_pool = λ e. refl;
    room = omega arith;
  }
  Runs-Kept {setup} {digits} (advances {m = m} r now) =
      advance_at-Kept setup digits now m.phase m refl (Runs-Kept r)
  Runs-Kept (stops r) = Runs-Kept r
  Runs-Kept (others r d keys) = Runs-Kept r
  Runs-Kept (takes_task {m = m} r before task rest after e f) =
      from_pool-Kept m.phase (takes {s = m.pool} before task rest after e f) refl (omega arith) refl
        (omega (arith, ap length f)) (Runs-Kept r)
  Runs-Kept (finishes_task {m = m} r times before task after e) =
      from_pool-Kept m.phase (finishes {s = m.pool} before task after e) refl (omega arith) refl
        (omega arith) (Runs-Kept r)
  Runs-Kept (exits_thread {m = m} r before after e f g) =
      from_pool-Kept m.phase (exits {s = m.pool} before after e f g) refl (omega arith) refl
        (omega arith) (Runs-Kept r)
