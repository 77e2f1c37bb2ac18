-- ===== src/Worker/Loop/Stopping.antt =====
-- `Stop`: the thread that is in `Run` reaches `Shutdown`, whatever the other threads do.
use crunchytask.Common.{
  ℕ, suc, ◌-◌, ◌≤◌, ℤ, String, ◌≡◌, ◌⊎◌, inl, inr, false, Bool-cases, Option, none, some, arith,
  refl, ap, ◌∙◌,
}
use crunchytask.Outside.Floats.{Floats}
use crunchytask.Outside.Json.{JsonLib}
use crunchytask.Outside.Lua.{Lua}
use crunchytask.Outside.Redis.{Redis}
use crunchytask.Wire.{Message}
use crunchytask.Scripts.{Reply, returned, raised}
use crunchytask.Broker.{Store, LoopEnd, finished, thrown, unfinished, reserve}
use crunchytask.Scheduler.{run_scheduler_tick}
use crunchytask.Heartbeat.{Numerals}
use crunchytask.Worker.Settings.{can_accept_task, heartbeat_due}
use crunchytask.Worker.Loop.{
  Setup, Clock, Phase, starting, top, beating, testing, ready, closing, escaped, holding, Machine,
  maybe_publish_heartbeat, fetched, fetch, advance_at, advance,
}

module _ (F : Floats) (J : JsonLib F.Double) (L : Lua F.Double J.Text)
    (R : Redis F.Double J.Text F.leb) (N : Numerals) where
  open J use {Json}

  -- The steps of the loop that are left, once it is to stop.
  abbrev steps_left : Phase F J L R N → ℕ
  steps_left closing = 0
  steps_left escaped = 0
  steps_left top = 1
  steps_left starting = 2
  steps_left (holding task) = 2
  steps_left ready = 3
  steps_left testing = 4
  steps_left beating = 5

  -- One step nearer, and still to stop.
  record Nearer (n : ℕ) (m : Machine F J L R N) : Type 0 where
    pub fewer : steps_left m.phase ≤ n - 1
    pub stopped : m.running ≡ false

  maybe_publish_heartbeat-running :
      (setup : Setup Json) (now : Clock) (m : Machine F J L R N)
      → (maybe_publish_heartbeat F J L R N setup now m).running ≡ m.running
  unfolding maybe_publish_heartbeat
  maybe_publish_heartbeat-running setup now m =
      elim (Bool-cases (heartbeat_due setup.settings m.last_heartbeat_at now.steady)) [
        | inl e ↦ rw e refl
        | inr e ↦ rw e refl
      ]

  fetched-Nearer :
      (end : Reply (Option (Message F J)) × Store F J L R) (m : Machine F J L R N)
      → m.running ≡ false
      → Nearer 3 (fetched F J L R N end m)
  unfolding fetched
  fetched-Nearer (raised, d) m h = record { fewer = omega arith; stopped = h }
  fetched-Nearer (returned none, d) m h = record { fewer = omega arith; stopped = h }
  fetched-Nearer (returned (some task), d) m h = record { fewer = omega arith; stopped = h }

  fetch-Nearer :
      (digits : ℤ → String) (now : Clock) (end : LoopEnd F J L R) (m : Machine F J L R N)
      → m.running ≡ false
      → Nearer 3 (fetch F J L R N digits now end m)
  unfolding fetch
  fetch-Nearer digits now (finished d) m h =
      fetched-Nearer (reserve F J L R digits now.reserved d) m h
  fetch-Nearer digits now (thrown d) m h = record { fewer = omega arith; stopped = h }
  fetch-Nearer digits now unfinished m h = record { fewer = omega arith; stopped = h }

  advance_at-Nearer :
      (setup : Setup Json) (digits : ℤ → String) (now : Clock) (p : Phase F J L R N)
      (m : Machine F J L R N)
      → m.phase ≡ p
      → m.running ≡ false
      → Nearer (steps_left p) (advance_at F J L R N setup digits now p m)
  unfolding advance_at
  advance_at-Nearer setup digits now starting m e h = record {
    fewer = omega arith;
    stopped = maybe_publish_heartbeat-running setup now m ∙ h;
  }
  advance_at-Nearer setup digits now top m e h =
      rw h (record { fewer = omega arith; stopped = refl })
  advance_at-Nearer setup digits now beating m e h = record {
    fewer = omega arith;
    stopped = maybe_publish_heartbeat-running setup now m ∙ h;
  }
  advance_at-Nearer setup digits now testing m e h =
      elim (Bool-cases (can_accept_task setup.settings m.pool)) [
        | inl f ↦ rw f (record { fewer = omega arith; stopped = h })
        | inr f ↦ rw f (record { fewer = omega arith; stopped = h })
      ]
  advance_at-Nearer setup digits now ready m e h =
      fetch-Nearer digits now
        (run_scheduler_tick F J L R now.ticked setup.settings.visibility_timeout m.store) m h
  advance_at-Nearer setup digits now (holding task) m e h = record {
    fewer = omega arith;
    stopped = h;
  }
  advance_at-Nearer setup digits now closing m e h = record {
    fewer = omega (arith, ap steps_left e);
    stopped = h;
  }
  advance_at-Nearer setup digits now escaped m e h = record {
    fewer = omega (arith, ap steps_left e);
    stopped = h;
  }

  -- A run from one state to another with a number of steps of the loop's own thread. Between them
  -- the other threads and clients change anything but where that thread is, and no one sets
  -- `running_` again.
  pub data Onward (setup : Setup Json) (digits : ℤ → String)
      : ℕ → Machine F J L R N → Machine F J L R N → Type 0 where
    stays : {m : Machine F J L R N} → Onward setup digits 0 m m
    loop_then :
        {n : ℕ} {m t : Machine F J L R N} (now : Clock)
        → Onward setup digits n (advance F J L R N setup digits now m) t
        → Onward setup digits (suc n) m t
    others_then :
        {n : ℕ} {m after t : Machine F J L R N}
        → after.phase ≡ m.phase
        → after.running ≡ false
        → Onward setup digits n after t
        → Onward setup digits n m t

  Onward-Nearer :
      {setup : Setup Json} {digits : ℤ → String} {n : ℕ} {m t : Machine F J L R N}
      → Onward setup digits n m t
      → m.running ≡ false
      → steps_left t.phase ≤ steps_left m.phase - n
  unfolding advance
  Onward-Nearer stays h = omega arith
  Onward-Nearer {setup} {digits} {m = m} (loop_then now o) h =
      let near = advance_at-Nearer setup digits now m.phase m refl h in
      omega (arith, near.fewer, Onward-Nearer o near.stopped)
  Onward-Nearer (others_then e f o) h = omega (arith, Onward-Nearer o f, ap steps_left e)

  steps_left-bound : (p : Phase F J L R N) → steps_left p ≤ 5
  steps_left-bound closing = omega arith
  steps_left-bound escaped = omega arith
  steps_left-bound top = omega arith
  steps_left-bound starting = omega arith
  steps_left-bound (holding task) = omega arith
  steps_left-bound ready = omega arith
  steps_left-bound testing = omega arith
  steps_left-bound beating = omega arith

  at_end : (p : Phase F J L R N) → steps_left p ≤ 0 → (p ≡ closing) ⊎ (p ≡ escaped)
  at_end closing h = inl refl
  at_end escaped h = inr refl
  at_end top h = absurd (omega (arith, h))
  at_end starting h = absurd (omega (arith, h))
  at_end (holding task) h = absurd (omega (arith, h))
  at_end ready h = absurd (omega (arith, h))
  at_end testing h = absurd (omega (arith, h))
  at_end beating h = absurd (omega (arith, h))

  -- From any state in which `running_` is false, after five or more steps of the loop's own thread,
  -- with any steps of the others between them that leave `running_` false, the loop has ended: the
  -- thread is in `Shutdown`, or an exception has left `Run`.
  pub stop-ends :
      {setup : Setup Json} {digits : ℤ → String} {n : ℕ} {m t : Machine F J L R N}
      → Onward setup digits n m t
      → m.running ≡ false
      → 5 ≤ n
      → (t.phase ≡ closing) ⊎ (t.phase ≡ escaped)
  stop-ends {m = m} {t = t} o h le =
      at_end t.phase (omega (arith, Onward-Nearer o h, steps_left-bound m.phase, le))
