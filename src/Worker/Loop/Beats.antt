-- ===== src/Worker/Loop/Beats.antt =====
-- The heartbeats that `Run` publishes: how far apart they are, and the load that they report.
use crunchytask.Common.{◌≤◌, ℤ, ◌-ℤ◌, ltb_ℤ, ◌≡◌, false, Option, none, some, List, [], ◌∷◌, All}
use crunchytask.Outside.Floats.{Floats}
use crunchytask.Outside.Json.{JsonLib}
use crunchytask.Outside.Lua.{Lua}
use crunchytask.Outside.Redis.{Redis}
use crunchytask.Heartbeat.{Numerals}
use crunchytask.Worker.Loop.{Setup, Beat, Machine}

abbrev pub last_time : List Beat → Option ℤ
last_time [] = none
last_time (b ∷ bs) = some b.0

-- Each heartbeat comes at least `interval` after the one before it; the last one is first.
unfoldable pub Spaced : ℤ → List Beat → Type 0
Spaced interval [] = Unit
Spaced interval (b ∷ []) = Unit
Spaced interval (b ∷ c ∷ bs) = (ltb_ℤ (b.0 -ℤ c.0) interval ≡ false) × Spaced interval (c ∷ bs)

abbrev pub WithinCapacity : Beat → Type 0
WithinCapacity b = b.1.currently_running ≤ b.1.concurrency

module _ (F : Floats) (J : JsonLib F.Double) (L : Lua F.Double J.Text)
    (R : Redis F.Double J.Text F.leb) (N : Numerals) where
  open J use {Json}

  record Beaten (setup : Setup Json) (beats : List Beat) (m : Machine F J L R N) : Type 0 where
    pub last : last_time beats ≡ m.last_heartbeat_at
    pub spaced : Spaced setup.settings.heartbeat_interval beats
    pub within : All WithinCapacity beats
