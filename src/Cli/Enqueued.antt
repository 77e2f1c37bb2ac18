-- ===== src/Cli/Enqueued.antt =====
-- `enqueue`, and then `status` of the identifier that it printed.
use crunchytask.Common.{ℕ, ◌≡◌, some, List, lookup}
use crunchytask.Outside.Floats.{Floats}
use crunchytask.Outside.Json.{JsonLib}
use crunchytask.Outside.Lua.{Lua}
use crunchytask.Outside.Redis.{Redis}
use crunchytask.ParseResult.{ParseResult, ok, fail}
use crunchytask.Task.Id.{generate}
use crunchytask.Task.Status.{pending, task_status_to_string}
use crunchytask.Wire.{Message}
use crunchytask.Heartbeat.{Numerals}
use crunchytask.Broker.{Store}

module _ (F : Floats) (J : JsonLib F.Double) (L : Lua F.Double J.Text)
    (R : Redis F.Double J.Text F.leb) where
  open J use {Json, Text}
  open R use {hset_text_lem, hget_text_lem, hget_document_lem, zadd_lem, lpush_lem}

  -- What `submit` writes to the hashes.
  record Submitted (m : Message F J) (d e : Store F J L R) : Type 0 where
    pub status : lookup m.id.value e.statuses ≡ some (task_status_to_string pending)
    pub failures : e.failures ≡ d.failures
    pub results : e.results ≡ d.results

  module _ (N : Numerals) (null : J.Json) (array : List J.Json → J.Json) where
    abbrev HasDrawn : (ℕ → ℕ) → ParseResult (Message F J) → Type 0
    HasDrawn drawn (ok task) = task.id ≡ generate drawn
    HasDrawn drawn (fail message) = Unit
