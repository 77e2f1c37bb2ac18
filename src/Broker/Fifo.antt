-- ===== src/Broker/Fifo.antt =====
-- The pending list is a queue: the task that was enqueued first is leased first.
use crunchytask.Common.{ℕ, ℤ, List, [], ◌∷◌, none}
use crunchytask.Outside.Floats.{Floats}
use crunchytask.Outside.Json.{JsonLib}
use crunchytask.Outside.Lua.{Lua}
use crunchytask.Outside.Redis.{Redis}
use crunchytask.Outside.Bridge.{Bridge}
use crunchytask.Wire.{Message, message_to_json}
use crunchytask.Broker.{Store, with_id, enqueue}

module _ (F : Floats) (J : JsonLib F.Double) (L : Lua F.Double J.Text)
    (R : Redis F.Double J.Text F.leb) (B : Bridge F J L) where
  open F use {Double, of_int}
  open J use {Text, dump, HasText}
  open L use {Value, encode, set_text, set_number, index, argument}
  open R use {rpop_some, hset_text_lem, hset_document_lem}

  -- The lease of a message.
  abbrev leased : ℤ → Value → Text
  leased at msg = encode (set_number "reserved_at_ms" at (set_text "status" "running" msg))

  -- The text that `Enqueue` pushes for a task that is not delayed.
  abbrev pub pending_text : (ℕ → ℕ) → Message F J → Text
  pending_text drawn task =
      dump (message_to_json F J (record (with_id F J L R drawn task) { run_at_ms = none }))

  -- A batch of tasks, in order, with the bytes drawn for each.
  unfoldable pub enqueue_all : ℤ → List ((ℕ → ℕ) × Message F J) → Store F J L R → Store F J L R
  enqueue_all now [] d = d
  enqueue_all now ((drawn, task) ∷ tasks) d =
      enqueue_all now tasks (enqueue F J L R now drawn task d).1

  -- Their texts, the last one first.
  abbrev pub texts_onto : List ((ℕ → ℕ) × Message F J) → List Text → List Text
  texts_onto [] l = l
  texts_onto ((drawn, task) ∷ tasks) l = texts_onto tasks (pending_text drawn task ∷ l)
