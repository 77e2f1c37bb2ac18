-- ===== src/Scripts/Effects.antt =====
-- What the scripts without a branch on the clock leave in the store, key by key.
use crunchytask.Common.{String, ◌≡◌, ◌∷◌, insert, remove}
use crunchytask.Outside.Floats.{Floats}
use crunchytask.Outside.Lua.{Lua}
use crunchytask.Outside.Redis.{Data, Redis, erase_member}
use crunchytask.Scripts.{ack_script, retry_script}

module _ (F : Floats) {Text : Type 0} (L : Lua F.Double Text) (R : Redis F.Double Text F.leb) where
  open F use {Double}
  open L use {Value, set_text, encode}
  open R use {
    same, lpush_lem, zadd_lem, hset_text_lem, hdel_text_lem, hset_document_lem, hdel_document_lem,
    hget_document_lem,
  }

  pub ack_script_lem :
      (id : String) (t : Text) (status : String) (d : Data Double Text)
      → ack_script F L R id t status d ≡ record d {
        running = remove id d.running;
        statuses = insert id status d.statuses;
        results = insert id t d.results;
        failures = remove id d.failures;
      }
  unfolding ack_script
  ack_script_lem id t status d =
      rw (ack_script, hdel_document_lem, hset_text_lem, hset_document_lem, hdel_text_lem)

  pub retry_script_lem :
      (id : String) (t : Text) (score : Double) (reason status : String) (d : Data Double Text)
      → retry_script F L R id t score reason status d ≡ record d {
        running = remove id d.running;
        delayed = (t, score) ∷ erase_member same t d.delayed;
        statuses = insert id status d.statuses;
        failures = insert id reason d.failures;
      }
  unfolding retry_script
  retry_script_lem id t score reason status d =
      rw (retry_script, hdel_document_lem, zadd_lem, hset_text_lem, hset_text_lem)
