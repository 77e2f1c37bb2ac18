-- ===== src/Cli/Refusals.antt =====
-- A subcommand that ends with an error message has not changed the store.
use crunchytask.Common.{
  ℕ, ℤ, String, ◌≡◌, Bool, true, false, Bool-cases, inl, inr, Option-cases, List, [], ◌∷◌, refl, ap,
  ◌∙◌, sym,
}
use crunchytask.Outside.Floats.{Floats}
use crunchytask.Outside.Json.{JsonLib}
use crunchytask.Outside.Lua.{Lua}
use crunchytask.Outside.Redis.{Redis, contains, erase_first, dead_key}
use crunchytask.ParseResult.{ParseResult, ok, fail}
use crunchytask.Task.Id.{TaskId}
use crunchytask.Wire.{Message}
use crunchytask.Scripts.{
  Reply, returned, raised, revived_message, decode_table, revive, retry_dead_items,
  retry_dead_task_script, scripts_retry_dead_task,
}
use crunchytask.Heartbeat.{Numerals, WorkerKeys}
use crunchytask.Broker.{Store, found_dead, retry_dead_task}
use crunchytask.Cli.{
  Call, Command, enqueue_cmd, status_cmd, result_cmd, stats_cmd, workers_list_cmd, failed_list_cmd,
  failed_retry_cmd, metrics_cmd, enqueued, run_command, enqueue_command, failed_retry_command,
}
use crunchytask.Cli.Print.{Ended, requeued, retry_of_id}

module _ {Text : Type 0} (same : Text → Text → Bool) where
  erase_first-missing :
      (t : Text) (l : List Text) → contains same t l ≡ false → erase_first same t l ≡ l
  unfolding contains erase_first
  erase_first-missing t [] e = refl
  erase_first-missing t (x ∷ xs) e = elim (Bool-cases (same x t)) [
    | inl f ↦ absurd (found f e)
    | inr f ↦ rw (f, erase_first-missing t xs (skipped f e)) refl
  ]
    where
      found : same x t ≡ true → contains same t (x ∷ xs) ≡ false → ⊥
      found f e = let there : contains same t (x ∷ xs) ≡ true = rw f refl in absurd (cc (there, e))

      skipped : same x t ≡ false → contains same t (x ∷ xs) ≡ false → contains same t xs ≡ false
      skipped f e =
          let same_rest : contains same t (x ∷ xs) ≡ contains same t xs = rw f refl in
          sym same_rest ∙ e

module _ (F : Floats) (J : JsonLib F.Double) (L : Lua F.Double J.Text)
    (R : Redis F.Double J.Text F.leb) where
  open J use {Text}
  open L use {Value, encodable, equals, index}
  open R use {lrem, lrem_lem}

  -- A script that finds nothing leaves the store as it was.
  abbrev Untouched : Store F J L R → Bool × Store F J L R → Type 0
  Untouched d (true, e) = Unit
  Untouched d (false, e) = e ≡ d

  abbrev UntouchedReply : Store F J L R → Reply Bool × Store F J L R → Type 0
  UntouchedReply d (raised, e) = Unit
  UntouchedReply d (returned found, e) = Untouched d (found, e)

  revive-Untouched :
      (id : String) (msg : Value) (d : Store F J L R) (r : Bool × Store F J L R)
      → Untouched d r
      → UntouchedReply d (revive F L R id msg r)
  unfolding revive
  revive-Untouched id msg d (true, e) h =
      elim (Bool-cases (encodable (revived_message F L R msg))) [
        | inl f ↦ rw (f, revive) tt
        | inr f ↦ rw (f, revive) tt
      ]
  revive-Untouched id msg d (false, e) h = h

  lrem-Untouched : (t : Text) (d : Store F J L R) → Untouched d (lrem dead_key t d)
  lrem-Untouched t d = rw lrem_lem (go (contains R.same t d.dead) refl)
    where
      go :
          (b : Bool)
          → contains R.same t d.dead ≡ b
          → Untouched d (b, record d { dead = erase_first R.same t d.dead })
      go true e = tt
      go false e = ap (λ l. record d { dead = l }) (erase_first-missing R.same t d.dead e)

  retry_dead_items-Untouched :
      (id : String) (items : List Text) (d : Store F J L R)
      → UntouchedReply d (retry_dead_items F L R id items d)
  unfolding retry_dead_items
  retry_dead_items-Untouched id [] d = refl
  retry_dead_items-Untouched id (json ∷ items) d = elim (Option-cases (decode_table F L R json)) [
    | inl e ↦ rw (e, retry_dead_items) (retry_dead_items-Untouched id items d)
    | inr (msg, e) ↦ elim (Bool-cases (equals (index msg "id") id)) [
      | inl q ↦
          rw (e, retry_dead_items)
            (rw q (revive-Untouched id msg d (lrem dead_key json d) (lrem-Untouched json d)))
      | inr q ↦ rw (e, retry_dead_items) (rw q (retry_dead_items-Untouched id items d))
    ]
  ]

  module _ (N : Numerals) (null : J.Json) (array : List J.Json → J.Json) where
    -- Where the end is an error, the store is as it was.
    abbrev pub UnchangedIfRefused :
        Store F J L R → Reply (Ended F J L R null array) × Store F J L R → Type 0
    UnchangedIfRefused d (raised, e) = Unit
    UnchangedIfRefused d (returned (ok out), e) = Unit
    UnchangedIfRefused d (returned (fail message), e) = e ≡ d

    same_store :
        (d : Store F J L R) (end : Ended F J L R null array)
        → UnchangedIfRefused d (returned end, d)
    same_store d (ok out) = tt
    same_store d (fail message) = refl

    enqueued-Unchanged :
        (drawn : ℕ → ℕ) (now : ℤ) (task : ParseResult (Message F J)) (d : Store F J L R)
        → let (end, after) = enqueued F J L R N null array drawn now task d in
          UnchangedIfRefused d (returned end, after)
    unfolding enqueued
    enqueued-Unchanged drawn now (ok task) d = tt
    enqueued-Unchanged drawn now (fail message) d = refl

    requeued-Unchanged :
        (id : TaskId) (d : Store F J L R) (r : Reply Bool × Store F J L R)
        → UntouchedReply d r
        → UnchangedIfRefused d (requeued F J L R null array (found_dead F J L R id r.0, r.1))
    unfolding requeued found_dead
    requeued-Unchanged id d (raised, e) h = tt
    requeued-Unchanged id d (returned true, e) h = tt
    requeued-Unchanged id d (returned false, e) h = h

    retry_of_id-Unchanged :
        (id : ParseResult TaskId) (d : Store F J L R)
        → UnchangedIfRefused d (retry_of_id F J L R null array id d)
    unfolding retry_of_id retry_dead_task scripts_retry_dead_task retry_dead_task_script
    retry_of_id-Unchanged (fail message) d = refl
    retry_of_id-Unchanged (ok id) d =
        requeued-Unchanged id d _ (retry_dead_items-Untouched id.value (R.lrange dead_key d) d)

    -- A subcommand that ends with an error message leaves the store unchanged.
    pub run_command-UnchangedIfRefused :
        (digits : ℤ → String) (c : Call F J L R N null array)
        (command : Command F J L R N null array) (keys : WorkerKeys) (d : Store F J L R)
        → UnchangedIfRefused d (run_command F J L R N null array digits c command keys d)
    unfolding run_command enqueue_command failed_retry_command
    run_command-UnchangedIfRefused digits c (enqueue_cmd options) keys d =
        enqueued-Unchanged c.drawn c.now _ d
    run_command-UnchangedIfRefused digits c (status_cmd task_id format) keys d = same_store d _
    run_command-UnchangedIfRefused digits c (result_cmd task_id format) keys d = same_store d _
    run_command-UnchangedIfRefused digits c stats_cmd keys d = same_store d _
    run_command-UnchangedIfRefused digits c workers_list_cmd keys d = same_store d _
    run_command-UnchangedIfRefused digits c (failed_list_cmd format) keys d = same_store d _
    run_command-UnchangedIfRefused digits c (failed_retry_cmd task_id) keys d =
        retry_of_id-Unchanged _ d
    run_command-UnchangedIfRefused digits c (metrics_cmd format) keys d = same_store d _
