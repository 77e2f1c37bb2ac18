-- ===== src/Worker/Budget.antt =====
-- How often a task runs that never succeeds.
use crunchytask.Common.{ℕ, zero, suc, ◌+◌, ℤ, pos, ltb, ◌+ℤ◌, String, ◌≡◌, arith, refl}
use crunchytask.Outside.Floats.{Floats}
use crunchytask.Outside.Json.{JsonLib}
use crunchytask.Outside.Lua.{Lua}
use crunchytask.Outside.Redis.{Redis}
use crunchytask.Task.Message.{should_retry}
use crunchytask.Wire.{Message}
use crunchytask.Broker.{retried}

module _ (F : Floats) (J : JsonLib F.Double) (L : Lua F.Double J.Text)
    (R : Redis F.Double J.Text F.leb) where
  -- The message of a task after failures at the times of the list.
  unfoldable pub after_failures : (ℕ → ℤ) → String → ℕ → Message F J → Message F J
  after_failures times reason zero task = task
  after_failures times reason (suc n) task =
      retried F J L R (times n) (after_failures times reason n task) reason

  after_failures-retry_count :
      (times : ℕ → ℤ) (reason : String) (n r : ℕ) (task : Message F J)
      → task.retry_count ≡ pos r
      → (after_failures times reason n task).retry_count ≡ pos (r + n)
  unfolding after_failures retried ◌+ℤ◌
  after_failures-retry_count times reason zero r task e = rw e (ground arith)
  after_failures-retry_count times reason (suc n) r task e =
      rw (after_failures-retry_count times reason n r task e) (ground arith)

  after_failures-retry_policy :
      (times : ℕ → ℤ) (reason : String) (n : ℕ) (task : Message F J)
      → (after_failures times reason n task).retry_policy ≡ task.retry_policy
  unfolding after_failures retried
  after_failures-retry_policy times reason zero task = refl
  after_failures-retry_policy times reason (suc n) task =
      after_failures-retry_policy times reason n task

  -- A task that has run `r` times without success, and whose policy allows `m` retries, is retried
  -- after `n` further failures exactly where `r + n < m`.
  pub retry_budget :
      (times : ℕ → ℤ) (reason : String) (n r m : ℕ) (task : Message F J)
      → task.retry_count ≡ pos r
      → task.retry_policy.max_retries ≡ pos m
      → should_retry (after_failures times reason n task) ≡ ltb (r + n) m
  retry_budget times reason n r m task e f =
      rw
        (
          after_failures-retry_count times reason n r task e,
          after_failures-retry_policy times reason n task,
          f,
        )
        (ground arith)
