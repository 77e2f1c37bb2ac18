-- ===== src/Task/Policy/Laws.antt =====
-- The exponential backoff.
use crunchytask.Common.{ℕ, suc, ℤ, pos, ◌*◌, ◌^◌, ◌≤◌, ◌≡◌, arith, ◌-ℤ◌, leb_ℤ, false}
use crunchytask.Outside.Floats.{Floats}
use crunchytask.Task.Policy.{compute_retry_delay_ms}

not_first : (n : ℕ) → leb_ℤ (pos (suc n)) (pos 0) ≡ false
not_first n = ground arith

previous : (n : ℕ) → pos (suc n) -ℤ pos 1 ≡ pos n
unfolding ◌-ℤ◌
previous n = ground arith

module _ (F : Floats) where
  open F use {of_int, mul-of_int, pow-of_int, to_int64-of_int}

  -- For a whole multiplier and base delay, the retry n + 1 waits base_delay_ms * multiplier ^ n, where
  -- that product and that power are at most 2 ^ 53.
  pub backoff :
      (max_retries : ℤ) (base m n : ℕ)
      → m ^ n ≤ 2 ^ 53
      → base * m ^ n ≤ 2 ^ 53
      → compute_retry_delay_ms F
          (record {
            max_retries = max_retries;
            base_delay_ms = pos base;
            multiplier = of_int (pos m);
          })
          (pos (suc n))
        ≡ pos (base * m ^ n)
  unfolding compute_retry_delay_ms
  backoff max_retries base m n hp hm =
      rw (not_first n, previous n, pow-of_int m n hp, mul-of_int base (m ^ n) hm)
        (to_int64-of_int (pos (base * m ^ n)) (omega arith, omega arith))
