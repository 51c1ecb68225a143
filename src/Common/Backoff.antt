-- ===== src/Common/Backoff.antt =====
-- packages/common/src/utils.ts, `computeBackoff`, for callers that give no jitter; delays are whole
-- milliseconds.
use native.Mathlib.Nat.{pow-suc}
use ryvan_os.Base.{ℕ, zero, suc, ◌+◌, ◌-◌, ◌*◌, ◌^◌, ◌≤◌, ◌<◌, min, arith}

pub record BackoffOptions : Type 0 where
  pub base_delay : ℕ
  pub backoff_multiplier : ℕ
  pub max_delay : ℕ

-- `Math.max(0, attempt - 1)` is subtraction on the natural numbers.
unfoldable pub compute_backoff : ℕ → BackoffOptions → ℕ
compute_backoff attempt opts =
    min (opts.base_delay * opts.backoff_multiplier ^ (attempt - 1)) opts.max_delay

le-mul : (n m : ℕ) → 0 < m → n ≤ n * m
le-mul n m h = grind arith

growing : (b m k : ℕ) → 0 < m → b * m ^ k ≤ b * m ^ suc k
growing b m k h = rw pow-suc (omega (arith, le-mul (b * m ^ k) m h))

-- Delays never pass the cap, and no retry waits less than the one before it.
pub compute_backoff_bounds :
    (attempt : ℕ) (opts : BackoffOptions)
    → 0 < opts.backoff_multiplier
    → (compute_backoff attempt opts ≤ opts.max_delay)
      × (compute_backoff attempt opts ≤ compute_backoff (attempt + 1) opts)
unfolding compute_backoff
compute_backoff_bounds zero opts h = ground arith
compute_backoff_bounds (suc n) opts h =
    ground (arith, growing opts.base_delay opts.backoff_multiplier n h)
