-- ===== src/Tests/RetryRuns.antt =====
-- Runs of the delays of util/retry.go.
use log_forge.Prelude.{ℕ, ◌+◌, ◌/◌, ◌*◌, ◌^◌, ◌-◌, ◌≤◌, ◌≡◌, refl, some, arith}
use log_forge.Prelude.Int.{pos}
use log_forge.Retry.{next_retry_delay, jitter_retry_delay, millisecond}
use log_forge.Retry.Bounds.{
  effective_max, next_retry_delay-eq-min, jitter_retry_delay_bounds, iterate_delay,
  iterate_delay-eq-min,
}
use Prim.Native.Nat.{min}

next_retry_delay-eq-min_example :
    next_retry_delay (pos 3000000000) (pos 250000000) (pos 5000000000)
    ≡ pos
        (min (3000000000 + 3000000000) (effective_max millisecond (pos 250000000) (pos 5000000000)))
next_retry_delay-eq-min_example =
    next_retry_delay-eq-min 3000000000 (pos 250000000) (pos 5000000000) (omega arith) (omega arith)
      (omega arith) (omega arith)

jitter_retry_delay_bounds_example :
    (d : ℕ) × (jitter_retry_delay (pos 1000) (some (λ n. n - 1)) ≡ pos d)
    × (1000 ≤ d + 1000 / 5)
    × (d ≤ 1000 + 1000 / 5)
jitter_retry_delay_bounds_example =
    jitter_retry_delay_bounds 1000 (λ n. n - 1) (omega arith) (λ n h. omega arith)

iterate_delay-eq-min_example :
    iterate_delay 6 (pos 250000000) (pos 250000000) (pos 5000000000)
    ≡ pos (min (250000000 * 2 ^ 6) 5000000000)
iterate_delay-eq-min_example =
    iterate_delay-eq-min 6 250000000 5000000000 (omega arith) (omega arith) (omega arith)

-- The fifth doubling of 250 ms is cut to 5 s.
capped : next_retry_delay (pos 4000000000) (pos 250000000) (pos 5000000000) ≡ pos 5000000000
unfolding next_retry_delay
capped = refl
