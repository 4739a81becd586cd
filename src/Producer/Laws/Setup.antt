-- ===== src/Producer/Laws/Setup.antt =====
-- Construction, start and close of the producer.
use log_forge.Prelude.{◌≤◌, ◌<◌, ◌≡◌, ◌≢◌, Option, some, none, [], length, arith}
use log_forge.Prelude.Int.{pos, ◌≤ℤ◌, ◌<ℤ◌}
use log_forge.Producer.State.{Producer, ProducerConfig, resolve, new_producer, start_async, close}
use log_forge.World.{World}

-- What a producer can rely on between two calls. The breaker's counter is kept below the threshold.
pub record IsValid (p : Producer) : Type 0 where
  pub has_capacity : 0 < p.capacity
  pub has_workers : pos 0 <ℤ p.workers
  pub threshold_pos : pos 0 <ℤ p.circuit_failure_threshold
  pub threshold_fits : p.circuit_failure_threshold ≤ℤ pos 2147483647
  pub cooldown_pos : pos 0 <ℤ p.circuit_cooldown
  pub retries_nonneg : pos 0 ≤ℤ p.max_retries
  pub failures_nonneg : pos 0 ≤ℤ p.consecutive_failures
  pub failures_lt : p.consecutive_failures <ℤ p.circuit_failure_threshold
  pub within_capacity : length p.work_ch ≤ p.capacity
  pub closed_together : p.ch_closed ≡ p.closed
  pub canceled_together : p.ctx_canceled ≡ p.closed
  pub once_together : p.close_once ≡ p.closed
  pub started_once : p.start_once ≡ p.started

-- Whatever else the configuration says, with a threshold that fits an int32 a new producer is valid
-- and has a dead-letter directory.
pub new_producer-IsValid :
    (cfg : Option ProducerConfig)
    → (resolve cfg).circuit_failure_threshold ≤ℤ pos 2147483647
    → IsValid (new_producer cfg) × ((new_producer cfg).dlq_dir ≢ [])
unfolding new_producer
new_producer-IsValid none fits = ground arith
new_producer-IsValid (some c) fits = ground arith

pub start_async-IsValid : (p : Producer) → IsValid p → IsValid (start_async p)
unfolding start_async
start_async-IsValid p v = ground arith

pub close-IsValid : (p : Producer) (w : World) → IsValid p → IsValid (close p w).0
unfolding close
close-IsValid p w v = ground arith
