-- ===== src/Producer/State.antt =====
-- The record of service/producer.go, its construction with defaults, StartAsync and Close.
use log_forge.Prelude.{
  ℕ, ◌+◌, ◌*◌, Bool, true, false, Option, none, some, List, [], if◌then◌else◌, is_empty,
}
use log_forge.Prelude.Int.{ℤ, pos, pos_part, is_pos, ltb_ℤ}
use log_forge.Text.{Text, codes}
use log_forge.Errors.{Err}
use log_forge.Model.{LogRecord}
use log_forge.World.{World, set_ingestion_queue_depth}

abbrev pub Batch : Type 0
Batch = List LogRecord

-- How a call of the producer ends. Sending on a closed channel panics.
pub data Return : Type 0 where
  ok panic : Return
  fail : Err → Return

-- `queue_high_water_percent` is a float64 in the source; here it counts millionths, and it decides
-- on a warning only.
pub record ProducerConfig : Type 0 where
  pub queue_buffer_size : ℤ
  pub workers : ℤ
  pub write_timeout : ℤ
  pub queue_high_water_percent : ℤ
  pub max_retries : ℤ
  pub retry_backoff : ℤ
  pub dlq_dir : Text
  pub circuit_failure_threshold : ℤ
  pub circuit_cooldown : ℤ

-- Clock readings are `time.Now().UTC().UnixNano()` as a number: the program runs after 1970, and
-- past the year 2262 UnixNano is documented to be undefined.
pub record Producer : Type 0 where
  -- `workCh`: its capacity, what it buffers (oldest first), and whether it is closed.
  pub capacity : ℕ
  pub work_ch : List Batch
  pub ch_closed : Bool
  -- The worker goroutines that `StartAsync` has started.
  pub running : ℕ
  -- `startOnce`, `closeOnce`, `closed`, `started`, and whether `cancel` was called on `ctx`.
  pub start_once : Bool
  pub close_once : Bool
  pub closed : Bool
  pub started : Bool
  pub ctx_canceled : Bool
  pub workers : ℤ
  pub write_timeout : ℤ
  pub queue_high_water_percent : ℤ
  pub max_retries : ℤ
  pub retry_backoff : ℤ
  pub dlq_dir : Text
  pub circuit_failure_threshold : ℤ
  pub circuit_cooldown : ℤ
  -- An int32.
  pub consecutive_failures : ℤ
  pub circuit_open_until_ns : ℕ
  pub last_transient_error_log_ns : ℕ
  -- A uint64.
  pub transient_error_events : ℕ

abbrev pub second : ℕ
second = 1000000000

abbrev pub millisecond : ℕ
millisecond = 1000000

-- The configured value if it is positive, the default otherwise.
abbrev or_default : ℤ → ℤ → ℤ
or_default v d = if is_pos v then v else d

abbrev defaults : ProducerConfig
defaults = record {
  queue_buffer_size = pos 10000;
  workers = pos 10;
  write_timeout = pos (10 * second);
  queue_high_water_percent = pos 900000;
  max_retries = pos 3;
  retry_backoff = pos (200 * millisecond);
  dlq_dir = codes "dlq/producer";
  circuit_failure_threshold = pos 5;
  circuit_cooldown = pos (10 * second);
}

-- The local variables of `NewProducerService` after `if cfg != nil`. Zero retries are accepted.
unfoldable pub resolve : Option ProducerConfig → ProducerConfig
resolve none = defaults
resolve (some c) = record {
  queue_buffer_size = or_default c.queue_buffer_size defaults.queue_buffer_size;
  workers = or_default c.workers defaults.workers;
  write_timeout = or_default c.write_timeout defaults.write_timeout;
  queue_high_water_percent =
      or_default c.queue_high_water_percent defaults.queue_high_water_percent;
  max_retries = if ltb_ℤ c.max_retries (pos 0) then defaults.max_retries else c.max_retries;
  retry_backoff = or_default c.retry_backoff defaults.retry_backoff;
  dlq_dir = if is_empty c.dlq_dir then defaults.dlq_dir else c.dlq_dir;
  circuit_failure_threshold =
      or_default c.circuit_failure_threshold defaults.circuit_failure_threshold;
  circuit_cooldown = or_default c.circuit_cooldown defaults.circuit_cooldown;
}

-- `NewProducerService`.
unfoldable pub new_producer : Option ProducerConfig → Producer
unfolding resolve
new_producer cfg =
    let c = resolve cfg in
    record {
      capacity = pos_part c.queue_buffer_size;
      work_ch = [];
      ch_closed = false;
      running = 0;
      start_once = false;
      close_once = false;
      closed = false;
      started = false;
      ctx_canceled = false;
      workers = c.workers;
      write_timeout = c.write_timeout;
      queue_high_water_percent = c.queue_high_water_percent;
      max_retries = c.max_retries;
      retry_backoff = c.retry_backoff;
      dlq_dir = c.dlq_dir;
      circuit_failure_threshold = c.circuit_failure_threshold;
      circuit_cooldown = c.circuit_cooldown;
      consecutive_failures = pos 0;
      circuit_open_until_ns = 0;
      last_transient_error_log_ns = 0;
      transient_error_events = 0;
    }

-- `StartAsync`.
unfoldable pub start_async : Producer → Producer
start_async p =
    if p.start_once
    then p
    else record p { start_once = true; running = p.running + pos_part p.workers; started = true }

-- `Close` up to `wg.Wait()`, which then blocks until `running` is 0. `workCh` and `cancel` are
-- never nil after `NewProducerService`.
unfoldable pub close : Producer → World → Producer × World
unfolding set_ingestion_queue_depth
close p w = if p.close_once then (p, w) else (
  record p { close_once = true; closed = true; ch_closed = true; ctx_canceled = true },
  set_ingestion_queue_depth (pos 0) w,
)
