-- ===== src/Consumer/Service.antt =====
-- service/consumer.go: ConsumerService, which starts and stops the writer once.
use log_forge.Prelude.{ℕ, ◌+◌, Bool, true, false, Option, none, some, if◌then◌else◌}
use log_forge.Text.{codes}
use log_forge.Errors.{Err, message}
use log_forge.World.{World}
use log_forge.Producer.Publish.{DlqAnswers}
use log_forge.Ingestion.{RepositoryOps}
use log_forge.Consumer.Batching.{ConsumerBatchConfig, Writer, new_writer, close}

-- `closer_runs` counts the calls of `closer`, where there is one.
pub record ConsumerService (R : Type 0) : Type 0 where
  pub has_queue : Bool
  pub repo : R
  pub cfg : ConsumerBatchConfig
  pub has_closer : Bool
  pub closer_runs : ℕ
  pub writer : Option (Writer R)
  pub start_once : Bool
  pub start_err : Option Err
  pub close_once : Bool

-- `NewConsumerService`.
unfoldable pub new_consumer_service :
    {R : Type 0} → Bool → R → ConsumerBatchConfig → Bool → ConsumerService R
new_consumer_service has_queue repo cfg has_closer = record {
  has_queue = has_queue;
  repo = repo;
  cfg = cfg;
  has_closer = has_closer;
  closer_runs = 0;
  writer = none;
  start_once = false;
  start_err = none;
  close_once = false;
}

module _ {R : Type 0} (repository : RepositoryOps R) where
  -- `Start`, where `StartConsumers` of the queue answers `answer`. The result is `startErr`.
  unfoldable pub start_service : Option Err → ConsumerService R → ConsumerService R × Option Err
  unfolding new_writer
  start_service answer c =
      if c.start_once
      then (c, c.start_err)
      else let c' = record c { start_once = true } in
        if c.has_queue
        then elim answer [
          | none ↦ (record c' { writer = some (new_writer c.repo c.cfg) }, c.start_err)
          -- The new writer is closed with nothing pending, and dropped.
          | some e ↦ (record c' { start_err = some e; writer = none }, some e)
        ]
        else (let e = message (codes "log queue not configured") in
            (record c' { start_err = some e }, some e))

  -- `Close`.
  unfoldable pub close_service : DlqAnswers → ConsumerService R → World → ConsumerService R × World
  unfolding close
  close_service a c w =
      if c.close_once
      then (c, w)
      else let runs = if c.has_closer then c.closer_runs + 1 else c.closer_runs in
        let c' = record c { close_once = true; closer_runs = runs } in
        elim c.writer [
          | none ↦ (c', w)
          | some wr ↦
              let (wr', w') = close repository a wr w in (record c' { writer = some wr' }, w')
        ]
