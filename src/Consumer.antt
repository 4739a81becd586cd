-- ===== src/Consumer.antt =====
-- service/consumer.go: consumerBatchWriter, which gathers consumed messages into batches for the
-- repository, and ConsumerService around it. Batching has the operations, each with no other goroutine
-- in between; Sink cuts them at the lock, as the source guards `pending` by a mutex and persists a
-- batch outside it.
mod Batching
mod Service
pub mod Sink
pub use Batching.{ConsumerBatchConfig, Writer}
unfoldable pub use Batching.{
  new_writer, after_commit, commit_all, write_dlq, append_pending, take_pending, persist, add,
  flush, close,
}
pub use Service.{ConsumerService}
unfoldable pub use Service.{new_consumer_service, start_service, close_service}
