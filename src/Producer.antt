-- ===== src/Producer.antt =====
-- service/producer.go: ProducerService, a bounded buffer in front of the queue with retries, a
-- circuit breaker and a dead-letter directory. The state and its parts are here; the children hold
-- the operations (Circuit, Enqueue, Publish, their
-- interleavings in Pool) and what is proved of them.
-- A method takes the state and the world and gives both back; what time.Now, the queue and the
-- context answer during a call is an argument.
mod State
pub mod Circuit
pub mod Publish
pub mod Enqueue
pub mod Pool
pub mod Laws
pub use State.{Batch, ProducerConfig, Producer, Return, ok, fail, panic}
unfoldable pub use State.{resolve, new_producer, start_async, close}
