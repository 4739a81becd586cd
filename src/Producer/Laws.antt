-- ===== src/Producer/Laws.antt =====
-- What is proved of service/producer.go, by subject.
pub mod Setup
pub mod Rounds
pub mod Posts
pub mod Letters
pub mod Invariant
pub mod Breaker
pub mod Delivery
pub mod Buffer
pub mod Frame
