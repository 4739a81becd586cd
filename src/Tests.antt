-- ===== src/Tests.antt =====
-- Concrete runs: each theorem about a component is applied to sample data.
mod Samples
mod RetryRuns
mod ProducerRuns
mod PoolRuns
mod IngestionRuns
mod HttpRuns
mod ConsumerRuns
mod ConfigRuns
mod QueueRuns
mod FileRuns
mod AggregationRuns
mod ObjectRuns
mod BootstrapRuns
mod ProfilingRuns
