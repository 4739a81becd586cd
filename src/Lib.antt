-- ===== src/Lib.antt =====
-- log_forge takes log records over HTTP and stores them. A request goes through the handler
-- (internal/http/handler.go) to the ingestion service (service/ingestion.go). In direct mode the
-- service saves the batch in the repository at once. In queue mode it hands the batch to the
-- producer service (service/producer.go), which buffers it, publishes it to Kafka with retries
-- behind a circuit breaker, and writes what it cannot publish to a dead-letter directory; the
-- consumer service (service/consumer.go) gathers the consumed messages into batches for the
-- repository, commits those that were stored, and writes the others to its own dead-letter
-- directory. config/config.go holds the settings of all parts.
--
-- The files, and the code that they model:
-- - Prelude: shared names, lists, tests, and Go's signed integers. Prelude/Weights counts the
--   elements of lists.
-- - Text: the functions of package strings that the program uses, over lists of runes.
-- - Errors: the error variables, wrapping, errors.Is and errors.As, by the chain of wrapped
--   errors.
-- - Model, World: model/model.go; the counters of internal/metrics/metrics.go, the log, the
--   dead-letter files, the batches that the queue took and the commits of the broker, which
--   every component shares.
-- - Retry: util/retry.go over int64 with wrap-around. Retry/Bounds has its bounds.
-- - Producer: service/producer.go. Producer/State is the struct, NewProducerService
--   (new_producer), StartAsync and Close; Producer/Circuit the circuit breaker and the error
--   logging; Producer/Publish tryEnqueueWithRetry, EnqueueSync, a round of runProducer and
--   writeProducerDLQ; Producer/Enqueue is Enqueue, cut between its guards and its send.
--   Producer/Pool puts callers, workers, StartAsync and Close together as a step relation.
--   What is proved is in Producer/Laws and below Producer/Pool.
-- - Ingestion: service/ingestion.go over the interfaces repo.Repository (RepositoryOps) and
--   service.Producer (ProducerOps). Ingestion/Laws holds for all of their implementations that
--   leave two counters alone, and Ingestion/Backends fills the second with the producer
--   service.
-- - Http: internal/http/handler.go. Http/Decode has decodeRecords, decodeJSON, decodeCSV and
--   validate, Http/Auth the API keys, Http itself handleLogs.
-- - Consumer: service/consumer.go. Consumer/Batching is consumerBatchWriter, Consumer/Service
--   the service around it. Consumer/Sink puts the calls of Add, the flush loop, Close and the
--   batches that are persisted outside the lock together as a step relation;
--   Consumer/Sink/Recording is a repository that keeps what it was given. What is proved is
--   below Consumer/Sink.
-- - Config: config/config.go. Config/Settings has the sections, Config/Defaults applyDefaults,
--   validate, Load and AggregationInterval.
-- - Queue: internal/queue: the settings and state of KafkaLogQueue, consume over the answers
--   of a reader, CheckConnectivity, EnqueueBatch. Queue/Backoff is about a run of consume,
--   Queue/Connect about the dialing.
-- - Dict: Go's maps and the names of files, as association lists.
-- - Calendar: time.Format and time.Parse with the layouts of util/constant.go.
--   Calendar/RoundTrip is about the two together.
-- - FileRepo: repo/file_repo.go. log_path is the file of an hour; save_batch is SaveBatch,
--   over group_records, append_groups and append_records. FileRepo/Stores, FileRepo/Batch and
--   FileRepo/Growth have what a call leaves in the files.
-- - Scan: the loop over bufio.Scanner that both aggregations share, with its limit of 1 MiB
--   for a line, and the maps of counts.
-- - Aggregation: service/aggregation.go. aggregate_file is aggregateFile, aggregate_all
--   AggregateAll over the entries of the walk, start the goroutine of Start.
--   Aggregation/Stored puts the file repository and the aggregation together.
-- - Slash: strings.Split, path.Clean and path.Join on texts with slashes. Slash/Ends is about
--   the last parts of a path.
-- - ObjectRepo: repo/minio_repo.go over a bucket by its keys. save_batch is SaveBatch,
--   new_shard_object_key newShardObjectKey, list_log_objects ListLogObjects;
--   ObjectRepo/Options is NewMinIORepo (new_object_repo). ObjectRepo/Keys, ObjectRepo/Fresh
--   and ObjectRepo/Saves are about the keys.
-- - ObjectAggregation: service/minio_aggregation.go; its writeSummary is the one of
--   Aggregation.
-- - Bootstrap: cmd/bootstrap/app.go. build_app is BuildApp, cut into build_store, build_queue
--   and assemble, on the settings of Bootstrap/Settings; Bootstrap/Endpoints has the endpoints
--   /ready (serve_ready), /version and /health, with the checks of Bootstrap/Checks. What is
--   proved is in Bootstrap/Wiring and Bootstrap/Readiness.
-- - Profiling: util/profile.go and util/env.go. with_profiling is WithProfiling.
-- - Tests: runs on sample data.
--
-- A method is a function of the state, the world and its arguments that gives back the new state
-- and world. The queue is kept as the batches that it took. What the clock, a context, the
-- queue, the file system or a decoder answers during a call is an argument, so that a statement
-- for all arguments holds whatever they answer. A panic is a result of its own.
--
-- Bounds. Durations, times and counters have the width of the source where it wraps: int64 in
-- util/retry.go and for the number of attempts, int32 for the breaker's failures, uint64 for the
-- suppressed events. Clock readings are natural numbers: the program runs after 1970, and
-- UnixNano is undefined past 2262. No function runs on fuel but decimal (of Text), whose fuel is
-- its argument plus one, more than the number has digits; the retry loop counts its own rounds
-- down. Years of file names lie between 0 and 9999 where a statement says so: a later year has
-- five digits, which the layout does not parse. The float64 of the high-water mark counts
-- millionths, and decides on a warning only.
--
-- Not modelled: the deadlines of contexts, which act on the queue and the repository and show as
-- their answers; the fields of log lines; locks, as every operation under one is a single step.
-- The Prometheus client, the YAML parser, encoding/json, encoding/csv, RFC 3339 in time.Parse
-- and kafka-go are libraries. The adapter around minio-go in repo/minio_repo.go only calls that
-- library. Of cmd/, App.Run, the set-up of the logger and of profiling, and main are input and
-- output, as are the loggers and, of util/profile.go, MaybeStartPprof. The action of
-- WithProfiling changes the world of the model only.
pub mod Prelude
pub mod Text
pub mod Errors
pub mod Model
pub mod World
pub mod Calendar
pub mod Retry
pub mod Producer
pub mod Ingestion
pub mod Http
pub mod Consumer
pub mod Dict
pub mod FileRepo
pub mod Scan
pub mod Slash
pub mod ObjectRepo
pub mod ObjectAggregation
pub mod Bootstrap
pub mod Profiling
pub mod Aggregation
pub mod Queue
pub mod Config
pub mod Tests
