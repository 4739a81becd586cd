-- ===== src/Queue.antt =====
-- internal/queue: KafkaLogQueue. The client of Kafka is package kafka-go: what its reader, its writer
-- and its dialer answer is an argument. One goroutine consumes at a time here; the field
-- `activeConsumers` only shows in debug logs, which are left out.
pub mod Backoff
pub mod Connect
use log_forge.Prelude.{
  ℕ, ◌+◌, ◌*◌, Bool, true, false, Option, none, some, List, [], ◌∷◌, ◌||◌, is_none, not, map,
  if◌then◌else◌, ltb, is_empty,
}
use log_forge.Prelude.Int.{ℤ, pos, is_zero, is_nonpos}
use log_forge.Text.{Text, codes, trim_space, to_lower, text_eq}
use log_forge.Errors.{Err, is, message, wrap, Result, done, failed, canceled, deadline_exceeded}
use log_forge.Model.{LogRecord, ConsumedMessage}
use log_forge.World.{
  World, warn, info, log_line, inc_kafka_consumer_errors, inc_kafka_writer_errors, set_kafka_up,
}
use log_forge.Retry.{wait_for_retry, jitter_retry_delay, next_retry_delay}
use log_forge.Config.{KafkaSettings}

pub data Codec : Type 0 where
  no_codec gzip snappy lz4 zstd : Codec

-- What is kept of the reader's and the writer's settings, and the state of the logging.
pub record KafkaQueue : Type 0 where
  pub brokers : List Text
  pub topic : Text
  pub group_id : Text
  pub consumers : ℤ
  pub batch_size : ℤ
  pub batch_bytes : ℤ
  pub batch_timeout : ℤ
  pub async : Bool
  pub require_all_acks : Bool
  pub codec : Codec
  pub kafka_down : Bool
  pub last_down_log_ns : ℕ
  pub last_writer_log_ns : ℕ

-- `compressionCodec`.
unfoldable pub compression_codec : Text → Codec
compression_codec name =
    let n = to_lower (trim_space name) in
    if text_eq n (codes "gzip")
    then gzip
    else if text_eq n (codes "snappy")
    then snappy
    else if text_eq n (codes "lz4")
    then lz4
    else if text_eq n (codes "zstd") || text_eq n (codes "zstandard")
    then zstd
    else no_codec

-- `NewKafkaLogQueue`.
unfoldable pub new_queue : KafkaSettings → Result KafkaQueue
new_queue cfg =
    if is_empty cfg.brokers
    then failed (message (codes "kafka brokers must be provided"))
    else done (record {
      brokers = cfg.brokers;
      topic = if is_empty cfg.topic then codes "logs" else cfg.topic;
      group_id = if is_empty cfg.group_id then codes "logs-consumer-group" else cfg.group_id;
      consumers = if is_nonpos cfg.consumers then pos 1 else cfg.consumers;
      batch_size = if is_zero cfg.batch_size then pos 100 else cfg.batch_size;
      batch_bytes = cfg.batch_bytes;
      batch_timeout = if is_zero cfg.batch_timeout then pos 1000000000 else cfg.batch_timeout;
      async = cfg.async;
      require_all_acks = cfg.require_all_acks;
      codec = compression_codec cfg.compression;
      kafka_down = false;
      last_down_log_ns = 0;
      last_writer_log_ns = 0;
    })

-- `markKafkaDown` at the clock reading `now`.
unfoldable pub mark_kafka_down : ℕ → KafkaQueue → World → KafkaQueue × World
unfolding inc_kafka_consumer_errors set_kafka_up log_line
mark_kafka_down now q w =
    let w' = set_kafka_up false (inc_kafka_consumer_errors w) in
    if not q.kafka_down
    then (
      record q { kafka_down = true; last_down_log_ns = now },
      log_line warn "kafka became unavailable" w',
    )
    else if ltb now (q.last_down_log_ns + 5 * 1000000000)
    then (q, w')
    else (record q { last_down_log_ns = now }, log_line warn "kafka still unavailable" w')

-- `markKafkaUp`.
unfoldable pub mark_kafka_up : KafkaQueue → World → KafkaQueue × World
unfolding set_kafka_up log_line
mark_kafka_up q w =
    let w' = set_kafka_up true w in
    if q.kafka_down
    then (record q { kafka_down = false }, log_line info "kafka connectivity recovered" w')
    else (q, w')

-- `logWriterError` at the clock reading `now`.
unfoldable pub log_writer_error : ℕ → KafkaQueue → World → KafkaQueue × World
unfolding inc_kafka_writer_errors set_kafka_up log_line
log_writer_error now q w =
    let w' = set_kafka_up false (inc_kafka_writer_errors w) in
    if ltb now (q.last_writer_log_ns + 30 * 1000000000) then (q, w') else (
      record q { last_writer_log_ns = now },
      log_line warn "kafka writer internal error (suppressed)" w',
    )

-- What `FetchMessage` answers in one round of `consume`. A failure comes with `ctx.Err()` then, the
-- clock reading, the random source of the jitter, and `ctx.Err()` and the channel that fires first
-- during the wait; a message with the result of parsing its value and the answer to a commit.
pub data Fetch : Type 0 where
  broken : Err → Option Err → ℕ → (ℕ → ℕ) → Option Err → Bool → Fetch
  fetched : ℕ → ℕ → Result LogRecord → Option Err → Fetch

abbrev pub retry_min_backoff : ℤ
retry_min_backoff = pos 250000000

abbrev pub retry_max_backoff : ℤ
retry_max_backoff = pos 5000000000

-- The loop of `consume` over the answers of the reader: the retry delay at the end, the messages that
-- the handler was given, in order, and the durations of the waits, in order.
unfoldable pub consume :
    List Fetch → ℤ → KafkaQueue → World → ℤ × KafkaQueue × World × List ConsumedMessage × List ℤ
unfolding mark_kafka_down mark_kafka_up log_line
consume [] delay q w = (delay, q, w, [], [])
consume (broken e ctx_err now rng wait_err fires ∷ fetches) delay q w =
    let (q', w') = mark_kafka_down now q w in
    let rest = consume fetches (next_retry_delay delay retry_min_backoff retry_max_backoff) q' w' in
    if is e canceled || is e deadline_exceeded || not (is_none ctx_err)
    then (delay, q, w, [], [])
    else let (timer, over) = wait_for_retry wait_err fires (jitter_retry_delay delay (some rng)) in
      if over
      then (rest.0, rest.1, rest.2, rest.3, timer ∷ rest.4)
      else (delay, q', w', [], timer ∷ [])
consume (fetched partition offset (failed e) commit_answer ∷ fetches) delay q w =
    let (q', w') = mark_kafka_up q w in
    consume fetches retry_min_backoff q' (log_line warn "discard malformed kafka message" w')
consume (fetched partition offset (done rec) commit_answer ∷ fetches) delay q w =
    let (q', w') = mark_kafka_up q w in
    let msg : ConsumedMessage = record {
      log_record = rec;
      partition = partition;
      offset = offset;
      commit = some commit_answer;
    } in
    let (delay', q'', w'', handled, waits) = consume fetches retry_min_backoff q' w' in
    (delay', q'', w'', msg ∷ handled, waits)

-- The loop of `CheckConnectivity`; each broker comes with `ctx.Err()` before it is dialed, and with
-- the dialer's answer.
unfoldable pub dial_brokers :
    List (Option Err × Option Err)
    → Option Err
    → KafkaQueue
    → World
    → KafkaQueue × World × Option Err
unfolding set_kafka_up
dial_brokers [] none q w =
    (q, w, some (wrap (codes "dial kafka brokers: ") (message (codes "no brokers to dial"))))
dial_brokers [] (some e) q w = (q, w, some (wrap (codes "dial kafka brokers: ") e))
dial_brokers ((some stop, answer) ∷ brokers) last q w = (q, w, some stop)
dial_brokers ((none, some e) ∷ brokers) last q w = dial_brokers brokers (some e) q w
dial_brokers ((none, none) ∷ brokers) last q w =
    (record q { kafka_down = false }, set_kafka_up true w, none)

-- `CheckConnectivity`.
unfoldable pub check_connectivity :
    (Text → Option Err × Option Err) → KafkaQueue → World → KafkaQueue × World × Option Err
unfolding dial_brokers
check_connectivity answers q w =
    if is_empty q.brokers
    then (q, w, some (message (codes "kafka brokers not configured")))
    else dial_brokers (map answers q.brokers) none q w

-- The loop of `EnqueueBatch`, which encodes the records.
unfoldable pub encode_all : (LogRecord → Result Text) → List LogRecord → Result (List Text)
encode_all encode [] = done []
encode_all encode (rec ∷ records) = elim (encode rec) [
  | failed e ↦ failed e
  | done value ↦ elim (encode_all encode records) [
    | failed e ↦ failed e
    | done values ↦ done (value ∷ values)
  ]
]

-- `EnqueueBatch`: what is written, if anything, and the result.
unfoldable pub enqueue_batch :
    (LogRecord → Result Text)
    → (List Text → Option Err)
    → List LogRecord
    → Option (List Text) × Option Err
unfolding encode_all
enqueue_batch encode write records =
    if is_empty records then (none, none) else elim (encode_all encode records) [
      | failed e ↦ (none, some e)
      | done values ↦ (some values, write values)
    ]
