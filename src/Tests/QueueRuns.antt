-- ===== src/Tests/QueueRuns.antt =====
-- A run of the consume loop of internal/queue/kafka_queue_consumer.go.
use log_forge.Prelude.{ℕ, ◌+◌, ◌≡◌, ◌↔◌, refl, true, false, Option, none, List, [], ◌∷◌}
use log_forge.Prelude.Int.{pos}
use log_forge.Text.{Text, codes}
use log_forge.Errors.{Err, is, done, failed}
use log_forge.Queue.{KafkaQueue, Fetch, broken, fetched, consume, no_codec, check_connectivity}
use log_forge.Queue.Backoff.{
  GoesOn, backoff, streak, well_formed, failures, waits_from, down_after, consumer_errors,
  consume_run,
}
use log_forge.Queue.Connect.{Finds, check_connectivity_iff}
use log_forge.Tests.Samples.{empty_world, home_visit, refusal}

abbrev queue : KafkaQueue
queue = record {
  brokers = codes "kafka:9092" ∷ [];
  topic = codes "logs";
  group_id = codes "logs-consumer-group";
  consumers = pos 1;
  batch_size = pos 100;
  batch_bytes = pos 0;
  batch_timeout = pos 1000000000;
  async = false;
  require_all_acks = false;
  codec = no_codec;
  kafka_down = false;
  last_down_log_ns = 0;
  last_writer_log_ns = 0;
}

abbrev outage : ℕ → Fetch
outage now = broken refusal none now (λ n. 0) none true

-- An outage, a message, one that does not parse, and a longer outage.
abbrev fetches : List Fetch
fetches =
    outage 1
    ∷ fetched 0 7 (done home_visit) none
    ∷ fetched 0 8 (failed refusal) none
    ∷ outage 2
    ∷ outage 3
    ∷ []

consume_run_example :
    let r = consume fetches (backoff 0) queue empty_world in
    (r.0 ≡ backoff (streak 0 fetches))
    × (r.3 ≡ well_formed fetches)
    × (r.1.kafka_down ≡ down_after queue.kafka_down fetches)
    × (consumer_errors r.2 ≡ consumer_errors empty_world + failures fetches)
    × (r.4 ≡ waits_from 0 fetches)
unfolding is
consume_run_example =
    let goes_on : GoesOn (outage 1) = (refl, refl, refl, refl, refl) in
    consume_run fetches 0 queue empty_world (goes_on, (tt, (tt, (goes_on, (goes_on, tt)))))

-- Two failures since the last message: the next wait is four times the first.
waits : backoff (streak 0 fetches) ≡ pos 1000000000
waits = refl

-- A dialer that reaches every broker.
abbrev reachable : Text → Option Err × Option Err
reachable broker = (none, none)

check_connectivity_iff_example :
    ((check_connectivity reachable queue empty_world).2 ≡ none) ↔ Finds reachable queue.brokers
check_connectivity_iff_example = check_connectivity_iff reachable queue empty_world
