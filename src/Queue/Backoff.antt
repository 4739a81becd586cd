-- ===== src/Queue/Backoff.antt =====
-- The run of the consume loop of internal/queue/kafka_queue_consumer.go: its delays, the messages
-- that it hands on, and what it reports.
use log_forge.Prelude.{
  ℕ, suc, ◌+◌, ◌*◌, ◌^◌, ◌≡◌, refl, ap, sym, ◌∙◌, Bool, true, false, Option, none, some, List, [],
  ◌∷◌, All, arith, if◌then◌else◌,
}
use Prim.Native.Nat.{min}
use log_forge.Prelude.Int.{ℤ, pos, is_nonpos}
use log_forge.Errors.{Err, is, canceled, deadline_exceeded, done, failed}
use log_forge.Model.{ConsumedMessage}
use log_forge.World.{World, warn, log_line}
use log_forge.Retry.{wait_for_retry, jitter_retry_delay, next_retry_delay}
use log_forge.Retry.Bounds.{iterate_delay, iterate_delay-eq-min}
use log_forge.Queue.{
  KafkaQueue, Fetch, broken, fetched, consume, mark_kafka_down, mark_kafka_up, retry_min_backoff,
  retry_max_backoff,
}

-- The loop goes on after this answer: the context is not done, and no wait is cut short.
abbrev pub GoesOn : Fetch → Type 0
GoesOn (broken e ctx_err now rng wait_err fires) =
    (is e canceled ≡ false)
    × (is e deadline_exceeded ≡ false)
    × (ctx_err ≡ none)
    × (wait_err ≡ none)
    × (fires ≡ true)
GoesOn (fetched partition offset value answer) = Unit

-- The delay after `k` failures in a row: 250 ms times 2^k, and 5 s at most.
abbrev pub backoff : ℕ → ℤ
backoff k = pos (min (250000000 * 2 ^ k) 5000000000)

-- The failures since the last message, from `k` on.
abbrev pub streak : ℕ → List Fetch → ℕ
streak k [] = k
streak k (broken e c now rng wait_err fires ∷ fetches) = streak (suc k) fetches
streak k (fetched partition offset value answer ∷ fetches) = streak 0 fetches

-- The messages whose value parses.
abbrev pub well_formed : List Fetch → List ConsumedMessage
well_formed [] = []
well_formed (broken e c now rng wait_err fires ∷ fetches) = well_formed fetches
well_formed (fetched partition offset (failed e) answer ∷ fetches) = well_formed fetches
well_formed (fetched partition offset (done rec) answer ∷ fetches) =
    (record { log_record = rec; partition = partition; offset = offset; commit = some answer })
    ∷ well_formed fetches

-- The duration of a wait: the delay with its jitter, if that is positive.
abbrev pub jittered : ℤ → (ℕ → ℕ) → ℤ
jittered delay rng = let d = jitter_retry_delay delay (some rng) in if is_nonpos d then pos 0 else d

-- The waits, from `k` failures in a row on: each is 250 ms doubled for each failure before it in a row,
-- and 5 s at most, with its jitter.
abbrev pub waits_from : ℕ → List Fetch → List ℤ
waits_from k [] = []
waits_from k (broken e c now rng wait_err fires ∷ fetches) =
    jittered (backoff k) rng ∷ waits_from (suc k) fetches
waits_from k (fetched partition offset value answer ∷ fetches) = waits_from 0 fetches

abbrev pub failures : List Fetch → ℕ
failures [] = 0
failures (broken e c now rng wait_err fires ∷ fetches) = suc (failures fetches)
failures (fetched partition offset value answer ∷ fetches) = failures fetches

-- Whether the last answer was a failure.
abbrev pub down_after : Bool → List Fetch → Bool
down_after down [] = down
down_after down (broken e c now rng wait_err fires ∷ fetches) = down_after true fetches
down_after down (fetched partition offset value answer ∷ fetches) = down_after false fetches

abbrev pub consumer_errors : World → ℕ
consumer_errors w = w.metrics.kafka_consumer_errors

next-backoff :
    (k : ℕ) → next_retry_delay (backoff k) retry_min_backoff retry_max_backoff ≡ backoff (suc k)
unfolding iterate_delay
next-backoff k =
    let now =
      iterate_delay-eq-min k 250000000 5000000000 (omega arith) (omega arith) (omega arith) in
    let later =
      iterate_delay-eq-min (suc k) 250000000 5000000000 (omega arith) (omega arith) (omega arith) in
    ap (λ (d : ℤ). next_retry_delay d retry_min_backoff retry_max_backoff) (sym now) ∙ later

mark_kafka_down_effect :
    (now : ℕ) (q : KafkaQueue) (w : World)
    → let r = mark_kafka_down now q w in
      (r.0.kafka_down ≡ true) × (consumer_errors r.1 ≡ suc (consumer_errors w))
unfolding mark_kafka_down
mark_kafka_down_effect now q w = ground arith

mark_kafka_up_effect :
    (q : KafkaQueue) (w : World)
    → let r = mark_kafka_up q w in
      (r.0.kafka_down ≡ false) × (consumer_errors r.1 ≡ consumer_errors w)
unfolding mark_kafka_up
mark_kafka_up_effect q w = ground arith

consume_broken :
    (e : Err) (c : Option Err) (now : ℕ) (rng : ℕ → ℕ) (wait_err : Option Err) (fires : Bool)
    (fetches : List Fetch) (delay : ℤ) (q : KafkaQueue) (w : World)
    → GoesOn (broken e c now rng wait_err fires)
    → let r = mark_kafka_down now q w in
      let rest =
        consume fetches (next_retry_delay delay retry_min_backoff retry_max_backoff) r.0 r.1 in
      consume (broken e c now rng wait_err fires ∷ fetches) delay q w
      ≡ (rest.0, rest.1, rest.2, rest.3, jittered delay rng ∷ rest.4)
unfolding consume wait_for_retry
consume_broken e c now rng wait_err fires fetches delay q w (a, b, d, f, g) = ground arith

-- While no context ends the loop, starting after `k` failures: each wait lasts 250 ms doubled for each
-- failure since the last message, and 5 s at most, with its jitter, and the delay that is left is the
-- next of these, without jitter; the handler
-- is given exactly the messages whose value parses, in order; every failure is counted, and the
-- queue is marked down exactly if the last answer was a failure.
pub consume_run :
    (fetches : List Fetch) (k : ℕ) (q : KafkaQueue) (w : World)
    → All GoesOn fetches
    → let r = consume fetches (backoff k) q w in
      (r.0 ≡ backoff (streak k fetches))
      × (r.3 ≡ well_formed fetches)
      × (r.1.kafka_down ≡ down_after q.kafka_down fetches)
      × (consumer_errors r.2 ≡ consumer_errors w + failures fetches)
      × (r.4 ≡ waits_from k fetches)
unfolding consume log_line
consume_run [] k q w h = (refl, refl, refl, omega arith, refl)
consume_run (broken e c now rng wait_err fires ∷ fetches) k q w h =
    let r = mark_kafka_down now q w in
    let (down, counted) = mark_kafka_down_effect now q w in
    let later = consume_run fetches (suc k) r.0 r.1 h.1 in
    rw (consume_broken e c now rng wait_err fires fetches (backoff k) q w h.0, next-backoff k)
      (
        later.0,
        later.1,
        later.2 ∙ ap (λ (d : Bool). down_after d fetches) down,
        omega (arith, later.3, counted),
        ap (λ (l : List ℤ). jittered (backoff k) rng ∷ l) later.4,
      )
consume_run (fetched partition offset (failed e) answer ∷ fetches) k q w h =
    let r = mark_kafka_up q w in
    let (up, same) = mark_kafka_up_effect q w in
    let w' = log_line warn "discard malformed kafka message" r.1 in
    let later = consume_run fetches 0 r.0 w' h.1 in
    let logged : consumer_errors w' ≡ consumer_errors r.1 = refl in
    (
      later.0,
      later.1,
      later.2 ∙ ap (λ (d : Bool). down_after d fetches) up,
      omega (arith, later.3, logged, same),
      later.4,
    )
consume_run (fetched partition offset (done rec) answer ∷ fetches) k q w h =
    let r = mark_kafka_up q w in
    let (up, same) = mark_kafka_up_effect q w in
    let later = consume_run fetches 0 r.0 r.1 h.1 in
    let msg : ConsumedMessage = record {
      log_record = rec;
      partition = partition;
      offset = offset;
      commit = some answer;
    } in
    (
      later.0,
      ap (λ (l : List ConsumedMessage). msg ∷ l) later.1,
      later.2 ∙ ap (λ (d : Bool). down_after d fetches) up,
      omega (arith, later.3, same),
      later.4,
    )
