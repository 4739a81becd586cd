-- ===== src/Tests/ProducerRuns.antt =====
-- Runs of the producer of service/producer.go.
use log_forge.Prelude.{
  ◌+◌, ◌≤◌, ◌<◌, ◌≡◌, ◌↔◌, refl, true, false, Option, none, [], ◌∷◌, length, ltb,
}
use log_forge.Prelude.Int.{pos, pos_part}
use log_forge.Errors.{Err}
use log_forge.Producer.{Producer, ok, new_producer, start_async, resolve}
use log_forge.Producer.Circuit.{log_enqueue_failure, is_circuit_open, on_enqueue_failure}
use log_forge.Producer.Publish.{max_attempts, try_enqueue_with_retry, try_loop, after_failure}
use log_forge.Producer.Enqueue.{enqueue}
use log_forge.Producer.Laws.Delivery.{
  Succeeds, breaker, ingest_errors, try_enqueue_delivers_iff, try_enqueue_exhausted,
}
use log_forge.Producer.Laws.Breaker.{fail_all, breaker_trips}
use log_forge.Producer.Laws.Buffer.{Buffers, enqueue_accepts_iff}
use log_forge.Tests.Samples.{
  empty_world, one_batch, started, started-IsValid, refusing, taking_second,
}

try_enqueue_delivers_iff_example :
    ((try_enqueue_with_retry taking_second one_batch started empty_world).2 ≡ none)
    ↔ Succeeds taking_second 1 (max_attempts started)
try_enqueue_delivers_iff_example =
    try_enqueue_delivers_iff taking_second one_batch started empty_world

-- One retry is enough for a queue that refuses the first attempt only.
second_attempt : (try_enqueue_with_retry taking_second one_batch started empty_world).2 ≡ none
unfolding try_enqueue_with_retry max_attempts try_loop start_async new_producer resolve
    after_failure log_enqueue_failure
second_attempt = refl

try_enqueue_exhausted_example :
    let r = try_enqueue_with_retry refusing one_batch started empty_world in
    (r.2 ≡ (refusing 2).result)
    × (breaker r.0 ≡ breaker (on_enqueue_failure (refusing 2).failure_now started empty_world).0)
    × (ingest_errors r.1 ≡ ingest_errors empty_world + 2)
unfolding max_attempts start_async new_producer resolve
try_enqueue_exhausted_example =
    try_enqueue_exhausted refusing one_batch 1 started empty_world refl (λ e. cc, refl, λ e. cc)

breaker_trips_example :
    let q = (fail_all (5 ∷ 7 ∷ []) started empty_world).0 in
    ((fail_all (5 ∷ []) started empty_world).0.circuit_open_until_ns ≡ 0)
    × (q.circuit_open_until_ns ≡ 7 + pos_part started.circuit_cooldown)
    × (q.consecutive_failures ≡ pos 0)
    × ((is_circuit_open 50 q).1 ≡ ltb 50 (7 + pos_part started.circuit_cooldown))
unfolding start_async new_producer resolve
breaker_trips_example =
    breaker_trips (5 ∷ []) 7 50 started empty_world started-IsValid refl refl refl

abbrev tripped : Producer
tripped = record started { circuit_open_until_ns = 107 }

abbrev alive : Option Err
alive = none

enqueue_accepts_iff_example :
    let r = enqueue 50 alive one_batch started empty_world in
    ((r.2 ≡ ok) ↔ (
      (started.started ≡ true)
      × (started.closed ≡ false)
      × (started.circuit_open_until_ns ≤ 50)
      × (alive ≡ none)
      × (length started.work_ch < started.capacity)))
    × Buffers started one_batch r.2 r.0
enqueue_accepts_iff_example =
    enqueue_accepts_iff 50 alive one_batch started empty_world started-IsValid (λ e. cc)
