-- ===== src/Producer/Circuit.antt =====
-- The circuit breaker and the suppressed logging of service/producer.go.
use log_forge.Prelude.{
  ℕ, ◌+◌, ◌*◌, ◌%◌, Bool, true, false, ◌||◌, List, [], ◌∷◌, if◌then◌else◌, ltb, ◌==◌,
}
use log_forge.Prelude.Int.{pos, pos_part, is_nonpos, ltb_ℤ, incr_32, two_64}
use log_forge.Text.{Text, codes, contains, to_lower}
use log_forge.Errors.{
  Err, deadline_exceeded, canceled, queue_full, producer_circuit_open, is, is_net_timeout, text_of,
}
use log_forge.World.{World, warn, error, log_line}
use log_forge.Producer.State.{Producer, second}

-- `isCircuitOpen` at the clock reading `now`. Once the cooldown is over the breaker is reset.
unfoldable pub is_circuit_open : ℕ → Producer → Producer × Bool
is_circuit_open now p =
    if p.circuit_open_until_ns == 0
    then (p, false)
    else if ltb now p.circuit_open_until_ns
    then (p, true)
    else (record p { circuit_open_until_ns = 0 }, false)

-- `onEnqueueSuccess`.
unfoldable pub on_enqueue_success : Producer → Producer
on_enqueue_success p = record p { consecutive_failures = pos 0; circuit_open_until_ns = 0 }

-- `onEnqueueFailure` at the clock reading `now`.
unfoldable pub on_enqueue_failure : ℕ → Producer → World → Producer × World
unfolding log_line
on_enqueue_failure now p w =
    if is_nonpos p.circuit_failure_threshold || is_nonpos p.circuit_cooldown
    then (p, w)
    else let failures = incr_32 p.consecutive_failures in
      if ltb_ℤ failures p.circuit_failure_threshold
      then (record p { consecutive_failures = failures }, w)
      else (
        record p {
          circuit_open_until_ns = now + pos_part p.circuit_cooldown;
          consecutive_failures = pos 0;
        },
        log_line warn "producer circuit opened" w,
      )

abbrev known_transient_substrings : List Text
known_transient_substrings =
    codes "connection refused"
    ∷ codes "connection reset"
    ∷ codes "broken pipe"
    ∷ codes "i/o timeout"
    ∷ codes "dial tcp"
    ∷ codes "network is unreachable"
    ∷ codes "leader not available"
    ∷ codes "temporary failure"
    ∷ []

contains_any : Text → List Text → Bool
contains_any msg [] = false
contains_any msg (sub ∷ subs) = contains msg sub || contains_any msg subs

-- `isTransientProducerError`.
unfoldable pub is_transient_producer_error : Err → Bool
unfolding is is_net_timeout text_of contains to_lower contains_any
is_transient_producer_error e =
    is e deadline_exceeded
    || is e canceled
    || is e queue_full
    || is e producer_circuit_open
    || is_net_timeout e
    || contains_any (to_lower (text_of e)) known_transient_substrings

-- `logEnqueueFailure` at the clock reading `now`, run without a concurrent call in between, so that
-- its CompareAndSwap succeeds. A transient error is counted, and at most one line in five seconds
-- is written. `events` of the line is the count, at least 1.
unfoldable pub log_enqueue_failure : ℕ → Err → Producer → World → Producer × World
unfolding log_line
log_enqueue_failure now e p w =
    if is_transient_producer_error e
    then (let events = (p.transient_error_events + 1) % two_64 in
        if ltb now (p.last_transient_error_log_ns + 5 * second)
        then (record p { transient_error_events = events }, w)
        else (
          record p { transient_error_events = 0; last_transient_error_log_ns = now },
          log_line warn "failed to enqueue logs (transient, suppressed)" w,
        ))
    else (p, log_line error "failed to enqueue logs" w)
