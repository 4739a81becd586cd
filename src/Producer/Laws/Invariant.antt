-- ===== src/Producer/Laws/Invariant.antt =====
-- Every operation of service/producer.go keeps the producer valid.
use log_forge.Prelude.{
  ◌==◌, ℕ, zero, suc, ◌+◌, Bool, Option, [], ◌∷◌, length-append, arith, Option-cases, inl, inr,
}
use log_forge.Errors.{Err}
use log_forge.World.{World}
use log_forge.Producer.State.{Producer, Batch}
use log_forge.Producer.Circuit.{
  is_circuit_open, on_enqueue_success, on_enqueue_failure, log_enqueue_failure,
}
use log_forge.Producer.Publish.{
  Attempt, DlqAnswers, after_failure, max_attempts, try_loop, try_enqueue_with_retry, enqueue_sync,
  run_producer_round,
}
use log_forge.Producer.Enqueue.{enqueue_guards, enqueue_send, enqueue}
use log_forge.Producer.Laws.Setup.{IsValid}
use log_forge.Producer.Laws.Rounds.{round_success, round_stop, round_again}

pub is_circuit_open-IsValid :
    (now : ℕ) (p : Producer) → IsValid p → IsValid (is_circuit_open now p).0
unfolding is_circuit_open
is_circuit_open-IsValid now p v = ground arith

pub on_enqueue_failure-IsValid :
    (now : ℕ) (p : Producer) (w : World) → IsValid p → IsValid (on_enqueue_failure now p w).0
unfolding on_enqueue_failure
on_enqueue_failure-IsValid now p w v = ground arith

on_enqueue_success-IsValid : (p : Producer) → IsValid p → IsValid (on_enqueue_success p)
unfolding on_enqueue_success
on_enqueue_success-IsValid p v = ground arith

log_enqueue_failure-IsValid :
    (now : ℕ) (e : Err) (p : Producer) (w : World)
    → IsValid p
    → IsValid (log_enqueue_failure now e p w).0
unfolding log_enqueue_failure
log_enqueue_failure-IsValid now e p w v = ground arith

after_failure-IsValid :
    (a : Attempt) (e : Err) (is_last : Bool) (p : Producer) (w : World)
    → IsValid p
    → IsValid (after_failure a e is_last p w).0
unfolding after_failure
after_failure-IsValid a e is_last p w v =
    grind (arith, log_enqueue_failure-IsValid, on_enqueue_failure-IsValid)

try_loop-IsValid :
    (env : ℕ → Attempt) (batch : Batch) (attempt left : ℕ) (e : Err) (p : Producer) (w : World)
    → IsValid p
    → IsValid (try_loop env batch attempt left e p w).0
unfolding try_loop
try_loop-IsValid env batch attempt zero e p w v = v
try_loop-IsValid env batch attempt (suc left) l p w v = elim (Option-cases (env attempt).result) [
  | inl done ↦ rw (round_success env batch attempt left l p w done) (on_enqueue_success-IsValid p v)
  | inr (e, failed) ↦
      let v' = after_failure-IsValid (env attempt) e (left == 0) p w v in
      let stopped = (after_failure (env attempt) e (left == 0) p w).2 in
      elim (Option-cases stopped) [
        | inr (x, stop) ↦ rw (round_stop env batch attempt left l p w e x failed stop) v'
        | inl go_on ↦
            let r = after_failure (env attempt) e (left == 0) p w in
            rw (round_again env batch attempt left l p w e failed go_on)
              (try_loop-IsValid env batch (attempt + 1) left e r.0 r.1 v')
      ]
]

-- Publishing a batch keeps the producer valid, whatever the queue, the clock and the context answer.
pub try_enqueue_with_retry-IsValid :
    (env : ℕ → Attempt) (batch : Batch) (p : Producer) (w : World)
    → IsValid p
    → IsValid (try_enqueue_with_retry env batch p w).0
unfolding try_enqueue_with_retry
try_enqueue_with_retry-IsValid env batch p w v =
    try_loop-IsValid env batch 1 (max_attempts p) _ p w v

pub enqueue_sync-IsValid :
    (now : ℕ) (env : ℕ → Attempt) (batch : Batch) (p : Producer) (w : World)
    → IsValid p
    → IsValid (enqueue_sync now env batch p w).0
unfolding enqueue_sync
enqueue_sync-IsValid now env batch p w v =
    grind (arith, is_circuit_open-IsValid, try_enqueue_with_retry-IsValid)

-- A round of a worker, publishing with retries and the dead-letter file, keeps a valid producer
-- valid, whatever is answered.
pub run_producer_round-IsValid :
    (before after : ℕ) (env : ℕ → Attempt) (a : DlqAnswers) (batch : Batch) (p : Producer)
    (w : World)
    → IsValid p
    → IsValid (run_producer_round before after env a batch p w).0
unfolding run_producer_round
run_producer_round-IsValid before after env a batch p w v =
    try_enqueue_with_retry-IsValid env batch p _ v

pub enqueue_guards-IsValid :
    (now : ℕ) (ctx_err : Option Err) (batch : Batch) (p : Producer)
    → IsValid p
    → IsValid (enqueue_guards now ctx_err batch p).0
unfolding enqueue_guards
enqueue_guards-IsValid now ctx_err batch p v = ground arith

pub enqueue_send-IsValid :
    (batch : Batch) (p : Producer) (w : World) → IsValid p → IsValid (enqueue_send batch p w).0
unfolding enqueue_send
enqueue_send-IsValid batch p w v = ground (arith, length-append p.work_ch (batch ∷ []))

-- A call of Enqueue keeps a valid producer valid, whatever the clock and the context answer.
pub enqueue-IsValid :
    (now : ℕ) (ctx_err : Option Err) (batch : Batch) (p : Producer) (w : World)
    → IsValid p
    → IsValid (enqueue now ctx_err batch p w).0
unfolding enqueue
enqueue-IsValid now ctx_err batch p w v = ground (arith, length-append p.work_ch (batch ∷ []))
