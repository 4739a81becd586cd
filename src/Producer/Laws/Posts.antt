-- ===== src/Producer/Laws/Posts.antt =====
-- What publishing in service/producer.go does to the queue, and what other calls do to the queue and the
-- dead-letter files.
use log_forge.Prelude.{
  ℕ, zero, suc, ◌+◌, ◌≡◌, ◌<◌, refl, ap, ◌∙◌, Bool, Option, some, none, List, ◌∷◌, arith,
  Option-cases, inl, inr, ◌==◌,
}
use log_forge.Prelude.Int.{pos}
use log_forge.Text.{codes}
use log_forge.Errors.{Err, message}
use log_forge.World.{World, set_ingestion_queue_depth}
use log_forge.Producer.State.{Producer, Batch, close}
use log_forge.Producer.Publish.{
  Attempt, DlqAnswers, max_attempts, after_failure, try_loop, try_enqueue_with_retry,
  write_producer_dlq, run_producer_round,
}
use log_forge.Producer.Enqueue.{enqueue_send}
use log_forge.Producer.Laws.Delivery.{try_enqueue_delivers_iff}
use log_forge.Producer.Laws.Rounds.{round_success, round_stop, round_again}

-- The batches in the queue and the dead-letter files are as before.
abbrev pub Quiet : World → World → Type 0
Quiet w v = (v.queued ≡ w.queued) × (v.dlq ≡ w.dlq)

-- The queue took the batch exactly if there is no error.
abbrev pub Posts : Batch → World → World → Option Err → Type 0
Posts batch w v none = (v.queued ≡ batch ∷ w.queued) × (v.dlq ≡ w.dlq)
Posts batch w v (some e) = Quiet w v

after_failure-Quiet :
    (a : Attempt) (e : Err) (is_last : Bool) (p : Producer) (w : World)
    → Quiet w (after_failure a e is_last p w).1
unfolding after_failure
after_failure-Quiet a e is_last p w = (ground arith, ground arith)

Posts-later :
    (batch : Batch) (w v u : World) (r : Option Err)
    → Quiet w v
    → Posts batch v u r
    → Posts batch w u r
Posts-later batch w v u none (a, b) (c, d) = (c ∙ ap (λ (l : List Batch). batch ∷ l) a, d ∙ b)
Posts-later batch w v u (some e) (a, b) (c, d) = (c ∙ a, d ∙ b)

try_loop-Posts :
    (env : ℕ → Attempt) (batch : Batch) (attempt left : ℕ) (e : Err) (p : Producer) (w : World)
    → let r = try_loop env batch attempt left e p w in Posts batch w r.1 r.2
unfolding try_loop
try_loop-Posts env batch attempt zero e p w = (refl, refl)
try_loop-Posts env batch attempt (suc left) l p w = elim (Option-cases (env attempt).result) [
  | inl done ↦ rw (round_success env batch attempt left l p w done) (refl, refl)
  | inr (e, failed) ↦
      let same = after_failure-Quiet (env attempt) e (left == 0) p w in
      let stopped = (after_failure (env attempt) e (left == 0) p w).2 in
      elim (Option-cases stopped) [
        | inr (x, stop) ↦ rw (round_stop env batch attempt left l p w e x failed stop) same
        | inl go_on ↦
            let r = after_failure (env attempt) e (left == 0) p w in
            rw (round_again env batch attempt left l p w e failed go_on) (
              let later = try_loop env batch (attempt + 1) left e r.0 r.1 in
              Posts-later batch w r.1 later.1 later.2 same
                (try_loop-Posts env batch (attempt + 1) left e r.0 r.1))
      ]
]

pub try_enqueue-Posts :
    (env : ℕ → Attempt) (batch : Batch) (p : Producer) (w : World)
    → let r = try_enqueue_with_retry env batch p w in Posts batch w r.1 r.2
unfolding try_enqueue_with_retry
try_enqueue-Posts env batch p w =
    try_loop-Posts env batch 1 (max_attempts p) (message (codes "enqueue failed")) p w

pub enqueue_send-Quiet :
    (batch : Batch) (p : Producer) (w : World) → Quiet w (enqueue_send batch p w).1
unfolding enqueue_send
enqueue_send-Quiet batch p w = (ground arith, ground arith)

pub close-Quiet : (p : Producer) (w : World) → Quiet w (close p w).1
unfolding close
close-Quiet p w = (ground arith, ground arith)

settle_round_takes :
    (a : DlqAnswers) (batch : Batch) (w : World) (r : Producer × World × Option Err)
    → r.2 ≡ none
    → Posts batch w r.1 r.2
    → let v : World = elim r.2 [ none ↦ r.1 | some e ↦ write_producer_dlq a batch e r.0 r.1 ] in
      v.queued ≡ batch ∷ w.queued
settle_round_takes a batch w (q, u, none) h posts = posts.0
settle_round_takes a batch w (q, u, some e) h posts = cc

-- A queue that takes the batch at the first attempt.
first_attempt :
    (env : ℕ → Attempt) (batch : Batch) (p : Producer) (w : World)
    → (env 1).result ≡ none
    → (try_enqueue_with_retry env batch p w).2 ≡ none
first_attempt env batch p w takes =
    let some_attempt : 0 < max_attempts p = unfold max_attempts in ground arith in
    (try_enqueue_delivers_iff env batch p w).1
      (0, some_attempt, takes, λ j lt. absurd (omega arith))

-- A round on a batch that the queue takes at the first attempt.
pub run_producer_round_takes :
    (depth depth' : ℕ) (env : ℕ → Attempt) (a : DlqAnswers) (batch : Batch) (p : Producer)
    (w : World)
    → (env 1).result ≡ none
    → (run_producer_round depth depth' env a batch p w).1.queued ≡ batch ∷ w.queued
unfolding run_producer_round set_ingestion_queue_depth
run_producer_round_takes depth depth' env a batch p w takes =
    let w0 = set_ingestion_queue_depth (pos depth) w in
    let posts = try_enqueue-Posts env batch p w0 in
    let r = try_enqueue_with_retry env batch p w0 in
    settle_round_takes a batch w0 r (first_attempt env batch p w0 takes) posts
