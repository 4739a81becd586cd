-- ===== src/Producer/Laws/Frame.antt =====
-- What the calls of service/producer.go leave alone: the channel, the workers, the flags and
-- the dead-letter directory.
use log_forge.Text.{Text, codes}
use log_forge.Prelude.{
  ◌++◌, [], ◌∷◌, ℕ, zero, suc, ◌+◌, ◌≡◌, refl, ap, ◌∙◌, Bool, true, false, Option, none, List,
  arith, Option-cases, inl, inr, ◌==◌,
}
use log_forge.Errors.{message, Err}
use log_forge.World.{World}
use log_forge.Producer.State.{Producer, Batch, Return, ok, fail, panic}
use log_forge.Producer.Circuit.{on_enqueue_success}
use log_forge.Producer.Publish.{
  Attempt, DlqAnswers, max_attempts, after_failure, try_loop, try_enqueue_with_retry,
  run_producer_round,
}
use log_forge.Producer.Enqueue.{enqueue_guards, enqueue_send}
use log_forge.Producer.Laws.Rounds.{round_success, round_stop, round_again}

abbrev pub frame : Producer → List Batch × ℕ × Bool × Bool × Bool × ℕ × Text
frame p = (p.work_ch, p.running, p.started, p.ch_closed, p.closed, p.capacity, p.dlq_dir)

after_failure-frame :
    (a : Attempt) (e : Err) (is_last : Bool) (p : Producer) (w : World)
    → frame (after_failure a e is_last p w).0 ≡ frame p
unfolding after_failure
after_failure-frame a e is_last p w = ground arith

try_loop-frame :
    (env : ℕ → Attempt) (batch : Batch) (attempt left : ℕ) (e : Err) (p : Producer) (w : World)
    → frame (try_loop env batch attempt left e p w).0 ≡ frame p
unfolding try_loop
try_loop-frame env batch attempt zero e p w = refl
try_loop-frame env batch attempt (suc left) l p w = elim (Option-cases (env attempt).result) [
  | inl done ↦
      rw (round_success env batch attempt left l p w done) (unfold on_enqueue_success in refl)
  | inr (e, failed) ↦
      let same = after_failure-frame (env attempt) e (left == 0) p w in
      let stopped = (after_failure (env attempt) e (left == 0) p w).2 in
      elim (Option-cases stopped) [
        | inr (x, stop) ↦ rw (round_stop env batch attempt left l p w e x failed stop) same
        | inl go_on ↦
            let r = after_failure (env attempt) e (left == 0) p w in
            rw (round_again env batch attempt left l p w e failed go_on)
              (try_loop-frame env batch (attempt + 1) left e r.0 r.1 ∙ same)
      ]
]

pub try_enqueue-dlq_dir :
    (env : ℕ → Attempt) (batch : Batch) (p : Producer) (w : World)
    → (try_enqueue_with_retry env batch p w).0.dlq_dir ≡ p.dlq_dir
unfolding try_enqueue_with_retry
try_enqueue-dlq_dir env batch p w =
    ap (λ x. x.6)
      (try_loop-frame env batch 1 (max_attempts p) (message (codes "enqueue failed")) p w)

pub run_producer_round-frame :
    (depth depth' : ℕ) (env : ℕ → Attempt) (a : DlqAnswers) (batch : Batch) (p : Producer)
    (w : World)
    → frame (run_producer_round depth depth' env a batch p w).0 ≡ frame p
unfolding run_producer_round
run_producer_round-frame depth depth' env a batch p w =
    try_loop-frame env batch 1 (max_attempts p) (message (codes "enqueue failed")) p _

pub enqueue_guards-frame :
    (now : ℕ) (ctx_err : Option Err) (batch : Batch) (p : Producer)
    → frame (enqueue_guards now ctx_err batch p).0 ≡ frame p
unfolding enqueue_guards
enqueue_guards-frame now ctx_err [] p = refl
enqueue_guards-frame now ctx_err (x ∷ batch) p = ground arith

-- A call that goes on to send had a started, open producer when it looked.
pub enqueue_guards-open :
    (now : ℕ) (ctx_err : Option Err) (batch : Batch) (p : Producer)
    → (enqueue_guards now ctx_err batch p).1 ≡ none
    → (p.started ≡ true) × (p.closed ≡ false)
unfolding enqueue_guards
enqueue_guards-open now ctx_err [] p h = cc
enqueue_guards-open now ctx_err (x ∷ batch) p h = ground arith

-- How a send ends, by its result.
abbrev pub Sends : Producer → Batch → Return → Producer → Type 0
Sends p batch ok q = (q.work_ch ≡ p.work_ch ++ batch ∷ []) × (p.ch_closed ≡ false)
Sends p batch (fail _) q = q.work_ch ≡ p.work_ch
Sends p batch panic q = (q.work_ch ≡ p.work_ch) × (p.ch_closed ≡ true)

abbrev pub flags : Producer → ℕ × Bool × Bool × Bool
flags p = (p.running, p.started, p.ch_closed, p.closed)

pub enqueue_send-Sends :
    (batch : Batch) (p : Producer) (w : World)
    → let r = enqueue_send batch p w in (flags r.0 ≡ flags p) × Sends p batch r.2 r.0
unfolding enqueue_send
enqueue_send-Sends batch p w = (ground arith, ground arith)
