-- ===== src/Producer/Laws/Buffer.antt =====
-- What Enqueue of service/producer.go accepts, and what it does to the buffer.
use log_forge.Prelude.{
  refl, ℕ, ◌≤◌, ◌<◌, ◌≡◌, ◌≢◌, ◌↔◌, true, false, Option, none, [], ◌∷◌, ◌++◌, length, arith,
}
use log_forge.Errors.{Err}
use log_forge.World.{World}
use log_forge.Producer.State.{Producer, Batch, Return, ok, fail, panic}
use log_forge.Producer.Enqueue.{enqueue}
use log_forge.Producer.Laws.Setup.{IsValid}

-- A batch that was accepted stands at the end of the buffer, a refused one is not in it, and a panic
-- does not happen.
abbrev pub Buffers : Producer → Batch → Return → Producer → Type 0
Buffers p batch ok q = q.work_ch ≡ p.work_ch ++ batch ∷ []
Buffers p batch (fail _) q = q.work_ch ≡ p.work_ch
Buffers p batch panic q = ⊥

-- In a valid producer a call of Enqueue with a nonempty batch, with no other goroutine in between,
-- is accepted exactly when the workers were started, the producer is not closed, the breaker's
-- moment has passed, the context is alive and the buffer has room. An accepted batch is put last in
-- the buffer, a refused one leaves the buffer as it was, and the call does not panic.
pub enqueue_accepts_iff :
    (now : ℕ) (ctx_err : Option Err) (batch : Batch) (p : Producer) (w : World)
    → IsValid p
    → batch ≢ []
    → let r = enqueue now ctx_err batch p w in
      ((r.2 ≡ ok) ↔ (
        (p.started ≡ true)
        × (p.closed ≡ false)
        × (p.circuit_open_until_ns ≤ now)
        × (ctx_err ≡ none)
        × (length p.work_ch < p.capacity)))
      × Buffers p batch r.2 r.0
unfolding enqueue
enqueue_accepts_iff now ctx_err [] p w v ne = absurd (ne refl)
enqueue_accepts_iff now ctx_err (x ∷ batch) p w v ne = (ground arith, ground arith)
