-- ===== src/Ingestion/Backends.antt =====
-- ProducerService of service/producer.go as the producer of service/ingestion.go, for given answers
-- of the clock, the context and the queue during a call.
use log_forge.Prelude.{
  sym, ℕ, zero, suc, ◌+◌, ◌≤◌, ◌<◌, ◌≡◌, ◌≢◌, ◌↔◌, refl, ◌∙◌, ap, Bool, true, false, Option, some,
  none, List, [], ◌∷◌, ◌++◌, length, arith, Option-cases, inl, inr, ◌==◌,
}
use log_forge.Text.{codes}
use log_forge.Errors.{Err, message}
use log_forge.Model.{LogRecord}
use log_forge.World.{World}
use log_forge.Producer.{Producer, Return, ok, fail, panic}
use log_forge.Producer.Enqueue.{enqueue}
use log_forge.Producer.Publish.{
  Attempt, after_failure, max_attempts, try_loop, try_enqueue_with_retry, enqueue_sync,
}
use log_forge.Producer.Laws.Setup.{IsValid}
use log_forge.Producer.Laws.Rounds.{round_success, round_stop, round_again}
use log_forge.Producer.Laws.Buffer.{Buffers, enqueue_accepts_iff}
use log_forge.Ingestion.{
  Ingestion, ProducerOps, RepositoryOps, mode_queue, settle_queue, process_batch,
}
use log_forge.Ingestion.Laws.{received, ingested, KeepsCounts}

unfoldable pub producer_service : ℕ → Option Err → (ℕ → Attempt) → ProducerOps Producer
producer_service now ctx_err env = record {
  enqueue = λ l p w. enqueue now ctx_err l p w;
  enqueue_sync = λ l p w. enqueue_sync now env l p w;
}

abbrev pub counts : World → ℕ × ℕ
counts w = (received w, ingested w)

counts-after_failure :
    (a : Attempt) (e : Err) (is_last : Bool) (p : Producer) (w : World)
    → counts (after_failure a e is_last p w).1 ≡ counts w
unfolding after_failure
counts-after_failure a e is_last p w = ground arith

counts-try_loop :
    (env : ℕ → Attempt) (batch : List LogRecord) (attempt left : ℕ) (e : Err) (p : Producer)
    (w : World)
    → counts (try_loop env batch attempt left e p w).1 ≡ counts w
unfolding try_loop
counts-try_loop env batch attempt zero e p w = refl
counts-try_loop env batch attempt (suc left) l p w = elim (Option-cases (env attempt).result) [
  | inl done ↦ rw (round_success env batch attempt left l p w done) refl
  | inr (e, failed) ↦
      let same = counts-after_failure (env attempt) e (left == 0) p w in
      let stopped = (after_failure (env attempt) e (left == 0) p w).2 in
      elim (Option-cases stopped) [
        | inr (x, stop) ↦ rw (round_stop env batch attempt left l p w e x failed stop) same
        | inl go_on ↦
            let r = after_failure (env attempt) e (left == 0) p w in
            rw (round_again env batch attempt left l p w e failed go_on)
              (counts-try_loop env batch (attempt + 1) left e r.0 r.1 ∙ same)
      ]
]

enqueue_counts :
    (now : ℕ) (ctx_err : Option Err) (l : List LogRecord) (p : Producer) (w : World)
    → counts (enqueue now ctx_err l p w).1 ≡ counts w
unfolding enqueue
enqueue_counts now ctx_err [] p w = refl
enqueue_counts now ctx_err (x ∷ l) p w = ground arith

try_counts :
    (env : ℕ → Attempt) (batch : List LogRecord) (p : Producer) (w : World)
    → counts (try_enqueue_with_retry env batch p w).1 ≡ counts w
unfolding try_enqueue_with_retry
try_counts env batch p w =
    counts-try_loop env batch 1 (max_attempts p) (message (codes "enqueue failed")) p w

sync_counts :
    (now : ℕ) (env : ℕ → Attempt) (l : List LogRecord) (p : Producer) (w : World)
    → counts (enqueue_sync now env l p w).1 ≡ counts w
unfolding enqueue_sync
sync_counts now env [] p w = refl
sync_counts now env (x ∷ l) p w = grind (arith, try_counts)

-- The producer service leaves the two counters of the ingestion service alone.
pub producer_service-KeepsCounts :
    {R : Type 0} (repository : RepositoryOps R) (now : ℕ) (ctx_err : Option Err) (env : ℕ → Attempt)
    → ((l : List LogRecord) (r : R) (w : World) → counts (repository.save_batch l r w).1 ≡ counts w)
    → KeepsCounts repository (producer_service now ctx_err env)
unfolding producer_service
producer_service-KeepsCounts repository now ctx_err env keeps = record {
  save_received = λ l r w. ap (λ (c : ℕ × ℕ). c.0) (keeps l r w);
  save_ingested = λ l r w. ap (λ (c : ℕ × ℕ). c.1) (keeps l r w);
  enqueue_received = λ l s w. ap (λ (c : ℕ × ℕ). c.0) (enqueue_counts now ctx_err l s w);
  enqueue_ingested = λ l s w. ap (λ (c : ℕ × ℕ). c.1) (enqueue_counts now ctx_err l s w);
  sync_received = λ l s w. ap (λ (c : ℕ × ℕ). c.0) (sync_counts now env l s w);
  sync_ingested = λ l s w. ap (λ (c : ℕ × ℕ). c.1) (sync_counts now env l s w);
}

settle_queue_result :
    {R : Type 0} (now : ℕ) (r : Return) (s : Ingestion R Producer) (w : World)
    → let q = settle_queue now r s w in (q.2 ≡ r) × (q.0.producer ≡ s.producer)
unfolding settle_queue
settle_queue_result now ok s w = (refl, refl)
settle_queue_result now (fail e) s w = (ground arith, ground arith)
settle_queue_result now panic s w = (refl, refl)

async_call :
    {R : Type 0} (repository : RepositoryOps R) (now : ℕ) (ctx_err : Option Err) (env : ℕ → Attempt)
    (l : List LogRecord) (p : Producer) (s : Ingestion R Producer) (w : World)
    → l ≢ []
    → s.mode ≡ mode_queue
    → s.sync_on_ingest ≡ false
    → s.closed ≡ false
    → s.producer ≡ some p
    → let r = enqueue now ctx_err l p w in
      process_batch repository (producer_service now ctx_err env) now l s w
      ≡ settle_queue now r.2 (record s { producer = some r.0 }) r.1
unfolding process_batch producer_service
async_call repository now ctx_err env [] p s w ne m a o h = absurd (ne refl)
async_call repository now ctx_err env (x ∷ l) p s w ne m a o h = ground arith

buffered :
    (p q : Producer) (l : List LogRecord) (r : Return)
    → Buffers p l r q
    → r ≡ ok
    → q.work_ch ≡ p.work_ch ++ l ∷ []
buffered p q l ok b e = b
buffered p q l (fail x) b e = cc
buffered p q l panic b e = cc

-- An asynchronous queue pipeline that is open, over a valid producer, takes a batch that is not
-- empty exactly when the producer was started and is open, its breaker's moment has passed, the
-- request is alive and the buffer has room; and then the batch is the last one of the buffer.
pub process_batch_async_iff :
    {R : Type 0} (repository : RepositoryOps R) (now : ℕ) (ctx_err : Option Err) (env : ℕ → Attempt)
    (l : List LogRecord) (p : Producer) (s : Ingestion R Producer) (w : World)
    → l ≢ []
    → s.mode ≡ mode_queue
    → s.sync_on_ingest ≡ false
    → s.closed ≡ false
    → s.producer ≡ some p
    → IsValid p
    → let r = process_batch repository (producer_service now ctx_err env) now l s w in
      ((r.2 ≡ ok) ↔ (
        (p.started ≡ true)
        × (p.closed ≡ false)
        × (p.circuit_open_until_ns ≤ now)
        × (ctx_err ≡ none)
        × (length p.work_ch < p.capacity)))
      × (r.2 ≡ ok → (q : Producer) × (r.0.producer ≡ some q) × (q.work_ch ≡ p.work_ch ++ l ∷ []))
process_batch_async_iff repository now ctx_err env l p s w ne m a o h v =
    let r = enqueue now ctx_err l p w in
    let (exactly, put) = enqueue_accepts_iff now ctx_err l p w v ne in
    let s' = record s { producer = some r.0 } in
    let done = settle_queue_result now r.2 s' r.1 in
    rw (async_call repository now ctx_err env l p s w ne m a o h) (
      (λ e. exactly.0 (sym done.0 ∙ e), λ e. done.0 ∙ exactly.1 e),
      λ e. (r.0, done.1, buffered p r.0 l r.2 put (sym done.0 ∙ e)),
    )
