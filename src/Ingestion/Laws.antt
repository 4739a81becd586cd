-- ===== src/Ingestion/Laws.antt =====
-- What is proved of service/ingestion.go over any backends that leave its counters alone.
use log_forge.Prelude.{
  ap, ◌⊎◌, inl, inr, Option-cases, ℕ, ◌+◌, ◌≡◌, ◌≢◌, refl, Bool, true, false, List, [], ◌∷◌, length,
  arith, is_empty, if◌then◌else◌,
}
use log_forge.Errors.{sentinel, ingestion_stopped}
use log_forge.Ingestion.{close}
use log_forge.Model.{LogRecord}
use log_forge.World.{World}
use log_forge.Producer.{Return, ok, fail, panic}
use log_forge.Ingestion.{
  Ingestion, PipelineMode, mode_direct, mode_queue, ProducerOps, RepositoryOps, settle_queue,
  process_batch,
}

-- The two counters that only the ingestion service of a direct pipeline moves.
abbrev pub received : World → ℕ
received w = w.metrics.batches_received

abbrev pub ingested : World → ℕ
ingested w = w.metrics.logs_ingested

-- What the counting relies on: a backend leaves both counters alone.
pub record KeepsCounts {R S : Type 0} (repository : RepositoryOps R) (producer_ops : ProducerOps S)
    : Type 0 where
  pub save_received :
      (l : List LogRecord) (r : R) (w : World)
      → received (repository.save_batch l r w).1 ≡ received w
  pub save_ingested :
      (l : List LogRecord) (r : R) (w : World)
      → ingested (repository.save_batch l r w).1 ≡ ingested w
  pub enqueue_received :
      (l : List LogRecord) (s : S) (w : World)
      → received (producer_ops.enqueue l s w).1 ≡ received w
  pub enqueue_ingested :
      (l : List LogRecord) (s : S) (w : World)
      → ingested (producer_ops.enqueue l s w).1 ≡ ingested w
  pub sync_received :
      (l : List LogRecord) (s : S) (w : World)
      → received (producer_ops.enqueue_sync l s w).1 ≡ received w
  pub sync_ingested :
      (l : List LogRecord) (s : S) (w : World)
      → ingested (producer_ops.enqueue_sync l s w).1 ≡ ingested w

abbrev pub is_ok : Return → Bool
is_ok ok = true
is_ok (fail _) = false
is_ok panic = false

mode-cases : (m : PipelineMode) → (m ≡ mode_direct) ⊎ (m ≡ mode_queue)
mode-cases mode_direct = inl refl
mode-cases mode_queue = inr refl

-- What one call adds to the two counters, from its mode, its records and its result.
abbrev pub batches_of : List LogRecord → Return → ℕ
batches_of l r = if is_empty l then 0 else if is_ok r then 1 else 0

abbrev pub logs_of : PipelineMode → List LogRecord → Return → ℕ
logs_of mode_queue l r = 0
logs_of mode_direct l r = if is_ok r then length l else 0

-- A sequence of calls, each with the clock reading of its logging; the results in order.
pub serve :
    {R S : Type 0}
    → RepositoryOps R
    → ProducerOps S
    → List (ℕ × List LogRecord)
    → Ingestion R S
    → World
    → Ingestion R S × World × List Return
serve repository producer_ops [] s w = (s, w, [])
serve repository producer_ops ((now, l) ∷ calls) s w =
    let (s', w', r) = process_batch repository producer_ops now l s w in
    let (s'', w'', rs) = serve repository producer_ops calls s' w' in (s'', w'', r ∷ rs)

-- What a sequence of calls adds to the counters by its results.
abbrev pub total_batches : List (ℕ × List LogRecord) → List Return → ℕ
total_batches [] rs = 0
total_batches (c ∷ calls) [] = 0
total_batches ((now, l) ∷ calls) (r ∷ rs) = batches_of l r + total_batches calls rs

abbrev pub total_logs : PipelineMode → List (ℕ × List LogRecord) → List Return → ℕ
total_logs m [] rs = 0
total_logs m (c ∷ calls) [] = 0
total_logs m ((now, l) ∷ calls) (r ∷ rs) = logs_of m l r + total_logs m calls rs

module _ {R S : Type 0} (repository : RepositoryOps R) (producer_ops : ProducerOps S)
    (keeps : KeepsCounts repository producer_ops) where
  settle_queue_counts :
      (now : ℕ) (r : Return) (l : List LogRecord) (s : Ingestion R S) (w : World)
      → l ≢ []
      → let q = settle_queue now r s w in
        (received q.1 ≡ received w + batches_of l q.2) × (ingested q.1 ≡ ingested w)
  unfolding settle_queue
  settle_queue_counts now r [] s w ne = absurd (ne refl)
  settle_queue_counts now ok (x ∷ l) s w ne = (refl, refl)
  settle_queue_counts now (fail e) (x ∷ l) s w ne = (ground arith, ground arith)
  settle_queue_counts now panic (x ∷ l) s w ne = (ground arith, ground arith)

  direct_call :
      (now : ℕ) (l : List LogRecord) (s : Ingestion R S) (w : World)
      → l ≢ []
      → s.mode ≡ mode_direct
      → let q = process_batch repository producer_ops now l s w in
        (received q.1 ≡ received w + batches_of l q.2)
        × (ingested q.1 ≡ ingested w + logs_of s.mode l q.2)
        × (q.0.mode ≡ s.mode)
  unfolding process_batch
  direct_call now [] s w ne m = absurd (ne refl)
  direct_call now (x ∷ l) s w ne m = elim (Option-cases s.repo) [
    | inl gone ↦ (ground arith, ground arith, ground arith)
    | inr (store, here) ↦
        let a = keeps.save_received (x ∷ l) store w in
        let b = keeps.save_ingested (x ∷ l) store w in (ground arith, ground arith, ground arith)
  ]

  queue_call :
      (now : ℕ) (l : List LogRecord) (s : Ingestion R S) (w : World)
      → l ≢ []
      → s.mode ≡ mode_queue
      → let q = process_batch repository producer_ops now l s w in
        (received q.1 ≡ received w + batches_of l q.2)
        × (ingested q.1 ≡ ingested w + logs_of s.mode l q.2)
        × (q.0.mode ≡ s.mode)
  unfolding process_batch
  queue_call now [] s w ne m = absurd (ne refl)
  queue_call now (x ∷ l) s w ne m = elim (Option-cases s.producer) [
    | inl gone ↦ (ground arith, ground arith, ground arith)
    | inr (p, here) ↦
        let a = keeps.enqueue_received (x ∷ l) p w in
        let b = keeps.enqueue_ingested (x ∷ l) p w in
        let c = keeps.sync_received (x ∷ l) p w in
        let d = keeps.sync_ingested (x ∷ l) p w in (ground arith, ground arith, ground arith)
  ]

  one_call :
      (now : ℕ) (l : List LogRecord) (s : Ingestion R S) (w : World)
      → let q = process_batch repository producer_ops now l s w in
        (received q.1 ≡ received w + batches_of l q.2)
        × (ingested q.1 ≡ ingested w + logs_of s.mode l q.2)
        × (q.0.mode ≡ s.mode)
  unfolding process_batch
  one_call now [] s w = (omega arith, ground arith, refl)
  one_call now (x ∷ l) s w = elim (mode-cases s.mode) [
    | inl direct ↦ direct_call now (x ∷ l) s w (λ e. cc) direct
    | inr queue ↦ queue_call now (x ∷ l) s w (λ e. cc) queue
  ]

  -- Over any sequence of calls the counter of received batches grows by one for each call with
  -- records that returned no error, and the counter of ingested logs, in direct mode, by the records
  -- of those calls; in queue mode it stays. The backends are assumed to leave both counters alone.
  pub serve_counts :
      (calls : List (ℕ × List LogRecord)) (s : Ingestion R S) (w : World)
      → let q = serve repository producer_ops calls s w in
        (received q.1 ≡ received w + total_batches calls q.2)
        × (ingested q.1 ≡ ingested w + total_logs s.mode calls q.2)
  unfolding serve
  serve_counts [] s w = (omega arith, omega arith)
  serve_counts ((now, l) ∷ calls) s w =
      let q = process_batch repository producer_ops now l s w in
      let one = one_call now l s w in
      let rest = serve_counts calls q.0 q.1 in
      let results = (serve repository producer_ops calls q.0 q.1).2 in
      (omega arith, omega (arith, ap (λ (m : PipelineMode). total_logs m calls results) one.2))

close_direct : {R S : Type 0} (s : Ingestion R S) → s.mode ≡ mode_direct → close s ≡ s
unfolding close
close_direct s direct = ground arith

-- After Close a queue pipeline refuses every batch that is not empty and changes nothing more, and
-- a direct pipeline goes on as if it had not been closed.
pub close_effect :
    {R S : Type 0} (repository : RepositoryOps R) (producer_ops : ProducerOps S) (now : ℕ)
    (l : List LogRecord) (s : Ingestion R S) (w : World)
    → l ≢ []
    → ((s.mode ≡ mode_queue)
        × (process_batch repository producer_ops now l (close s) w
            ≡ (close s, w, fail (sentinel ingestion_stopped))))
      ⊎ ((s.mode ≡ mode_direct)
          × (process_batch repository producer_ops now l (close s) w
              ≡ process_batch repository producer_ops now l s w))
unfolding close process_batch
close_effect repository producer_ops now [] s w ne = absurd (ne refl)
close_effect {R} {S} repository producer_ops now (x ∷ l) s w ne = elim (mode-cases s.mode) [
  | inl direct ↦ inr (
    direct,
    ap (λ (t : Ingestion R S). process_batch repository producer_ops now (x ∷ l) t w)
        (close_direct s direct),
  )
  | inr queue ↦ inl (queue, ground arith)
]
