-- ===== src/Tests/IngestionRuns.antt =====
-- Runs of the pipeline of service/ingestion.go.
use log_forge.Prelude.{
  ℕ, ◌+◌, ◌≤◌, ◌<◌, ◌≡◌, ◌↔◌, refl, true, false, Option, some, none, List, [], ◌∷◌, ◌++◌, length,
  arith,
}
use log_forge.Errors.{Err}
use log_forge.Model.{LogRecord}
use log_forge.World.{World}
use log_forge.Producer.{Producer, Batch, ok}
use log_forge.Ingestion.{Ingestion, mode_direct, mode_queue, new_ingestion, process_batch}
use log_forge.Ingestion.Laws.{received, ingested, serve, total_batches, total_logs, serve_counts}
use log_forge.Ingestion.Backends.{
  counts, producer_service, producer_service-KeepsCounts, process_batch_async_iff,
}
use log_forge.Tests.Samples.{
  empty_world, home_visit, one_batch, started, started-IsValid, refusing, memory,
}

abbrev pub Service : Type 0
Service = Ingestion (List (List LogRecord)) Producer

abbrev pub direct : Service
direct = new_ingestion (some []) none mode_direct false

abbrev queued : Service
queued = new_ingestion none (some started) mode_queue false

abbrev alive : Option Err
alive = none

memory_keeps :
    (l : List LogRecord) (r : List (List LogRecord)) (w : World)
    → counts (memory.save_batch l r w).1 ≡ counts w
memory_keeps l r w = ground arith

-- Four calls: one is empty, and the last comes when the repository is full.
abbrev calls : List (ℕ × Batch)
calls = (1, one_batch) ∷ (2, []) ∷ (3, home_visit ∷ one_batch) ∷ (4, one_batch) ∷ []

serve_counts_example :
    let q = serve memory (producer_service 50 alive refusing) calls direct empty_world in
    (received q.1 ≡ received empty_world + total_batches calls q.2)
    × (ingested q.1 ≡ ingested empty_world + total_logs direct.mode calls q.2)
serve_counts_example =
    serve_counts memory (producer_service 50 alive refusing)
      (producer_service-KeepsCounts memory 50 alive refusing memory_keeps) calls direct empty_world

process_batch_async_iff_example :
    let r =
      process_batch memory (producer_service 50 alive refusing) 50 one_batch queued empty_world in
    ((r.2 ≡ ok) ↔ (
      (started.started ≡ true)
      × (started.closed ≡ false)
      × (started.circuit_open_until_ns ≤ 50)
      × (alive ≡ none)
      × (length started.work_ch < started.capacity)))
    × (r.2 ≡ ok
        → (q : Producer) × (r.0.producer ≡ some q)
          × (q.work_ch ≡ started.work_ch ++ one_batch ∷ []))
unfolding new_ingestion
process_batch_async_iff_example =
    process_batch_async_iff memory 50 alive refusing one_batch started queued empty_world (λ e. cc)
      refl refl refl refl started-IsValid
