-- ===== src/Bootstrap/Wiring.antt =====
-- What BuildApp of cmd/bootstrap/app.go puts together.
use log_forge.Prelude.{
  ◌≡◌, ◌≢◌, refl, ap, sym, ◌∙◌, true, false, not, Option, some, none, List, [], ◌∷◌, arith,
  if◌then◌else◌, is_empty, Bool-cases, Option-cases, inl, inr,
}
use mathlib.Core.Path.{subst}
use log_forge.Text.{codes}
use log_forge.Errors.{Err, message, wrap, Result, done, failed}
use log_forge.Errors.Cases.{Result-cases, done_injective, done_not_failed}
use log_forge.World.{World}
use log_forge.Config.{IngestionSettings}
use log_forge.Queue.{new_queue, check_connectivity}
use log_forge.Producer.{Producer, new_producer, start_async, resolve}
use log_forge.Producer.Publish.{max_attempts}
use log_forge.Consumer.{ConsumerService, new_consumer_service, start_service}
use log_forge.Ingestion.{RepositoryOps, mode_direct, mode_queue, new_ingestion}
use log_forge.Bootstrap.{
  AppConfig, Store, file_store, object_store, LogSource, log_dir, log_bucket, ReadyCheck,
  writable_dir, bucket_ready, kafka_reachable, QueueParts, Built, BuildAnswers, close_consumer,
  close_producer, close_ingestion, build_store, producer_config, consumer_batch_config,
  queue_settings, build_queue, assemble, is_version_2, build_app, run_cleanups,
}

-- The producer of the application.
abbrev pub app_producer : IngestionSettings → Producer
app_producer i =
    let producer = new_producer (some (producer_config i)) in
    if i.sync_on_ingest then producer else start_async producer

app_producer-max_attempts : (i : IngestionSettings) → max_attempts (app_producer i) ≡ 1
unfolding max_attempts new_producer start_async resolve
app_producer-max_attempts i = elim (Bool-cases i.sync_on_ingest) [
  | inl h ↦ ground arith
  | inr h ↦ ground arith
]

app_producer-started : (i : IngestionSettings) → (app_producer i).started ≡ not i.sync_on_ingest
unfolding new_producer start_async resolve
app_producer-started i = elim (Bool-cases i.sync_on_ingest) [
  | inl h ↦ ground arith
  | inr h ↦ ground arith
]

-- The consumer of the application, as it is started on a store.
abbrev pub app_consumer :
    RepositoryOps Store → BuildAnswers → AppConfig → Store → ConsumerService Store
app_consumer repository a cfg store =
    (start_service repository a.start_consumers
      (new_consumer_service true store (consumer_batch_config cfg.consumer) true)).0

app_consumer-repo :
    (repository : RepositoryOps Store) (a : BuildAnswers) (cfg : AppConfig) (store : Store)
    → (app_consumer repository a cfg store).repo ≡ store
unfolding start_service new_consumer_service
app_consumer-repo repository a cfg store = ground arith

-- The queue parts are the application's producer and consumer.
abbrev pub HasParts : RepositoryOps Store → BuildAnswers → AppConfig → Store → QueueParts → Type 0
HasParts repository a cfg store p =
    (p.producer ≡ app_producer cfg.ingestion) × (p.consumer ≡ app_consumer repository a cfg store)

module _ (repository : RepositoryOps Store) (a : BuildAnswers) (cfg : AppConfig) (store : Store)
    (w : World) where
  fails :
      (r : Result QueueParts) (e : Err) (p : QueueParts)
      → r ≡ failed e
      → r ≡ done p
      → HasParts repository a cfg store p
  fails r e p h₁ h₂ = absurd (done_not_failed p e (sym h₁ ∙ h₂))

  build_queue-HasParts :
      (p : QueueParts)
      → (build_queue repository a cfg store w).0 ≡ done p
      → HasParts repository a cfg store p
  unfolding build_queue
  build_queue-HasParts p h =
      let r = (build_queue repository a cfg store w).0 in
      let required = message (codes "kafka settings are required for version 2") in
      let started =
        (start_service repository a.start_consumers
          (new_consumer_service true store (consumer_batch_config cfg.consumer) true)).1 in
      elim (Option-cases cfg.kafka_settings) [
        | inl h₁ ↦ fails r required p (ground arith) h
        | inr (k, h₁) ↦ elim (Bool-cases (is_empty k.brokers)) [
          | inl h₂ ↦ fails r required p (ground arith) h
          | inr h₂ ↦ elim (Result-cases (new_queue (queue_settings k))) [
            | inr (e, h₃) ↦ fails r (wrap (codes "configure kafka: ") e) p (ground arith) h
            | inl (q, h₃) ↦ elim (Option-cases (check_connectivity a.dial q w).2) [
              | inr (e, h₄) ↦ fails r (wrap (codes "kafka startup check: ") e) p (ground arith) h
              | inl h₄ ↦ elim (Option-cases started) [
                | inr (e, h₅) ↦
                    fails r (wrap (codes "start kafka consumers: ") e) p (ground arith) h
                | inl h₅ ↦
                    let made : QueueParts = record {
                      queue = (check_connectivity a.dial q w).0;
                      consumer = app_consumer repository a cfg store;
                      producer = app_producer cfg.ingestion;
                    } in
                    let eq : r ≡ done made = ground arith in
                    let same = done_injective made p (sym eq ∙ h) in
                    (ap (λ p. p.producer) (sym same), ap (λ p. p.consumer) (sym same))
              ]
            ]
          ]
        ]
      ]

-- How the parts of an application of version 2 fit together, and how they are closed.
abbrev pub WiredWithQueue : AppConfig → Built → Type 0
WiredWithQueue cfg b =
    (p : QueueParts) × (b.parts ≡ some p)
    × (b.ingestion.producer ≡ some (some p.producer))
    × (b.ingestion.mode ≡ mode_queue)
    × (max_attempts p.producer ≡ 1)
    × (p.producer.started ≡ not cfg.ingestion.sync_on_ingest)
    × (p.consumer.repo ≡ b.store)
    × (run_cleanups b.cleanups ≡ close_ingestion ∷ (close_producer ∷ (close_consumer ∷ [])))

-- The same of the other versions, which write to the repository at once.
abbrev pub WiredDirectly : Built → Type 0
WiredDirectly b =
    (b.parts ≡ none)
    × (b.ingestion.producer ≡ some none)
    × (b.ingestion.mode ≡ mode_direct)
    × (run_cleanups b.cleanups ≡ close_ingestion ∷ [])

-- What the aggregation reads, and the checks of the readiness endpoint.
abbrev pub source_of : Store → LogSource
source_of (file_store dir) = log_dir dir
source_of (object_store r) = log_bucket r

abbrev pub store_check : Store → ReadyCheck
store_check (file_store dir) = writable_dir dir
store_check (object_store r) = bucket_ready r

abbrev pub queue_checks : Option QueueParts → List ReadyCheck
queue_checks none = []
queue_checks (some p) = kafka_reachable ∷ []

-- What holds of every application.
abbrev pub SharesStore : AppConfig → Built → Type 0
SharesStore cfg b =
    (b.ingestion.repo ≡ some b.store)
    × (b.aggregator.source ≡ source_of b.store)
    × (b.ingestion.sync_on_ingest ≡ cfg.ingestion.sync_on_ingest)
    × (b.ready_checks
        ≡ writable_dir cfg.analytics_dir ∷ (store_check b.store ∷ queue_checks b.parts))

-- The store comes with its own check, and a store of files is the directory of the configuration.
abbrev IsChosen : AppConfig → Store → ReadyCheck → Type 0
IsChosen cfg (file_store dir) check = (dir ≡ cfg.logs_dir) × (check ≡ writable_dir dir)
IsChosen cfg (object_store r) check = check ≡ bucket_ready r

build_store-IsChosen :
    (a : BuildAnswers) (cfg : AppConfig) (store : Store) (check : ReadyCheck)
    → build_store a cfg ≡ done (store, check)
    → IsChosen cfg store check
unfolding build_store
build_store-IsChosen a cfg (file_store dir) check h = ground arith
build_store-IsChosen a cfg (object_store r) check h = ground arith

assemble-SharesStore :
    (cfg : AppConfig) (store : Store) (check : ReadyCheck) (parts : Option QueueParts)
    → IsChosen cfg store check
    → SharesStore cfg (assemble cfg store check parts)
unfolding assemble new_ingestion
assemble-SharesStore cfg (file_store dir) check none (same, h) =
    (refl, ap log_dir (sym same), refl, rw h refl)
assemble-SharesStore cfg (file_store dir) check (some p) (same, h) =
    (refl, ap log_dir (sym same), refl, rw h refl)
assemble-SharesStore cfg (object_store r) check none h = (refl, refl, refl, rw h refl)
assemble-SharesStore cfg (object_store r) check (some p) h = (refl, refl, refl, rw h refl)

assemble-WiredDirectly :
    (cfg : AppConfig) (store : Store) (check : ReadyCheck)
    → WiredDirectly (assemble cfg store check none)
unfolding assemble new_ingestion run_cleanups
assemble-WiredDirectly cfg store check = (refl, refl, refl, refl)

assemble-WiredWithQueue :
    (repository : RepositoryOps Store) (a : BuildAnswers) (cfg : AppConfig) (store : Store)
    (check : ReadyCheck) (p : QueueParts)
    → HasParts repository a cfg store p
    → WiredWithQueue cfg (assemble cfg store check (some p))
unfolding assemble new_ingestion run_cleanups
assemble-WiredWithQueue repository a cfg store check p (producer, consumer) = (
  p,
  refl,
  refl,
  refl,
  ap max_attempts producer ∙ app_producer-max_attempts cfg.ingestion,
  ap (λ p. p.started) producer ∙ app_producer-started cfg.ingestion,
  ap (λ c. c.repo) consumer ∙ app_consumer-repo repository a cfg store,
  refl,
)

abbrev pub Wired : AppConfig → Built → Type 0
Wired cfg b =
    SharesStore cfg b
    × (is_version_2 cfg ≡ true → WiredWithQueue cfg b)
    × (is_version_2 cfg ≡ false → WiredDirectly b)

true_not_false : true ≢ false
true_not_false h = ground arith

-- When BuildApp returns a server: the ingestion service writes to the chosen repository, and the
-- aggregation reads the logs of the same one; /ready asks for the analytics directory, for the
-- repository, and in version 2 for Kafka. In version 2 the consumer writes to that repository too, the
-- ingestion service queues to the producer, which publishes each batch in a single attempt and whose
-- workers run unless batches are published while they are ingested; the cleanups close the ingestion
-- service, then the producer, then the consumer. In any other version there are no Kafka parts: the
-- ingestion service has a nil pointer for its producer and writes to the repository.
pub build_app_wires :
    (repository : RepositoryOps Store) (a : BuildAnswers) (cfg : AppConfig) (w : World) (b : Built)
    → (build_app repository a cfg w).0 ≡ done b
    → Wired cfg b
unfolding build_app
build_app_wires repository a cfg w b h = elim (Result-cases (build_store a cfg)) [
  | inr (e, h₁) ↦
      let eq : (build_app repository a cfg w).0 ≡ failed e = ground arith in
      absurd (done_not_failed b e (sym eq ∙ h))
  | inl ((store, check), h₁) ↦
      let chosen = build_store-IsChosen a cfg store check h₁ in
      elim (Bool-cases (is_version_2 cfg)) [
        | inr h₂ ↦
            let made = assemble cfg store check none in
            let eq : (build_app repository a cfg w).0 ≡ done made = ground arith in
            subst (Wired cfg) (done_injective made b (sym eq ∙ h)) (
              assemble-SharesStore cfg store check none chosen,
              (λ h₃. absurd (true_not_false (sym h₃ ∙ h₂))),
              (λ h₃. assemble-WiredDirectly cfg store check),
            )
        | inl h₂ ↦ elim (Result-cases (build_queue repository a cfg store w).0) [
          | inr (e, h₃) ↦
              let eq : (build_app repository a cfg w).0 ≡ failed e = ground arith in
              absurd (done_not_failed b e (sym eq ∙ h))
          | inl (p, h₃) ↦
              let made = assemble cfg store check (some p) in
              let eq : (build_app repository a cfg w).0 ≡ done made = ground arith in
              let parts = build_queue-HasParts repository a cfg store w p h₃ in
              subst (Wired cfg) (done_injective made b (sym eq ∙ h)) (
                assemble-SharesStore cfg store check (some p) chosen,
                (λ h₄. assemble-WiredWithQueue repository a cfg store check p parts),
                (λ h₄. absurd (true_not_false (sym h₂ ∙ h₄))),
              )
        ]
      ]
]
