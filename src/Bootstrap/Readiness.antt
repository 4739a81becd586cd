-- ===== src/Bootstrap/Readiness.antt =====
-- The readiness endpoint of cmd/bootstrap/app.go.
use log_forge.Prelude.{
  ◌≡◌, ◌≢◌, ◌↔◌, ◌⊎◌, inl, inr, refl, ap, sym, ◌∙◌, Bool, true, false, Option, some, none, List,
  ◌∷◌, map, arith, is_empty, Bool-cases, Option-cases,
}
use log_forge.Text.{Text, codes, text_eq, trim_space}
use log_forge.Text.Trim.{text_eq_iff}
use log_forge.Errors.{Err, Result, done, failed}
use log_forge.ObjectRepo.{ObjectRepo, check_ready}
use log_forge.Bootstrap.{
  a_directory, missing, DirAnswers, try_directory, check_writable_dir, run_readiness_checks,
  ReadyCheck, writable_dir, Store, file_store, object_store, QueueParts, Built, BuildAnswers,
  AppConfig, build_app,
}
use log_forge.Bootstrap.Endpoints.{
  ready_reply, ReadyAnswers, Live, queue_of, run_check, serve_ready,
}
use log_forge.Bootstrap.Wiring.{store_check, queue_checks, build_app_wires}
use log_forge.Queue.{check_connectivity}
use log_forge.Queue.Connect.{Finds, check_connectivity_iff}
use log_forge.Ingestion.{RepositoryOps}
use log_forge.World.{World}

none_not_some : (e : Err) → none ≢ some e
none_not_some e h = ground arith

true_not_false : true ≢ false
true_not_false h = ground arith

-- A check that passes lets the next ones decide.
run_readiness_checks_step :
    {S : Type 0} (check : S → S × Option Err) (checks : List (Option (S → S × Option Err))) (s : S)
    → ((run_readiness_checks (some check ∷ checks) s).1 ≡ none)
      ↔ (((check s).1 ≡ none) × ((run_readiness_checks checks (check s).0).1 ≡ none))
unfolding run_readiness_checks
run_readiness_checks_step check checks s = elim (Option-cases (check s).1) [
  | inl ok ↦ ground arith
  | inr (e, bad) ↦ ground arith
]

ready_reply_iff :
    {S : Type 0} (method : Text) (checks : List (Option (S → S × Option Err))) (s : S)
    → ((ready_reply method checks s).1.status ≡ 200)
      ↔ ((method ≡ codes "GET") × ((run_readiness_checks checks s).1 ≡ none))
unfolding ready_reply
ready_reply_iff method checks s =
    let get = text_eq_iff method (codes "GET") in
    elim (Bool-cases (text_eq method (codes "GET"))) [
      | inr h ↦
          let status : (ready_reply method checks s).1.status ≡ 405 = ground arith in
          ((λ e. absurd (omega arith)), (λ r. absurd (true_not_false (sym (get.1 r.0) ∙ h))))
      | inl h ↦ elim (Option-cases (run_readiness_checks checks s).1) [
        | inl ok ↦
            let status : (ready_reply method checks s).1.status ≡ 200 = ground arith in
            ((λ e. (get.0 h, ok)), (λ r. status))
        | inr (e, bad) ↦
            let status : (ready_reply method checks s).1.status ≡ 503 = ground arith in
            ((λ e. absurd (omega arith)), (λ r. absurd (none_not_some e (sym r.1 ∙ bad))))
      ]
    ]

-- The answers with which a directory can be written to.
abbrev pub Writable : DirAnswers → Type 0
Writable a =
    ((a.stat ≡ a_directory) ⊎ (a.stat ≡ missing))
    × (a.mkdir_err ≡ none)
    × (a.create_err ≡ none)
    × (a.close_err ≡ none)
    × (a.remove_err ≡ none)

try_directory_iff :
    (a : DirAnswers) (path : Text)
    → (try_directory a path ≡ none) ↔ (
        (a.mkdir_err ≡ none) × (a.create_err ≡ none) × (a.close_err ≡ none) × (a.remove_err ≡ none))
unfolding try_directory
try_directory_iff a path = ground arith

check_writable_dir_iff :
    (a : DirAnswers) (path : Text)
    → (check_writable_dir a path ≡ none) ↔ ((is_empty (trim_space path) ≡ false) × Writable a)
unfolding check_writable_dir
check_writable_dir_iff a path = let tried = try_directory_iff a (trim_space path) in ground arith

check_ready_iff :
    (quoted : Text → Text) (exists : Result Bool) (r : ObjectRepo)
    → (check_ready quoted exists r ≡ none) ↔ (exists ≡ done true)
unfolding check_ready
check_ready_iff quoted (failed e) r = ground arith
check_ready_iff quoted (done true) r = ground arith
check_ready_iff quoted (done false) r = ground arith

-- What a directory, the repository and Kafka are asked for: a path that is not blank, names a directory
-- or nothing, and in which a file can be made and removed again; a bucket that exists; a broker that
-- accepts, where each one before it refused.
abbrev pub DirectoryReady : ReadyAnswers → Text → Type 0
DirectoryReady a path = (is_empty (trim_space path) ≡ false) × Writable (a.directories path)

abbrev pub StoreReady : ReadyAnswers → Store → Type 0
StoreReady a (file_store dir) = DirectoryReady a dir
StoreReady a (object_store r) = a.bucket_exists ≡ done true

abbrev pub KafkaReady : ReadyAnswers → Option QueueParts → Type 0
KafkaReady a none = Unit
KafkaReady a (some p) = Finds a.dial p.queue.brokers

module _ (a : ReadyAnswers) where
  abbrev checks_of : List ReadyCheck → List (Option (Live → Live × Option Err))
  checks_of checks = map (λ check. some (run_check a check)) checks

  store_check_iff :
      (store : Store) (s : Live)
      → ((run_check a (store_check store) s).1 ≡ none) ↔ StoreReady a store
  unfolding run_check
  store_check_iff (file_store dir) s = check_writable_dir_iff (a.directories dir) dir
  store_check_iff (object_store r) s = check_ready_iff a.quoted a.bucket_exists r

  store_check_quiet : (store : Store) (s : Live) → (run_check a (store_check store) s).0 ≡ s
  unfolding run_check
  store_check_quiet (file_store dir) s = refl
  store_check_quiet (object_store r) s = refl

  queue_checks_iff :
      (parts : Option QueueParts) (w : World)
      → ((run_readiness_checks (checks_of (queue_checks parts)) (queue_of parts, w)).1 ≡ none)
        ↔ KafkaReady a parts
  unfolding run_readiness_checks run_check
  queue_checks_iff none w = ((λ h. tt), (λ h. refl))
  queue_checks_iff (some p) w =
      let reached = check_connectivity_iff a.dial p.queue w in
      elim (Option-cases (check_connectivity a.dial p.queue w).2) [
        | inl ok ↦ ((λ h. reached.0 ok), (λ h. ground arith))
        | inr (e, bad) ↦ ((λ h. absurd (ground arith)), (λ h. absurd (ground (arith, reached.1 h))))
      ]

  all_checks_iff :
      (dir : Text) (store : Store) (parts : Option QueueParts) (w : World)
      → let checks = writable_dir dir ∷ (store_check store ∷ queue_checks parts) in
        ((run_readiness_checks (checks_of checks) (queue_of parts, w)).1 ≡ none)
        ↔ (DirectoryReady a dir × StoreReady a store × KafkaReady a parts)
  unfolding run_check
  all_checks_iff dir store parts w =
      let s : Live = (queue_of parts, w) in
      let rest = checks_of (queue_checks parts) in
      let first =
        run_readiness_checks_step (run_check a (writable_dir dir))
          (some (run_check a (store_check store)) ∷ rest) s in
      let second = run_readiness_checks_step (run_check a (store_check store)) rest s in
      let directory = check_writable_dir_iff (a.directories dir) dir in
      let own = store_check_iff store s in
      let quiet = ap (λ (u : Live). (run_readiness_checks rest u).1) (store_check_quiet store s) in
      let kafka = queue_checks_iff parts w in
      (
        (λ h.
            let (x, y) = first.0 h in
            let (y, z) = second.0 y in (directory.0 x, own.0 y, kafka.0 (sym quiet ∙ z))),
        (λ (x, y, z). first.1 (directory.1 x, second.1 (own.1 y, quiet ∙ kafka.1 z))),
      )

-- On an application that BuildApp has made, /ready answers 200 exactly if the method is GET, the analytics
-- directory and the repository are ready, and, if there is a queue, one of its brokers accepts a
-- connection after each one before it refused.
pub serve_ready_iff :
    (repository : RepositoryOps Store) (built_by : BuildAnswers) (cfg : AppConfig) (w : World)
    (b : Built)
    → (build_app repository built_by cfg w).0 ≡ done b
    → (a : ReadyAnswers) (method : Text) (now : World)
    → ((serve_ready a method b now).1.status ≡ 200) ↔ (
        (method ≡ codes "GET")
        × DirectoryReady a cfg.analytics_dir
        × StoreReady a b.store
        × KafkaReady a b.parts)
unfolding serve_ready
serve_ready_iff repository built_by cfg w b h a method now =
    let registered = (build_app_wires repository built_by cfg w b h).0.3 in
    let live : Live = (queue_of b.parts, now) in
    let reply = ready_reply_iff method (checks_of a b.ready_checks) live in
    let all = all_checks_iff a cfg.analytics_dir b.store b.parts now in
    let same =
      ap (λ (l : List ReadyCheck). (run_readiness_checks (checks_of a l) live).1) registered in
    (
      (λ e. let (get, ok) = reply.0 e in let (x, y, z) = all.0 (sym same ∙ ok) in (get, x, y, z)),
      (λ (get, x, y, z). reply.1 (get, same ∙ all.1 (x, y, z))),
    )
