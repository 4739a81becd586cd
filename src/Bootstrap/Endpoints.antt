-- ===== src/Bootstrap/Endpoints.antt =====
-- The endpoints of the application itself in cmd/bootstrap/app.go: /ready, /version and /health.
use log_forge.Prelude.{Bool, true, false, not, Option, some, none, List, map, if◌then◌else◌}
use log_forge.Prelude.Int.{ℤ}
use log_forge.Text.{Text, codes, text_eq}
use log_forge.Errors.{Err, message, Result}
use log_forge.World.{World}
use log_forge.Queue.{KafkaQueue, check_connectivity}
use log_forge.Http.{Response}
use log_forge.ObjectRepo.{check_ready}
use log_forge.Bootstrap.{
  BuildInfo, App, DirAnswers, check_writable_dir, run_readiness_checks, ReadyCheck, writable_dir,
  bucket_ready, kafka_reachable, QueueParts, Built,
}

-- The handler of /ready. `allow` stands for `Allow: GET` here.
unfoldable pub ready_reply :
    {S : Type 0} → Text → List (Option (S → S × Option Err)) → S → S × Response
unfolding run_readiness_checks text_eq
ready_reply method checks s =
    if not (text_eq method (codes "GET"))
    then (
      s,
      record { status = 405; body = codes "method not allowed"; allow = true; retry_after = false },
    )
    else let r = run_readiness_checks checks s in
      elim r.1 [
        | some e ↦ (
          r.0,
          record { status = 503; body = codes "not ready"; allow = false; retry_after = false },
        )
        | none ↦
            (r.0, record { status = 200; body = codes "ready"; allow = false; retry_after = false })
      ]

-- What the checks meet when /ready is asked: the file system for each directory, the bucket, the
-- dialer of each broker.
pub record ReadyAnswers : Type 0 where
  pub directories : Text → DirAnswers
  pub bucket_exists : Result Bool
  pub dial : Text → Option Err × Option Err
  -- `%q`.
  pub quoted : Text → Text

-- The queue, where there is one, and the world.
abbrev pub Live : Type 0
Live = Option KafkaQueue × World

-- A function in `readyChecks`, called. CheckConnectivity on a nil queue is an error.
unfoldable pub run_check : ReadyAnswers → ReadyCheck → Live → Live × Option Err
unfolding check_writable_dir check_ready check_connectivity
run_check a (writable_dir path) s = (s, check_writable_dir (a.directories path) path)
run_check a (bucket_ready r) s = (s, check_ready a.quoted a.bucket_exists r)
run_check a kafka_reachable (none, w) =
    ((none, w), some (message (codes "kafka queue not configured")))
run_check a kafka_reachable (some q, w) =
    let (q', w', r) = check_connectivity a.dial q w in ((some q', w'), r)

abbrev pub queue_of : Option QueueParts → Option KafkaQueue
queue_of none = none
queue_of (some p) = some p.queue

-- /ready on an application.
unfoldable pub serve_ready : ReadyAnswers → Text → Built → World → Live × Response
unfolding ready_reply run_check
serve_ready a method b w =
    ready_reply method (map (λ check. some (run_check a check)) b.ready_checks)
      (queue_of b.parts, w)

-- The handler of /version; `encode` is encoding/json.
unfoldable pub version_reply : (BuildInfo → ℤ → Text) → App → Text → Response
unfolding text_eq
version_reply encode app method =
    if not (text_eq method (codes "GET"))
    then record {
      status = 405;
      body = codes "method not allowed";
      allow = true;
      retry_after = false;
    }
    else record {
      status = 200;
      body = encode app.build_info app.cfg.version;
      allow = false;
      retry_after = false;
    }

-- The handler of /health.
abbrev pub health_reply : Response
health_reply = record { status = 200; body = codes "ok"; allow = false; retry_after = false }
