-- ===== src/Consumer/Sink/Commits.antt =====
-- Which messages the writer of service/consumer.go commits, whatever runs in between.
use log_forge.Prelude.{ℕ, ◌+◌, ◌≤◌, ◌≡◌, List, length}
use log_forge.Prelude.Weights.{weigh}
use log_forge.Model.{LogRecord}
use log_forge.World.{World}
use log_forge.Ingestion.{RepositoryOps}
use log_forge.Consumer.Sink.Recording.{Recorded}
use log_forge.Consumer.Sink.{Sink}

-- The repository commits no message itself.
abbrev pub LeavesCommits : {R : Type 0} → RepositoryOps R → Type 0
LeavesCommits {R} repository =
    (l : List LogRecord) (r : R) (w : World) → (repository.save_batch l r w).1.commits ≡ w.commits

module _ {R : Type 0} (repository : RepositoryOps R) (leaves : LeavesCommits repository) where
  -- No more messages were committed than records were stored.
  abbrev WithinStored : ℕ → Recorded R → World → Type 0
  WithinStored n repo w = length w.commits ≤ n + weigh length repo.stored
