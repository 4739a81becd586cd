-- ===== src/Consumer/Sink/Recording.antt =====
-- A repository that keeps what it was given, around any repository of the services.
use log_forge.Prelude.{Option, none, some, List, [], ◌∷◌}
use log_forge.Errors.{Err}
use log_forge.Model.{LogRecord}
use log_forge.Ingestion.{RepositoryOps}

-- A repository that also keeps the batches it was given and those it stored, the last one first.
pub record Recorded (R : Type 0) : Type 0 where
  pub repo : R
  pub given : List (List LogRecord)
  pub stored : List (List LogRecord)

abbrev pub if_stored : Option Err → List LogRecord → List (List LogRecord) → List (List LogRecord)
if_stored none l stored = l ∷ stored
if_stored (some e) l stored = stored

unfoldable pub recording : {R : Type 0} → RepositoryOps R → RepositoryOps (Recorded R)
recording repository = record {
  save_batch = λ l r w.
      let (repo', w', e) = repository.save_batch l r.repo w in
      (record { repo = repo'; given = l ∷ r.given; stored = if_stored e l r.stored }, w', e);
}

abbrev pub unrecorded : {R : Type 0} → R → Recorded R
unrecorded repo = record { repo = repo; given = []; stored = [] }
