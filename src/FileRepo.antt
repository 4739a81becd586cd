-- ===== src/FileRepo.antt =====
-- repo/file_repo.go: FileRepo, which appends records to one NDJSON file for each hour. The base
-- directory is the root of the names. A file has one lock of its own, so that appending to it is one
-- step; the locks themselves are left out.
pub mod Stores
pub mod Batch
pub mod Growth
use log_forge.Prelude.{
  ℕ, zero, suc, ◌+◌, Option, some, none, List, [], ◌∷◌, ◌++◌, if◌then◌else◌, is_empty,
}
use log_forge.Text.{Text, codes}
use log_forge.Errors.{Err, wrap, Result, done, failed}
use log_forge.Model.{LogRecord, Time, utc}
use log_forge.Calendar.{format_date, format_hour}
use log_forge.Dict.{Names, names_eq, lookup, insert}
use log_forge.World.{World}
use log_forge.Ingestion.{RepositoryOps}

-- What a file holds, byte for byte, and when it was last written.
pub record File : Type 0 where
  pub content : Text
  pub mod_time : ℕ

abbrev pub Files : Type 0
Files = List (Names × File)

-- The content of a file; one that does not exist has none.
abbrev pub content_of : Names → Files → Text
content_of path files = elim (lookup names_eq path files) [ none ↦ [] | some f ↦ f.content ]

-- The first `n` bytes of a text.
abbrev pub first_bytes : ℕ → Text → Text
first_bytes zero text = []
first_bytes (suc n) [] = []
first_bytes (suc n) (c ∷ text) = c ∷ first_bytes n text

-- What the context, the file system and the clock answer during a call. `order` lists the keys of
-- the map of groups as the `range` visits them. A write that fails has written some bytes before.
pub record FileAnswers : Type 0 where
  pub ctx_err : ℕ → Option Err
  pub order : List Names
  pub mkdir_err : Names → Option Err
  pub open_err : Names → Option Err
  pub encode : LogRecord → Result Text
  pub write_err : Names → ℕ → Option (ℕ × Err)
  pub now : Names → ℕ

-- The file of an hour.
unfoldable pub log_path : ℕ → Names
log_path instant = format_date instant ∷ ((format_hour instant ++ codes ".log.json") ∷ [])

-- `rec.Timestamp = rec.Timestamp.UTC()`.
abbrev pub in_utc : LogRecord → LogRecord
in_utc rec = record rec { timestamp = utc rec.timestamp }

abbrev pub Groups : Type 0
Groups = List (Names × List LogRecord)

-- `grouped[filePath]`, which is nil for a missing key.
abbrev pub group_of : Names → Groups → List LogRecord
group_of path groups = elim (lookup names_eq path groups) [ none ↦ [] | some group ↦ group ]

-- The loop that groups the records, from the record at index `i` on.
unfoldable pub group_records : (ℕ → Option Err) → ℕ → List LogRecord → Groups → Result Groups
unfolding log_path
group_records ctx_err i [] groups = done groups
group_records ctx_err i (rec ∷ records) groups =
    let path = log_path rec.timestamp.instant in
    let grouped = insert names_eq path (group_of path groups ++ in_utc rec ∷ []) groups in
    elim (ctx_err i) [ some e ↦ failed e | none ↦ group_records ctx_err (i + 1) records grouped ]

-- The loop of `appendRecords` from the record at index `i` on, over what the file holds.
unfoldable pub append_loop : FileAnswers → Names → ℕ → List LogRecord → Text → Text × Option Err
append_loop a path i [] content = (content, none)
append_loop a path i (rec ∷ records) content = elim (a.encode rec) [
  | failed e ↦ (content, some (wrap (codes "marshal log record: ") e))
  | done line ↦ elim (a.write_err path i) [
    | some (n, e) ↦
        (content ++ first_bytes n (line ++ b'\n' ∷ []), some (wrap (codes "write log record: ") e))
    | none ↦ append_loop a path (i + 1) records (content ++ (line ++ b'\n' ∷ []))
  ]
]

-- `appendRecords`. The file is created if it is missing.
unfoldable pub append_records : FileAnswers → Names → List LogRecord → Files → Files × Option Err
append_records a path records files = elim (a.open_err path) [
  | some e ↦ (files, some (wrap (codes "open log file: ") e))
  | none ↦
      let (content, r) = append_loop a path 0 records (content_of path files) in
      (insert names_eq path (record { content = content; mod_time = a.now path }) files, r)
]

-- The loop over the groups.
unfoldable pub append_groups : FileAnswers → List Names → Groups → Files → Files × Option Err
append_groups a [] groups files = (files, none)
append_groups a (path ∷ order) groups files = elim (a.mkdir_err path) [
  | some e ↦ (files, some (wrap (codes "create log directory: ") e))
  | none ↦
      let (files', r) = append_records a path (group_of path groups) files in
      elim r [ some e ↦ (files', some e) | none ↦ append_groups a order groups files' ]
]

-- `SaveBatch`.
unfoldable pub save_batch : FileAnswers → List LogRecord → Files → Files × Option Err
save_batch a records files =
    if is_empty records then (files, none) else elim (group_records a.ctx_err 0 records []) [
      | failed e ↦ (files, some e)
      | done groups ↦ append_groups a a.order groups files
    ]

-- The file repository as the repository of the services.
unfoldable pub file_repository : FileAnswers → RepositoryOps Files
file_repository a = record {
  save_batch = λ records files w. let (files', r) = save_batch a records files in (files', w, r);
}
