-- ===== src/Aggregation/Stored.antt =====
-- The file repository and the aggregation together: repo/file_repo.go writes what
-- service/aggregation.go reads.
use log_forge.Prelude.{
  ℕ, ◌≡◌, refl, ap, sym, ◌∙◌, false, none, some, List, [], ◌∷◌, ◌++◌, arith, Bool-cases, inl, inr,
  All,
}
use mathlib.Core.Path.{subst}
use mathlib.Core.List.{append-nil, append_assoc}
use log_forge.Text.{Text}
use log_forge.Errors.{Result, done}
use log_forge.Model.{LogRecord, Time}
use log_forge.World.{World}
use log_forge.Calendar.{truncate_hour}
use log_forge.Dict.{Names, names_eq, lookup}
use log_forge.FileRepo.{File, Files, FileAnswers, content_of, log_path, save_batch}
use log_forge.FileRepo.Stores.{mine, lines_of, line_of, Visits}
use log_forge.FileRepo.Batch.{save_batch_stores}
use log_forge.Scan.{Tally, count_of, split_lines}
use log_forge.Scan.Laws.{Fits}
use log_forge.Scan.Lines.{OneLine, records_with, lines_of-Fits, total-hits-lines_of}
use log_forge.Aggregation.{HourAnswers, summary_path, is_current, aggregate_file, aggregate_hour}
use log_forge.Aggregation.Paths.{log_path-truncate_hour}
use log_forge.Aggregation.Hours.{Reads, Makes, lines_with, summary_of, aggregate_file_counts}

abbrev pub Batches : Type 0
Batches = List (FileAnswers × List LogRecord)

-- Calls of SaveBatch in turn.
abbrev pub save_all : Batches → Files → Files
save_all [] files = files
save_all ((a, records) ∷ batches) files = save_all batches (save_batch a records files).0

-- All records of the calls, in order.
abbrev pub records_of : Batches → List LogRecord
records_of [] = []
records_of ((a, records) ∷ batches) = records ++ records_of batches

-- No call returns an error, each visits its groups once, and all encode alike.
abbrev pub Sound : (LogRecord → Result Text) → Batches → Files → Type 0
Sound encode [] files = Unit
Sound encode ((a, records) ∷ batches) files =
    ((save_batch a records files).1 ≡ none)
    × Visits a.order records
    × (a.encode ≡ encode)
    × Sound encode batches (save_batch a records files).0

mine-append :
    (path : Names) (xs ys : List LogRecord) → mine path (xs ++ ys) ≡ mine path xs ++ mine path ys
mine-append path [] ys = refl
mine-append path (rec ∷ xs) ys =
    let rest = mine-append path xs ys in
    elim (Bool-cases (names_eq (log_path rec.timestamp.instant) path)) [
      | inl h ↦ ground arith
      | inr h ↦ ground arith
    ]

lines_of-append :
    (encode : LogRecord → Result Text) (xs ys : List LogRecord)
    → lines_of encode (xs ++ ys) ≡ lines_of encode xs ++ lines_of encode ys
lines_of-append encode [] ys = refl
lines_of-append encode (rec ∷ xs) ys =
    ap (λ t. line_of encode rec ++ t) (lines_of-append encode xs ys)
    ∙ sym (append_assoc (line_of encode rec) (lines_of encode xs) (lines_of encode ys))

save_all_stores :
    (encode : LogRecord → Result Text) (batches : Batches) (files : Files)
    → Sound encode batches files
    → (path : Names)
    → content_of path (save_all batches files)
      ≡ content_of path files ++ lines_of encode (mine path (records_of batches))
save_all_stores encode [] files h path = sym (append-nil (content_of path files))
save_all_stores encode ((a, records) ∷ batches) files h path =
    let (ok, visits, same, rest) = h in
    let files' = (save_batch a records files).0 in
    let first = save_batch_stores a records files visits ok path in
    let own = mine path records in
    let later = mine path (records_of batches) in
    save_all_stores encode batches files' rest path
    ∙ ap (λ c. c ++ lines_of encode later) first
    ∙ append_assoc (content_of path files) (lines_of a.encode own) (lines_of encode later)
    ∙ ap (λ e. content_of path files ++ (lines_of e own ++ lines_of encode later)) same
    ∙ ap (λ t. content_of path files ++ t)
        (sym (lines_of-append encode own later)
          ∙ ap (lines_of encode) (sym (mine-append path records (records_of batches))))

-- The summary of an hour, written at the clock's time: the text of the counts of some records.
abbrev pub ReportsRecords : HourAnswers → ℕ → List LogRecord → Files → Type 0
ReportsRecords a hour records analytics =
    (t : Tally) × (text : Text) × ((key : Text)
      → (count_of key t.requests_per_path ≡ records_with (λ rec. rec.path) key records)
        × (count_of key t.requests_per_user_agent
            ≡ records_with (λ rec. rec.user_agent) key records))
    × (a.marshal (summary_of hour t) ≡ done text)
    × (lookup names_eq (summary_path hour) analytics
        ≡ some (record { content = text; mod_time = a.now }))

content_of-found :
    (path : Names) (files : Files) (f : File)
    → lookup names_eq path files ≡ some f
    → content_of path files ≡ f.content
content_of-found path files f h = ground arith

lines_with-lines_of :
    (encode : LogRecord → Result Text) (decode : Text → Result LogRecord) (content : Text)
    (records : List LogRecord)
    → content ≡ lines_of encode records
    → All (OneLine encode decode) records
    → (field : LogRecord → Text) (key : Text)
    → lines_with decode field content key ≡ records_with field key records
lines_with-lines_of encode decode content records h codec field key =
    ap (λ c. lines_with decode field c key) h
    ∙ total-hits-lines_of encode decode field key records codec

aggregate_file_counts_lines :
    (encode : LogRecord → Result Text) (a : HourAnswers)
    → Reads a
    → Makes a
    → a.write_err ≡ none
    → (path : Names) (hour : ℕ) (logs analytics : Files) (w : World) (f : File)
      (records : List LogRecord)
    → f.content ≡ lines_of encode records
    → All (OneLine encode a.decode) records
    → lookup names_eq path logs ≡ some f
    → is_current a hour f.mod_time analytics ≡ false
    → let r = aggregate_file a path hour logs analytics w in
      (r.2 ≡ none) × ReportsRecords a hour records r.0
aggregate_file_counts_lines encode a reads makes written path hour logs analytics w f records h
      codec found stale =
    let fits =
      subst (λ c. Fits (split_lines c)) (sym h) (lines_of-Fits encode a.decode records codec) in
    let (result, (t, text, counted, encoded, stored)) =
      aggregate_file_counts a reads makes written path hour logs analytics w f found stale fits in
    let of_records = lines_with-lines_of encode a.decode f.content records h codec in
    (
      result,
      (
        t,
        text,
        λ key. (
          (counted key).0 ∙ of_records (λ rec. rec.path) key,
          (counted key).1 ∙ of_records (λ rec. rec.user_agent) key,
        ),
        encoded,
        stored,
      ),
    )

-- Records that SaveBatch stored are the records that the aggregation counts: after any calls of
-- SaveBatch, none of which returns an error, into a file that was missing or empty, AggregateHour without a
-- failure writes the summary whose count for each path and each user agent is the number of records
-- of the calls that belong into the file of the hour and have it. The codec must write each of these
-- records as one line that fits the scanner, and read it back.
pub aggregate_hour_counts_saved :
    (encode : LogRecord → Result Text) (batches : Batches) (files : Files)
    → Sound encode batches files
    → (a : HourAnswers) → Reads a
    → Makes a
    → a.write_err ≡ none
    → (ts : Time) (analytics : Files) (w : World) (f : File)
    → content_of (log_path ts.instant) files ≡ []
    → All (OneLine encode a.decode) (mine (log_path ts.instant) (records_of batches))
    → lookup names_eq (log_path ts.instant) (save_all batches files) ≡ some f
    → is_current a (truncate_hour ts.instant) f.mod_time analytics ≡ false
    → let r = aggregate_hour none a ts (save_all batches files) analytics w in
      (r.2 ≡ none)
      × ReportsRecords a
          (truncate_hour ts.instant)
          (mine (log_path ts.instant) (records_of batches))
          r.0
unfolding aggregate_hour
aggregate_hour_counts_saved encode batches files sound a reads makes written ts analytics w f empty
      codec found stale =
    let hour = truncate_hour ts.instant in
    let same = log_path-truncate_hour ts.instant in
    let logs = save_all batches files in
    let path = log_path ts.instant in
    let records = mine path (records_of batches) in
    let content =
      sym (content_of-found path logs f found)
      ∙ save_all_stores encode batches files sound path
      ∙ ap (λ c. c ++ lines_of encode records) empty in
    aggregate_file_counts_lines encode a reads makes written (log_path hour) hour logs analytics w f
      records content codec (ap (λ p. lookup names_eq p logs) same ∙ found) stale
