-- ===== src/Aggregation/Hours.antt =====
-- What aggregateFile of service/aggregation.go writes.
use log_forge.Prelude.{ℕ, ◌≡◌, inl, inr, refl, ap, ◌∙◌, false, none, some, arith}
use log_forge.Text.{Text}
use log_forge.Errors.{Result, done}
use log_forge.Errors.Cases.{Result-cases}
use log_forge.Model.{LogRecord}
use log_forge.World.{World}
use log_forge.Dict.{Names, names_eq, lookup, insert}
use log_forge.Dict.Laws.{names_eq_iff, lookup-insert}
use log_forge.FileRepo.{File, Files}
use log_forge.Scan.{count_of, Tally, no_requests, count, split_lines, drop_cr, finished, scan_loop}
use log_forge.Scan.Laws.{
  count_of-increment, total, hits, Fits, Adds, scan_loop-finishes, scan_loop-counts,
}
use log_forge.Aggregation.{
  Summary, HourAnswers, opened, summary_path, count_line, write_summary, aggregate_content,
  is_current, aggregate_file,
}

-- The file of an hour can be read to its end.
pub record Reads (a : HourAnswers) : Type 0 where
  pub found : a.stat_err ≡ none
  pub opens : a.opening ≡ opened
  pub read : a.read_err ≡ none
  pub alive : (i : ℕ) → a.ctx_err i ≡ none

-- A summary can be made.
pub record Makes (a : HourAnswers) : Type 0 where
  pub made : a.mkdir_err ≡ none
  pub encoded : (s : Summary) → (text : Text) × (a.marshal s ≡ done text)

abbrev pub summary_of : ℕ → Tally → Summary
summary_of hour t = record {
  hour = hour;
  requests_per_path = t.requests_per_path;
  requests_per_user_agent = t.requests_per_user_agent;
}

-- How many lines of a file hold a record with a field equal to a text.
abbrev pub lines_with : (Text → Result LogRecord) → (LogRecord → Text) → Text → Text → ℕ
lines_with decode field content key =
    total (λ line. hits decode field key (drop_cr line)) (split_lines content)

-- A tally that counts the records of a file.
abbrev pub CountsFile : (Text → Result LogRecord) → Text → Tally → Type 0
CountsFile decode content t =
    (key : Text)
    → (count_of key t.requests_per_path ≡ lines_with decode (λ rec. rec.path) content key)
      × (count_of key t.requests_per_user_agent
          ≡ lines_with decode (λ rec. rec.user_agent) content key)

count_line-Adds-path :
    (decode : Text → Result LogRecord) (key : Text)
    → Adds (count_line decode) (λ t. t.requests_per_path) key (hits decode (λ rec. rec.path) key)
unfolding count_line count
count_line-Adds-path decode key line t w = elim (Result-cases (decode line)) [
  | inr (e, h) ↦ ground arith
  | inl (rec, h) ↦ let law = count_of-increment rec.path key t.requests_per_path in ground arith
]

count_line-Adds-user_agent :
    (decode : Text → Result LogRecord) (key : Text)
    → Adds
        (count_line decode)
        (λ t. t.requests_per_user_agent)
        key
        (hits decode (λ rec. rec.user_agent) key)
unfolding count_line count
count_line-Adds-user_agent decode key line t w = elim (Result-cases (decode line)) [
  | inr (e, h) ↦ ground arith
  | inl (rec, h) ↦
      let law = count_of-increment rec.user_agent key t.requests_per_user_agent in ground arith
]

module _ (a : HourAnswers) (hour : ℕ) (content : Text) (analytics : Files) (w : World) where
  -- The scan of a file that reads to its end.
  abbrev scanned : Tally
  scanned = (scan_loop (count_line a.decode) a.ctx_err 0 (split_lines content) no_requests w).0

  aggregate_content-scanned :
      a.read_err ≡ none
      → (scan_loop (count_line a.decode) a.ctx_err 0 (split_lines content) no_requests w).2
        ≡ finished
      → aggregate_content a hour content analytics w ≡ (
        (write_summary a hour scanned analytics).0,
        (scan_loop (count_line a.decode) a.ctx_err 0 (split_lines content) no_requests w).1,
        (write_summary a hour scanned analytics).1,
      )
  unfolding aggregate_content
  aggregate_content-scanned h₁ h₂ = ground arith

pub lookup-insert_same :
    (path : Names) (f : File) (files : Files)
    → lookup names_eq path (insert names_eq path f files) ≡ some f
lookup-insert_same path f files =
    let law = lookup-insert names_eq names_eq_iff path path f files in
    let same = (names_eq_iff path path).1 refl in ground arith

pub write_summary-written :
    (a : HourAnswers) (hour : ℕ) (t : Tally) (analytics : Files) (text : Text)
    → a.mkdir_err ≡ none
    → a.marshal (summary_of hour t) ≡ done text
    → a.write_err ≡ none
    → write_summary a hour t analytics ≡ (
      insert names_eq (summary_path hour) (record { content = text; mod_time = a.now }) analytics,
      none,
    )
unfolding write_summary
write_summary-written a hour t analytics text h₁ h₂ h₃ = ground arith

pub aggregate_file-stale :
    (a : HourAnswers) (path : Names) (hour : ℕ) (logs analytics : Files) (w : World) (f : File)
    → a.stat_err ≡ none
    → lookup names_eq path logs ≡ some f
    → is_current a hour f.mod_time analytics ≡ false
    → a.opening ≡ opened
    → aggregate_file a path hour logs analytics w ≡ aggregate_content a hour f.content analytics w
unfolding aggregate_file
aggregate_file-stale a path hour logs analytics w f h₁ h₂ h₃ h₄ = ground arith

-- The summary of an hour, written at the clock's time: the text of the counts of a file.
abbrev pub HoldsSummary : HourAnswers → ℕ → Text → Files → Type 0
HoldsSummary a hour content analytics =
    (t : Tally) × (text : Text) × CountsFile a.decode content t
    × (a.marshal (summary_of hour t) ≡ done text)
    × (lookup names_eq (summary_path hour) analytics
        ≡ some (record { content = text; mod_time = a.now }))

-- The scan of a whole file counts its records, and what follows is up to the writing of the summary.
pub aggregate_file_scans :
    (a : HourAnswers)
    → Reads a
    → (path : Names) (hour : ℕ) (logs analytics : Files) (w : World) (f : File)
    → lookup names_eq path logs ≡ some f
    → is_current a hour f.mod_time analytics ≡ false
    → Fits (split_lines f.content)
    → (t : Tally) × CountsFile a.decode f.content t
      × ((aggregate_file a path hour logs analytics w).0 ≡ (write_summary a hour t analytics).0)
      × ((aggregate_file a path hour logs analytics w).2 ≡ (write_summary a hour t analytics).1)
unfolding lookup
aggregate_file_scans a ok path hour logs analytics w f found stale fits =
    let lines = split_lines f.content in
    let end =
      scan_loop-finishes (count_line a.decode) a.ctx_err 0 lines no_requests w fits ok.alive in
    let all =
      aggregate_file-stale a path hour logs analytics w f ok.found found stale ok.opens
      ∙ aggregate_content-scanned a hour f.content analytics w ok.read end in
    (
      scanned a hour f.content analytics w,
      λ key.
          let by_path =
            scan_loop-counts (count_line a.decode) (λ t. t.requests_per_path) key
              (hits a.decode (λ rec. rec.path) key) (count_line-Adds-path a.decode key) a.ctx_err 0
              lines no_requests w fits ok.alive in
          let by_agent =
            scan_loop-counts (count_line a.decode) (λ t. t.requests_per_user_agent) key
              (hits a.decode (λ rec. rec.user_agent) key) (count_line-Adds-user_agent a.decode key)
              a.ctx_err 0 lines no_requests w fits ok.alive in
          (by_path ∙ (omega arith), by_agent ∙ (omega arith)),
      ap (λ r. r.0) all,
      ap (λ r. r.2) all,
    )

-- When an hour file has no up-to-date summary, every line of it fits the scanner and nothing fails,
-- aggregateFile returns no error and writes the summary whose count for each path and for each user
-- agent is the number of lines that hold a record with it. Lines that do not parse count for nothing.
pub aggregate_file_counts :
    (a : HourAnswers)
    → Reads a
    → Makes a
    → a.write_err ≡ none
    → (path : Names) (hour : ℕ) (logs analytics : Files) (w : World) (f : File)
    → lookup names_eq path logs ≡ some f
    → is_current a hour f.mod_time analytics ≡ false
    → Fits (split_lines f.content)
    → ((aggregate_file a path hour logs analytics w).2 ≡ none)
      × HoldsSummary a hour f.content (aggregate_file a path hour logs analytics w).0
aggregate_file_counts a reads makes written path hour logs analytics w f found stale fits =
    let (t, counted, files, result) =
      aggregate_file_scans a reads path hour logs analytics w f found stale fits in
    let (text, h) = makes.encoded (summary_of hour t) in
    let stored = write_summary-written a hour t analytics text makes.made h written in
    let path = summary_path hour in
    (
      result ∙ ap (λ r. r.1) stored,
      (
        t,
        text,
        counted,
        h,
        ap (lookup names_eq path) files
            ∙ ap (λ r. lookup names_eq path r.0) stored
            ∙ lookup-insert_same path (record { content = text; mod_time = a.now }) analytics,
      ),
    )
