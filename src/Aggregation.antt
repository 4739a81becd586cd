-- ===== src/Aggregation.antt =====
-- service/aggregation.go: AggregationService, which counts the requests of each hour file of the logs
-- directory and writes a summary of the hour into the analytics directory. The two directories are
-- two file systems, by the names below their roots.
pub mod Paths
pub mod Hours
pub mod Fresh
pub mod Stored
pub mod Walk
use log_forge.Prelude.{
  ℕ, ◌+◌, Bool, true, false, not, ◌&&◌, Option, some, none, List, [], ◌∷◌, ◌++◌, ltb, if◌then◌else◌,
}
use log_forge.Text.{Text, codes, text_eq, has_suffix}
use log_forge.Errors.{Err, message, wrap, Result, done, failed}
use log_forge.Model.{LogRecord, Time}
use log_forge.Calendar.{format_date, format_hour, parse_date, parse_hour, hour_start, truncate_hour}
use log_forge.Dict.{Names, names_eq, lookup, insert}
use log_forge.World.{World, warn, error, log_line, inc_aggregation_runs}
use log_forge.FileRepo.{File, Files, log_path, first_bytes}
use log_forge.Scan.{
  Counts, Tally, no_requests, count, split_lines, ScanEnd, finished, cancelled, too_long, scan_loop,
}

-- The map that becomes the JSON text of a summary.
pub record Summary : Type 0 where
  pub hour : ℕ
  pub requests_per_path : Counts
  pub requests_per_user_agent : Counts

-- How os.Open goes.
pub data Opening : Type 0 where
  opened vanished : Opening
  refused : Err → Opening

-- How os.WriteFile fails: it cannot open the file, or it has written some bytes before it stops.
pub data WriteFailure : Type 0 where
  unopened : Err → WriteFailure
  stopped : ℕ → Err → WriteFailure

-- What the context, the file system, the codec and the clock answer while a file is aggregated.
-- `read_err` is a read error, with the number of bytes that were read before it.
pub record HourAnswers : Type 0 where
  pub stat_err : Option Err
  pub summary_stat_err : Option Err
  pub opening : Opening
  pub read_err : Option (ℕ × Err)
  pub ctx_err : ℕ → Option Err
  pub decode : Text → Result LogRecord
  pub mkdir_err : Option Err
  pub marshal : Summary → Result Text
  pub write_err : Option WriteFailure
  pub now : ℕ

-- `summaryPath`, below the analytics directory.
unfoldable pub summary_path : ℕ → Names
summary_path hour_start =
    format_date hour_start ∷ ((codes "summary_" ++ (format_hour hour_start ++ codes ".json")) ∷ [])

-- The handling of one line.
unfoldable pub count_line : (Text → Result LogRecord) → Text → Tally → World → Tally × World
unfolding count log_line
count_line decode line t w = elim (decode line) [
  | failed e ↦ (t, log_line warn "skip malformed log record" w)
  | done rec ↦ (count rec t, w)
]

abbrev pub token_too_long : Err
token_too_long = message (codes "bufio.Scanner: token too long")

-- `writeSummary`.
unfoldable pub write_summary : HourAnswers → ℕ → Tally → Files → Files × Option Err
unfolding summary_path
write_summary a hour t analytics =
    let path = summary_path hour in
    let summary : Summary = record {
      hour = hour;
      requests_per_path = t.requests_per_path;
      requests_per_user_agent = t.requests_per_user_agent;
    } in
    elim a.mkdir_err [
      | some e ↦ (analytics, some (wrap (codes "create analytics directory: ") e))
      | none ↦ elim (a.marshal summary) [
        | failed e ↦ (analytics, some (wrap (codes "marshal summary: ") e))
        | done text ↦ elim a.write_err [
          | none ↦
              (insert names_eq path (record { content = text; mod_time = a.now }) analytics, none)
          | some (unopened e) ↦ (analytics, some (wrap (codes "write summary: ") e))
          | some (stopped n e) ↦ (
            insert names_eq path (record { content = first_bytes n text; mod_time = a.now })
                analytics,
            some (wrap (codes "write summary: ") e),
          )
        ]
      ]
    ]

-- What the file holds as far as it can be read.
abbrev pub readable : HourAnswers → Text → Text
readable a content = elim a.read_err [ none ↦ content | some (n, e) ↦ first_bytes n content ]

-- `aggregateFile` from the opened file on.
unfoldable pub aggregate_content :
    HourAnswers → ℕ → Text → Files → World → Files × World × Option Err
unfolding count_line
aggregate_content a hour content analytics w =
    let (t, w', end) =
      scan_loop (count_line a.decode) a.ctx_err 0 (split_lines (readable a content)) no_requests
        w in
    let (analytics', r) = write_summary a hour t analytics in
    elim end [
      | cancelled e ↦ (analytics, w', some e)
      | too_long ↦ (analytics, w', some (wrap (codes "scan log file: ") token_too_long))
      | finished ↦ elim a.read_err [
        | some (n, e) ↦ (analytics, w', some (wrap (codes "scan log file: ") e))
        | none ↦ (analytics', w', r)
      ]
    ]

-- Whether the summary is up-to-date with the log file.
unfoldable pub is_current : HourAnswers → ℕ → ℕ → Files → Bool
unfolding summary_path
is_current a hour mod_time analytics = elim a.summary_stat_err [
  | some e ↦ false
  | none ↦ elim (lookup names_eq (summary_path hour) analytics) [
    | none ↦ false
    | some summary ↦ not (ltb summary.mod_time mod_time)
  ]
]

-- `aggregateFile`.
unfoldable pub aggregate_file :
    HourAnswers → Names → ℕ → Files → Files → World → Files × World × Option Err
unfolding aggregate_content is_current
aggregate_file a path hour logs analytics w = elim a.stat_err [
  | some e ↦ (analytics, w, some (wrap (codes "stat log file: ") e))
  | none ↦ elim (lookup names_eq path logs) [
    | none ↦ (analytics, w, none)
    | some file ↦
        if is_current a hour file.mod_time analytics then (analytics, w, none) else elim a.opening [
          | vanished ↦ (analytics, w, none)
          | refused e ↦ (analytics, w, some (wrap (codes "open log file: ") e))
          | opened ↦ aggregate_content a hour file.content analytics w
        ]
  ]
]

-- `AggregateHour`, for a context that is done or not, and a time.
unfoldable pub aggregate_hour :
    Option Err → HourAnswers → Time → Files → Files → World → Files × World × Option Err
unfolding aggregate_file log_path
aggregate_hour ctx_err a ts logs analytics w =
    let hour = truncate_hour ts.instant in
    elim ctx_err [
      | some e ↦ (analytics, w, some e)
      | none ↦ aggregate_file a (log_path hour) hour logs analytics w
    ]

-- `strings.TrimSuffix`.
unfoldable pub trim_suffix : Text → Text → Text
unfolding text_eq
trim_suffix suffix [] = []
trim_suffix suffix (c ∷ s) =
    let rest = trim_suffix suffix s in if text_eq (c ∷ s) suffix then [] else c ∷ rest

-- `filepath.Dir` and `filepath.Base` of a path below the root. There is no directory part, `.`, for a
-- file in the root itself.
unfoldable pub rel_dir : Names → Text
rel_dir [] = codes "."
rel_dir (n ∷ []) = codes "."
rel_dir (n ∷ (m ∷ [])) = n
rel_dir (n ∷ (m ∷ (k ∷ names))) = n ++ (b'/' ∷ rel_dir (m ∷ (k ∷ names)))

unfoldable pub rel_base : Names → Text
rel_base [] = codes "."
rel_base (n ∷ []) = n
rel_base (n ∷ (m ∷ names)) = rel_base (m ∷ names)

-- `parseHourFromPath` on a path below the logs directory.
unfoldable pub parse_hour_from_path : Names → Option ℕ
unfolding trim_suffix rel_dir rel_base has_suffix parse_date parse_hour text_eq
parse_hour_from_path names =
    let base = rel_base names in
    if text_eq (rel_dir names) (codes ".")
    then none
    else if not (has_suffix base (codes ".log.json"))
    then none
    else elim (parse_date (rel_dir names)) [
      | none ↦ none
      | some day ↦ elim (parse_hour (trim_suffix (codes ".log.json") base)) [
        | none ↦ none
        | some hour ↦ some (hour_start day hour)
      ]
    ]

-- What filepath.WalkDir reports: a path it cannot read, a directory, or a file, with what the context
-- says when its turn comes and the answers for it.
pub data Entry : Type 0 where
  broken directory : Names → Entry
  file : Names → Option Err → HourAnswers → Entry

-- `AggregateAll`: the entries in the order of the walk.
unfoldable pub aggregate_all : List Entry → Files → Files → World → Files × World × Option Err
unfolding aggregate_file parse_hour_from_path log_line has_suffix rel_base
aggregate_all [] logs analytics w = (analytics, w, none)
aggregate_all (broken path ∷ entries) logs analytics w =
    aggregate_all entries logs analytics (log_line warn "skip path during aggregation walk" w)
aggregate_all (directory path ∷ entries) logs analytics w = aggregate_all entries logs analytics w
aggregate_all (file path ctx_err a ∷ entries) logs analytics w =
    if not (has_suffix (rel_base path) (codes ".log.json"))
    then aggregate_all entries logs analytics w
    else elim ctx_err [
      | some e ↦ (analytics, w, some e)
      | none ↦ elim (parse_hour_from_path path) [
        | none ↦ aggregate_all entries logs analytics (log_line warn "skip unexpected log path" w)
        | some hour ↦
            let (analytics', w', r) = aggregate_file a path hour logs analytics w in
            elim r [
              | none ↦ aggregate_all entries logs analytics' w'
              | some e ↦
                  aggregate_all entries logs analytics' (log_line error "aggregate hour failed" w')
            ]
      ]
    ]

-- `run`.
unfoldable pub run : List Entry → Files → Files → World → Files × World
unfolding aggregate_all log_line inc_aggregation_runs
run entries logs analytics w =
    let (analytics', w', r) = aggregate_all entries logs analytics w in
    elim r [
      | none ↦ (analytics', inc_aggregation_runs w')
      | some e ↦ (analytics', inc_aggregation_runs (log_line error "aggregation run failed" w'))
    ]

-- The goroutine of `Start`: a run at once and one at each tick until the context is done. A walk
-- comes with the logs as they are at its time.
unfoldable pub start :
    List Entry × Files → List (List Entry × Files) → Files → World → Files × World
unfolding run
start (entries, logs) [] analytics w = run entries logs analytics w
start (entries, logs) (tick ∷ ticks) analytics w =
    let (analytics', w') = run entries logs analytics w in start tick ticks analytics' w'
