-- ===== src/Tests/AggregationRuns.antt =====
-- Runs of the aggregation of service/aggregation.go.
use log_forge.Prelude.{
  ℕ, ◌+◌, ◌≡◌, ◌↔◌, refl, ◌==◌, true, false, none, some, List, [], ◌∷◌, arith, All,
}
use log_forge.Text.{Text, codes, text_eq}
use log_forge.Errors.{Result, wrap, done, failed}
use log_forge.Model.{LogRecord, zero_instant}
use log_forge.Calendar.{date_of, truncate_hour, format_date, format_hour}
use log_forge.Dict.{names_eq, lookup, insert}
use log_forge.FileRepo.{
  File, Files, content_of, log_path, first_bytes, save_batch, group_records, append_groups,
  append_records, append_loop,
}
use log_forge.FileRepo.Stores.{mine}
use log_forge.Scan.{Tally, split_lines, drop_cr}
use log_forge.Scan.Laws.{Fits}
use log_forge.Scan.Lines.{OneLine}
use log_forge.Aggregation.{
  HourAnswers, opened, refused, stopped, summary_path, is_current, aggregate_file, aggregate_hour,
  Entry, broken, directory, file, aggregate_all, parse_hour_from_path,
}
use log_forge.Aggregation.Paths.{parse_hour_from_path-log_path}
use log_forge.Aggregation.Hours.{
  Reads, Makes, CountsFile, HoldsSummary, summary_of, aggregate_file_counts,
}
use log_forge.Aggregation.Fresh.{aggregate_file_again, aggregate_file_torn}
use log_forge.FileRepo.Growth.{save_batch_succeeds}
use log_forge.Aggregation.Stored.{
  Batches, Sound, ReportsRecords, save_all, records_of, aggregate_hour_counts_saved,
}
use log_forge.Aggregation.Walk.{Alive, aggregate_all_iff}
use log_forge.Tests.Samples.{empty_world, refusal}
use log_forge.Tests.FileRuns.{
  visit_to, visits, first_hour, sound_files, sound_files-Unfailing, visits-Visits,
}

parse_hour_from_path-log_path_example :
    parse_hour_from_path (log_path (zero_instant + 1)) ≡ some (truncate_hour (zero_instant + 1))
unfolding date_of
parse_hour_from_path-log_path_example =
    parse_hour_from_path-log_path (zero_instant + 1) (omega arith, omega arith)

-- A decoder for lines that hold a path; a line without the slash is malformed.
abbrev decode_path : Text → Result LogRecord
decode_path [] = failed refusal
decode_path (c ∷ text) = elim (text_eq (c ∷ []) (codes "/")) [
  | true ↦ done (visit_to (c ∷ text))
  | false ↦ failed refusal
]

abbrev hour_answers : HourAnswers
hour_answers = record {
  stat_err = none;
  summary_stat_err = none;
  opening = opened;
  read_err = none;
  ctx_err = λ i. none;
  decode = decode_path;
  mkdir_err = none;
  marshal = λ s. done (codes "summary");
  write_err = none;
  now = 9;
}

hour_answers-Reads : Reads hour_answers
hour_answers-Reads = record { found = refl; opens = refl; read = refl; alive = λ i. refl }

hour_answers-Makes : Makes hour_answers
hour_answers-Makes = record { made = refl; encoded = λ s. (codes "summary", refl) }

abbrev hour_file : File
hour_file = record { content = codes "/a\noops\n/b\r\n/a"; mod_time = 7 }

abbrev hour_logs : Files
hour_logs = (first_hour, hour_file) ∷ []

abbrev hour : ℕ
hour = truncate_hour (zero_instant + 1)

hour_file_found : lookup names_eq first_hour hour_logs ≡ some hour_file
unfolding lookup names_eq text_eq log_path format_date format_hour
hour_file_found = refl

no_summary : is_current hour_answers hour 7 [] ≡ false
unfolding is_current lookup
no_summary = refl

hour_file-Fits : Fits (split_lines hour_file.content)
unfolding split_lines
hour_file-Fits = (omega arith, (omega arith, (omega arith, (omega arith, tt))))

aggregate_file_counts_example :
    ((aggregate_file hour_answers first_hour hour hour_logs [] empty_world).2 ≡ none)
    × HoldsSummary hour_answers hour hour_file.content
        (aggregate_file hour_answers first_hour hour hour_logs [] empty_world).0
aggregate_file_counts_example =
    aggregate_file_counts hour_answers hour_answers-Reads hour_answers-Makes refl first_hour hour
      hour_logs [] empty_world hour_file hour_file_found no_summary hour_file-Fits

-- A second run that could not read the logs at all.
abbrev later_answers : HourAnswers
later_answers = record hour_answers { opening = refused refusal }

aggregate_file_again_example :
    let after = (aggregate_file hour_answers first_hour hour hour_logs [] empty_world).0 in
    aggregate_file later_answers first_hour hour hour_logs after empty_world
    ≡ (after, empty_world, none)
aggregate_file_again_example =
    aggregate_file_again hour_answers later_answers hour_answers-Reads hour_answers-Makes refl refl
      refl first_hour hour hour_logs [] empty_world empty_world hour_file hour_file_found no_summary
      hour_file-Fits (omega arith)

-- The disk is full after three bytes of the summary.
abbrev full_disk : HourAnswers
full_disk = record hour_answers { write_err = some (stopped 3 refusal) }

full_disk-Reads : Reads full_disk
full_disk-Reads = record { found = refl; opens = refl; read = refl; alive = λ i. refl }

full_disk-Makes : Makes full_disk
full_disk-Makes = record { made = refl; encoded = λ s. (codes "summary", refl) }

full_disk_stale : is_current full_disk hour 7 [] ≡ false
unfolding is_current lookup
full_disk_stale = refl

aggregate_file_torn_example :
    let after = (aggregate_file full_disk first_hour hour hour_logs [] empty_world).0 in
    ((aggregate_file full_disk first_hour hour hour_logs [] empty_world).2
      ≡ some (wrap (codes "write summary: ") refusal))
    × ((t : Tally) × (text : Text) × CountsFile decode_path hour_file.content t
        × (full_disk.marshal (summary_of hour t) ≡ done text)
        × (lookup names_eq (summary_path hour) after
            ≡ some (record { content = first_bytes 3 text; mod_time = 9 })))
    × (aggregate_file hour_answers first_hour hour hour_logs after empty_world
        ≡ (after, empty_world, none))
aggregate_file_torn_example =
    aggregate_file_torn full_disk hour_answers full_disk-Reads full_disk-Makes 3 refusal refl refl
      refl first_hour hour hour_logs [] empty_world empty_world hour_file hour_file_found
      full_disk_stale hour_file-Fits (omega arith)

-- Two calls of SaveBatch, then the aggregation of the hour.
abbrev two_calls : Batches
two_calls = (sound_files, visits) ∷ ((sound_files, visits) ∷ [])

two_calls-Sound : Sound sound_files.encode two_calls []
two_calls-Sound =
    let first = save_batch_succeeds sound_files sound_files-Unfailing visits [] in
    let files = (save_batch sound_files visits []).0 in
    let second = save_batch_succeeds sound_files sound_files-Unfailing visits files in
    (first, visits-Visits, refl, (second, visits-Visits, refl, tt))

path_line :
    (c : ℕ)
    → (c == b'\n') ≡ false
    → (c == b'\r') ≡ false
    → OneLine sound_files.encode decode_path (visit_to (b'/' ∷ (c ∷ [])))
unfolding drop_cr text_eq
path_line c no_feed no_return = record {
  line = b'/' ∷ (c ∷ []);
  encodes = refl;
  decodes = refl;
  no_feed = (refl, (no_feed, tt));
  no_cr = ground arith;
  fits = omega arith;
}

two_calls-OneLine :
    All (OneLine sound_files.encode decode_path) (mine first_hour (records_of two_calls))
unfolding names_eq text_eq log_path format_date format_hour date_of
two_calls-OneLine =
    let a = path_line b'a' refl refl in let b = path_line b'b' refl refl in (a, (b, (a, (b, tt))))

two_calls_found :
    lookup names_eq first_hour (save_all two_calls [])
    ≡ some (record { content = codes "/a\n/b\n/a\n/b\n"; mod_time = 7 })
unfolding save_batch lookup group_records append_groups append_records append_loop insert names_eq
    text_eq format_date format_hour log_path
two_calls_found = refl

no_logs : content_of first_hour [] ≡ []
unfolding lookup
no_logs = refl

aggregate_hour_counts_saved_example :
    let r =
      aggregate_hour none hour_answers
        (visit_to (codes "/a")).timestamp
        (save_all two_calls [])
        []
        empty_world in
    (r.2 ≡ none) × ReportsRecords hour_answers hour (mine first_hour (records_of two_calls)) r.0
aggregate_hour_counts_saved_example =
    aggregate_hour_counts_saved sound_files.encode two_calls [] two_calls-Sound hour_answers
      hour_answers-Reads hour_answers-Makes refl (visit_to (codes "/a")).timestamp [] empty_world
      (record { content = codes "/a\n/b\n/a\n/b\n"; mod_time = 7 }) no_logs two_calls-OneLine
      two_calls_found no_summary

-- A walk over an unreadable directory, a stray file and a log file.
abbrev walk : List Entry
walk =
    broken (codes "lost" ∷ [])
    ∷ (directory (codes "0001-01-01" ∷ [])
        ∷ (file (codes "notes.txt" ∷ []) (some refusal) hour_answers
            ∷ (file first_hour none hour_answers ∷ [])))

aggregate_all_iff_example :
    ((aggregate_all walk hour_logs [] empty_world).2 ≡ none) ↔ All Alive walk
aggregate_all_iff_example = aggregate_all_iff walk hour_logs [] empty_world
