-- ===== src/Aggregation/Fresh.antt =====
-- What aggregateFile of service/aggregation.go leaves alone: other summaries, and a summary that is
-- not older than its log file.
use log_forge.Prelude.{ℕ, ◌≤◌, ◌≡◌, ap, ◌∙◌, false, none, some, arith}
use log_forge.Text.{Text, codes}
use log_forge.Errors.{Err, wrap, done}
use log_forge.World.{World}
use log_forge.Dict.{Names, names_eq, lookup, insert}
use log_forge.Dict.Laws.{names_eq_iff, lookup-insert}
use log_forge.FileRepo.{File, Files, first_bytes}
use log_forge.Aggregation.Hours.{
  Reads, Makes, CountsFile, summary_of, aggregate_file_scans, lookup-insert_same,
  aggregate_file_counts,
}
use log_forge.Scan.{Tally, no_requests, split_lines, scan_loop}
use log_forge.Scan.Laws.{Fits}
use log_forge.Aggregation.{
  HourAnswers, stopped, summary_path, count_line, write_summary, aggregate_content, is_current,
  aggregate_file, readable,
}

insert_other :
    (path q : Names) (f : File) (files : Files)
    → names_eq path q ≡ false
    → lookup names_eq q (insert names_eq path f files) ≡ lookup names_eq q files
insert_other path q f files h =
    let law = lookup-insert names_eq names_eq_iff path q f files in ground arith

module _ (a : HourAnswers) (hour : ℕ) (q : Names)
    (other : names_eq (summary_path hour) q ≡ false) where
  write_summary-other :
      (t : Tally) (analytics : Files)
      → lookup names_eq q (write_summary a hour t analytics).0 ≡ lookup names_eq q analytics
  unfolding write_summary
  write_summary-other t analytics = grind (arith, insert_other (summary_path hour) q)

  aggregate_content-other :
      (content : Text) (analytics : Files) (w : World)
      → lookup names_eq q (aggregate_content a hour content analytics w).0
        ≡ lookup names_eq q analytics
  unfolding aggregate_content
  aggregate_content-other content analytics w =
      let t =
        (scan_loop (count_line a.decode) a.ctx_err 0 (split_lines (readable a content)) no_requests
          w).0 in
      let law = write_summary-other t analytics in ground arith

  -- Whatever happens, aggregateFile changes no file but the summary of its hour.
  pub aggregate_file_other :
      (path : Names) (logs analytics : Files) (w : World)
      → lookup names_eq q (aggregate_file a path hour logs analytics w).0
        ≡ lookup names_eq q analytics
  unfolding aggregate_file
  aggregate_file_other path logs analytics w =
      let law = λ (content : Text). aggregate_content-other content analytics w in
      grind (arith, law)

current :
    (b : HourAnswers) (path : Names) (hour : ℕ) (logs analytics : Files) (w : World) (f s : File)
    → b.stat_err ≡ none
    → b.summary_stat_err ≡ none
    → lookup names_eq path logs ≡ some f
    → lookup names_eq (summary_path hour) analytics ≡ some s
    → f.mod_time ≤ s.mod_time
    → aggregate_file b path hour logs analytics w ≡ (analytics, w, none)
unfolding aggregate_file is_current
current b path hour logs analytics w f s h₁ h₂ h₃ h₄ h₅ = ground arith

-- After a file was aggregated with nothing failing and by a clock that is not behind the file's time,
-- aggregating it again changes nothing and returns no error, whatever else would fail then.
pub aggregate_file_again :
    (a b : HourAnswers)
    → Reads a
    → Makes a
    → a.write_err ≡ none
    → b.stat_err ≡ none
    → b.summary_stat_err ≡ none
    → (path : Names) (hour : ℕ) (logs analytics : Files) (w w' : World) (f : File)
    → lookup names_eq path logs ≡ some f
    → is_current a hour f.mod_time analytics ≡ false
    → Fits (split_lines f.content)
    → f.mod_time ≤ a.now
    → let after = (aggregate_file a path hour logs analytics w).0 in
      aggregate_file b path hour logs after w' ≡ (after, w', none)
aggregate_file_again a b reads makes written found readable path hour logs analytics w w' f h stale
      fits clock =
    let (r, (t, text, counted, encoded, stored)) =
      aggregate_file_counts a reads makes written path hour logs analytics w f h stale fits in
    let after = (aggregate_file a path hour logs analytics w).0 in
    current b path hour logs after w' f (record { content = text; mod_time = a.now }) found readable
      h stored clock

write_summary-torn :
    (a : HourAnswers) (hour : ℕ) (t : Tally) (analytics : Files) (text : Text) (n : ℕ) (e : Err)
    → a.mkdir_err ≡ none
    → a.marshal (summary_of hour t) ≡ done text
    → a.write_err ≡ some (stopped n e)
    → write_summary a hour t analytics ≡ (
      insert names_eq
          (summary_path hour)
          (record { content = first_bytes n text; mod_time = a.now })
          analytics,
      some (wrap (codes "write summary: ") e),
    )
unfolding write_summary
write_summary-torn a hour t analytics text n e h₁ h₂ h₃ = ground arith

-- When the write of a summary stops after n bytes, aggregateFile returns the error, and the n bytes
-- stay as the summary of the hour: if the clock is not behind the log file's time, aggregating the file
-- again changes nothing and returns no error.
pub aggregate_file_torn :
    (a b : HourAnswers)
    → Reads a
    → Makes a
    → (n : ℕ) (e : Err) → a.write_err ≡ some (stopped n e)
    → b.stat_err ≡ none
    → b.summary_stat_err ≡ none
    → (path : Names) (hour : ℕ) (logs analytics : Files) (w w' : World) (f : File)
    → lookup names_eq path logs ≡ some f
    → is_current a hour f.mod_time analytics ≡ false
    → Fits (split_lines f.content)
    → f.mod_time ≤ a.now
    → let after = (aggregate_file a path hour logs analytics w).0 in
      ((aggregate_file a path hour logs analytics w).2 ≡ some (wrap (codes "write summary: ") e))
      × ((t : Tally) × (text : Text) × CountsFile a.decode f.content t
          × (a.marshal (summary_of hour t) ≡ done text)
          × (lookup names_eq (summary_path hour) after
              ≡ some (record { content = first_bytes n text; mod_time = a.now })))
      × (aggregate_file b path hour logs after w' ≡ (after, w', none))
aggregate_file_torn a b reads makes n e torn found readable path hour logs analytics w w' f h stale
      fits clock =
    let (t, counted, files, result) =
      aggregate_file_scans a reads path hour logs analytics w f h stale fits in
    let (text, encoded) = makes.encoded (summary_of hour t) in
    let stored = write_summary-torn a hour t analytics text n e makes.made encoded torn in
    let after = (aggregate_file a path hour logs analytics w).0 in
    let rest : File = record { content = first_bytes n text; mod_time = a.now } in
    let kept =
      ap (lookup names_eq (summary_path hour)) files
      ∙ ap (λ r. lookup names_eq (summary_path hour) r.0) stored
      ∙ lookup-insert_same (summary_path hour) rest analytics in
    (
      result ∙ ap (λ r. r.1) stored,
      (t, text, counted, encoded, kept),
      current b path hour logs after w' f rest found readable h kept clock,
    )
