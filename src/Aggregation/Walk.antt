-- ===== src/Aggregation/Walk.antt =====
-- AggregateAll, `run` and `Start` of service/aggregation.go: which errors end a walk, and how the
-- runs are counted.
use log_forge.Prelude.{
  String, ℕ, ◌+◌, ◌≡◌, ◌≢◌, ◌↔◌, ◌⊎◌, inl, inr, refl, ap, sym, ◌∙◌, true, false, Option, none, some,
  List, [], ◌∷◌, arith, Option-cases, Bool-cases, length, All,
}
use log_forge.Text.{Text, codes, has_suffix}
use log_forge.Errors.{Err, Result}
use log_forge.Model.{LogRecord}
use log_forge.World.{World, Level, log_line, inc_aggregation_runs, warn, error}
use log_forge.Dict.{Names}
use log_forge.FileRepo.{Files}
use log_forge.Scan.{Tally, no_requests, split_lines, scan_loop, drop_cr}
use log_forge.Aggregation.{
  HourAnswers, count_line, aggregate_content, aggregate_file, readable, rel_base,
  parse_hour_from_path, Entry, broken, directory, file, aggregate_all, run, start,
}

-- The number of runs that the process has counted.
abbrev pub runs : World → ℕ
runs w = w.metrics.aggregation_runs

log_line-runs : (l : Level) (s : String) (w : World) → runs (log_line l s w) ≡ runs w
unfolding log_line
log_line-runs l s w = refl

count_line-runs :
    (decode : Text → Result LogRecord) (line : Text) (t : Tally) (w : World)
    → runs (count_line decode line t w).1 ≡ runs w
unfolding count_line log_line
count_line-runs decode line t w = ground arith

scan_loop-runs :
    (decode : Text → Result LogRecord) (ctx_err : ℕ → Option Err) (i : ℕ) (lines : List Text)
    (t : Tally) (w : World)
    → runs (scan_loop (count_line decode) ctx_err i lines t w).1 ≡ runs w
unfolding scan_loop
scan_loop-runs decode ctx_err i [] t w = refl
scan_loop-runs decode ctx_err i (line ∷ lines) t w =
    let s = count_line decode (drop_cr line) t w in
    let rest = scan_loop-runs decode ctx_err (i + 1) lines s.0 s.1 in
    let first = count_line-runs decode (drop_cr line) t w in ground arith

aggregate_file-runs :
    (a : HourAnswers) (path : Names) (hour : ℕ) (logs analytics : Files) (w : World)
    → runs (aggregate_file a path hour logs analytics w).1 ≡ runs w
unfolding aggregate_file aggregate_content
aggregate_file-runs a path hour logs analytics w =
    let law = λ (content : Text).
      scan_loop-runs a.decode a.ctx_err 0 (split_lines (readable a content)) no_requests w in
    grind (arith, law)

-- The context of a log file's turn lives.
abbrev pub Alive : Entry → Type 0
Alive (broken path) = Unit
Alive (directory path) = Unit
Alive (file path ctx_err a) = has_suffix (rel_base path) (codes ".log.json") ≡ true → ctx_err ≡ none

true_not_false : true ≢ false
true_not_false h = ground arith

none_not_some : (e : Err) → none ≢ some e
none_not_some e h = ground arith

-- How a walk goes on after an entry, from other summaries and another world.
abbrev GoesOn : Entry → List Entry → Files → Files → World → Type 0
GoesOn entry entries logs analytics w =
    (analytics' : Files) × (w' : World) × (aggregate_all (entry ∷ entries) logs analytics w
      ≡ aggregate_all entries logs analytics' w')
    × (runs w' ≡ runs w)
    × Alive entry

aggregate_all-file :
    (path : Names) (ctx_err : Option Err) (a : HourAnswers) (entries : List Entry)
    (logs analytics : Files) (w : World)
    → GoesOn (file path ctx_err a) entries logs analytics w
      ⊎ ((has_suffix (rel_base path) (codes ".log.json") ≡ true)
          × (e : Err) × (ctx_err ≡ some e)
          × (aggregate_all (file path ctx_err a ∷ entries) logs analytics w
              ≡ (analytics, w, some e)))
unfolding aggregate_all
aggregate_all-file path ctx_err a entries logs analytics w =
    elim (Bool-cases (has_suffix (rel_base path) (codes ".log.json"))) [
      | inr h₁ ↦ inl (analytics, w, ground arith, refl, λ h. absurd (true_not_false (sym h ∙ h₁)))
      | inl h₁ ↦ elim (Option-cases ctx_err) [
        | inr (e, h₂) ↦ inr (h₁, e, h₂, ground arith)
        | inl h₂ ↦ elim (Option-cases (parse_hour_from_path path)) [
          | inl h₃ ↦ inl (
            analytics,
            log_line warn "skip unexpected log path" w,
            ground arith,
            log_line-runs warn "skip unexpected log path" w,
            λ h. h₂,
          )
          | inr (hour, h₃) ↦
              let r = aggregate_file a path hour logs analytics w in
              let same = aggregate_file-runs a path hour logs analytics w in
              elim (Option-cases r.2) [
                | inl h₄ ↦ inl (r.0, r.1, ground arith, same, λ h. h₂)
                | inr (e, h₄) ↦ inl (
                  r.0,
                  log_line error "aggregate hour failed" r.1,
                  ground arith,
                  log_line-runs error "aggregate hour failed" r.1 ∙ same,
                  λ h. h₂,
                )
              ]
        ]
      ]
    ]

aggregate_all-runs :
    (entries : List Entry) (logs analytics : Files) (w : World)
    → runs (aggregate_all entries logs analytics w).1 ≡ runs w
unfolding aggregate_all
aggregate_all-runs [] logs analytics w = refl
aggregate_all-runs (broken path ∷ entries) logs analytics w =
    let text : String = "skip path during aggregation walk" in
    aggregate_all-runs entries logs analytics (log_line warn text w) ∙ log_line-runs warn text w
aggregate_all-runs (directory path ∷ entries) logs analytics w =
    aggregate_all-runs entries logs analytics w
aggregate_all-runs (file path ctx_err a ∷ entries) logs analytics w =
    elim (aggregate_all-file path ctx_err a entries logs analytics w) [
      | inl (analytics', w', goes_on, same, alive) ↦
          ap (λ r. runs r.1) goes_on ∙ aggregate_all-runs entries logs analytics' w' ∙ same
      | inr (suffix, e, done_ctx, stops) ↦ ap (λ r. runs r.1) stops
    ]

-- AggregateAll returns no error exactly if the context lives at the turn of every file whose name
-- ends in .log.json: an unreadable path, an unexpected name and a failure in one hour do not end the
-- walk.
pub aggregate_all_iff :
    (entries : List Entry) (logs analytics : Files) (w : World)
    → ((aggregate_all entries logs analytics w).2 ≡ none) ↔ All Alive entries
unfolding aggregate_all
aggregate_all_iff [] logs analytics w = (λ h. tt, λ h. refl)
aggregate_all_iff (broken path ∷ entries) logs analytics w =
    let rest =
      aggregate_all_iff entries logs analytics
        (log_line warn "skip path during aggregation walk" w) in
    (λ h. (tt, rest.0 h), λ h. rest.1 h.1)
aggregate_all_iff (directory path ∷ entries) logs analytics w =
    let rest = aggregate_all_iff entries logs analytics w in (λ h. (tt, rest.0 h), λ h. rest.1 h.1)
aggregate_all_iff (file path ctx_err a ∷ entries) logs analytics w =
    elim (aggregate_all-file path ctx_err a entries logs analytics w) [
      | inl (analytics', w', goes_on, same, alive) ↦
          let rest = aggregate_all_iff entries logs analytics' w' in
          (
            λ h. (alive, rest.0 (ap (λ r. r.2) (sym goes_on) ∙ h)),
            λ h. ap (λ r. r.2) goes_on ∙ rest.1 h.1,
          )
      | inr (suffix, e, dead, stops) ↦ (
        (λ h. absurd (none_not_some e (sym h ∙ ap (λ r. r.2) stops))),
        (λ h. absurd (none_not_some e (sym (h.0 suffix) ∙ dead))),
      )
    ]

run-runs :
    (entries : List Entry) (logs analytics : Files) (w : World)
    → runs (run entries logs analytics w).1 ≡ runs w + 1
unfolding run inc_aggregation_runs
run-runs entries logs analytics w =
    let r = aggregate_all entries logs analytics w in
    let same = aggregate_all-runs entries logs analytics w in
    elim (Option-cases r.2) [
      | inl h ↦ ground arith
      | inr (e, h) ↦ let logged = log_line-runs error "aggregation run failed" r.1 in ground arith
    ]

-- The goroutine of Start counts its run at startup and one run for each tick, whatever the walks meet.
pub start_counts :
    (first : List Entry × Files) (ticks : List (List Entry × Files)) (analytics : Files) (w : World)
    → runs (start first ticks analytics w).1 ≡ runs w + 1 + length ticks
unfolding start
start_counts (entries, logs) [] analytics w = run-runs entries logs analytics w ∙ (omega arith)
start_counts (entries, logs) (tick ∷ ticks) analytics w =
    let r = run entries logs analytics w in
    let first = run-runs entries logs analytics w in
    let rest = start_counts tick ticks r.0 r.1 in rest ∙ omega (arith, first)
