-- ===== src/ObjectAggregation.antt =====
-- service/minio_aggregation.go: MinIOAggregationService, which counts the requests in the objects of
-- each hour and writes the summary of the hour into the analytics directory.
pub mod Keys
use log_forge.Prelude.{
  ℕ, ◌+◌, Bool, true, false, not, ◌&&◌, Option, some, none, List, [], ◌∷◌, ◌++◌, ◌==◌, ltb,
  if◌then◌else◌, is_empty,
}
use log_forge.Text.{Text, codes, trim, trim_space, has_suffix, is_blank}
use log_forge.Errors.{Err, wrap, Result, done, failed}
use log_forge.Model.{LogRecord}
use log_forge.Calendar.{parse_date, parse_hour, hour_start}
use log_forge.Dict.{names_eq, lookup, insert}
use log_forge.World.{World, warn, error, log_line, inc_aggregation_runs}
use log_forge.FileRepo.{File, Files}
use log_forge.Scan.{
  Tally, no_requests, count, split_lines, finished, cancelled, too_long, scan_loop,
}
use log_forge.Slash.{split, reverse_onto}
use log_forge.ObjectRepo.{ObjectInfo, sort_objects}
use log_forge.Aggregation.{HourAnswers, is_current, write_summary, trim_suffix, token_too_long}

-- `parseHourParts`.
unfoldable pub parse_hour_parts : Text → Text → Option ℕ
unfolding parse_date parse_hour
parse_hour_parts date hour = elim (parse_date date) [
  | none ↦ none
  | some day ↦ elim (parse_hour hour) [ none ↦ none | some h ↦ some (hour_start day h) ]
]

-- The parts of a key, the last one first.
unfoldable pub parse_key_parts : List Text → Option ℕ
unfolding parse_hour_parts has_suffix trim_suffix
parse_key_parts [] = none
parse_key_parts (file ∷ []) = none
parse_key_parts (file ∷ (date ∷ [])) =
    if has_suffix file (codes ".log.json")
    then parse_hour_parts date (trim_suffix (codes ".log.json") file)
    else none
parse_key_parts (file ∷ (hour ∷ (date ∷ parts))) =
    if has_suffix file (codes ".log.json")
    then elim (parse_hour_parts date hour) [
      | some start ↦ some start
      | none ↦ parse_hour_parts hour (trim_suffix (codes ".log.json") file)
    ]
    else none

-- `strings.Trim(strings.TrimSpace(key), "/")`.
unfoldable pub trim_key : Text → Text
unfolding trim trim_space
trim_key key = trim (λ c. c == b'/') (trim_space key)

-- `parseHourFromObjectKey`.
unfoldable pub parse_hour_from_object_key : Text → Option ℕ
unfolding trim_key split reverse_onto parse_key_parts
parse_hour_from_object_key key =
    if is_empty (trim_key key)
    then none
    else parse_key_parts (reverse_onto (split (trim_key key)) [])

-- The handling of one line of an object.
unfoldable pub count_object_line : (Text → Result LogRecord) → Text → Tally → World → Tally × World
unfolding trim_space count log_line
count_object_line decode line t w =
    if is_empty (trim_space line) then (t, w) else elim (decode (trim_space line)) [
      | failed e ↦ (t, log_line warn "skip malformed minio log record" w)
      | done rec ↦ (count rec t, w)
    ]

-- `aggregateNDJSONPayload`. Reading from memory does not fail.
unfoldable pub aggregate_ndjson_payload :
    (ℕ → Option Err) → (Text → Result LogRecord) → Text → Tally → World → Tally × World × Option Err
unfolding count_object_line
aggregate_ndjson_payload ctx_err decode payload t w =
    let (t', w', end) = scan_loop (count_object_line decode) ctx_err 0 (split_lines payload) t w in
    elim end [
      | finished ↦ (t', w', none)
      | cancelled e ↦ (t', w', some e)
      | too_long ↦ (t', w', some token_too_long)
    ]

-- What the context, the store and the codec answer while the objects of an hour are read, by the index
-- of the object; `hour` has the answers for the summary, and its decoder.
pub record ObjectAnswers : Type 0 where
  pub hour_err : Option Err
  pub object_err : ℕ → Option Err
  pub read : ℕ → Text → Result Text
  pub line_err : ℕ → ℕ → Option Err
  pub hour : HourAnswers
  -- `%q`.
  pub quoted : Text → Text

-- The loop over the objects, from the one at index `i` on.
unfoldable pub aggregate_objects :
    ObjectAnswers → ℕ → List ObjectInfo → Tally → World → Tally × World × Option Err
unfolding aggregate_ndjson_payload
aggregate_objects a i [] t w = (t, w, none)
aggregate_objects a i (o ∷ objects) t w = elim (a.object_err i) [
  | some e ↦ (t, w, some e)
  | none ↦ elim (a.read i o.key) [
    | failed e ↦
        (t, w, some (wrap (codes "read minio object " ++ (a.quoted o.key ++ codes ": ")) e))
    | done payload ↦
        let (t', w', r) = aggregate_ndjson_payload (a.line_err i) a.hour.decode payload t w in
        elim r [
          | some e ↦ (
            t',
            w',
            some (wrap (codes "aggregate payload for object " ++ (a.quoted o.key ++ codes ": ")) e),
          )
          | none ↦ aggregate_objects a (i + 1) objects t' w'
        ]
  ]
]

-- The latest time among objects.
unfoldable pub latest : ℕ → List ObjectInfo → ℕ
latest time [] = time
latest time (o ∷ objects) =
    latest (if ltb time o.last_modified then o.last_modified else time) objects

-- `aggregateHourObjects`.
unfoldable pub aggregate_hour_objects :
    ObjectAnswers → ℕ → List ObjectInfo → Files → World → Files × World × Option Err
unfolding latest is_current sort_objects aggregate_objects write_summary
aggregate_hour_objects a hour [] analytics w = (analytics, w, a.hour_err)
aggregate_hour_objects a hour (o ∷ objects) analytics w =
    let (t, w', r) = aggregate_objects a 0 (sort_objects (o ∷ objects)) no_requests w in
    let (analytics', result) = write_summary a.hour hour t analytics in
    elim a.hour_err [
      | some e ↦ (analytics, w, some e)
      | none ↦
          if is_current a.hour hour (latest o.last_modified objects) analytics
          then (analytics, w, none)
          else elim r [ some e ↦ (analytics, w', some e) | none ↦ (analytics', w', result) ]
    ]

abbrev pub Hours : Type 0
Hours = List (ℕ × List ObjectInfo)

abbrev pub objects_of : ℕ → Hours → List ObjectInfo
objects_of hour hours = elim (lookup (λ i j. i == j) hour hours) [
  | none ↦ []
  | some objects ↦ objects
]

-- The loop that groups the objects by their hours, from the one at index `i` on.
unfoldable pub group_objects :
    (ℕ → Option Err) → ℕ → List ObjectInfo → Hours → World → Result Hours × World
unfolding parse_hour_from_object_key log_line
group_objects ctx_err i [] hours w = (done hours, w)
group_objects ctx_err i (o ∷ objects) hours w = elim (ctx_err i) [
  | some e ↦ (failed e, w)
  | none ↦ elim (parse_hour_from_object_key o.key) [
    | none ↦
        group_objects ctx_err (i + 1) objects hours
          (log_line warn "skip unexpected minio object path" w)
    | some hour ↦
        group_objects ctx_err (i + 1) objects
          (insert (λ i j. i == j) hour (objects_of hour hours ++ (o ∷ [])) hours) w
  ]
]

-- `sort.Slice(hours, ...)`.
unfoldable pub place_hour : ℕ × List ObjectInfo → Hours → Hours
place_hour h [] = h ∷ []
place_hour h (j ∷ sorted) = if ltb j.0 h.0 then j ∷ place_hour h sorted else h ∷ (j ∷ sorted)

unfoldable pub sort_hours : Hours → Hours
unfolding place_hour
sort_hours [] = []
sort_hours (h ∷ hours) = place_hour h (sort_hours hours)

-- The loop over the hours; the answers go by the hour.
unfoldable pub aggregate_hours : (ℕ → ObjectAnswers) → Hours → Files → World → Files × World
unfolding aggregate_hour_objects log_line
aggregate_hours answers [] analytics w = (analytics, w)
aggregate_hours answers ((hour, objects) ∷ hours) analytics w =
    let (analytics', w', r) = aggregate_hour_objects (answers hour) hour objects analytics w in
    elim r [
      | none ↦ aggregate_hours answers hours analytics' w'
      | some e ↦
          aggregate_hours answers hours analytics' (log_line error "aggregate minio hour failed" w')
    ]

-- What ListLogObjects, the context and the rest answer during a run.
pub record RunAnswers : Type 0 where
  pub objects : Result (List ObjectInfo)
  pub ctx_err : ℕ → Option Err
  pub hours : ℕ → ObjectAnswers

-- `AggregateAll`.
unfoldable pub aggregate_all : RunAnswers → Files → World → Files × World × Option Err
unfolding group_objects sort_hours aggregate_hours
aggregate_all a analytics w = elim a.objects [
  | failed e ↦ (analytics, w, some (wrap (codes "list minio log objects: ") e))
  | done objects ↦
      let (grouped, w') = group_objects a.ctx_err 0 objects [] w in
      elim grouped [
        | failed e ↦ (analytics, w', some e)
        | done hours ↦
            let (analytics', w'') = aggregate_hours a.hours (sort_hours hours) analytics w' in
            (analytics', w'', none)
      ]
]

-- `run`.
unfoldable pub run : RunAnswers → Files → World → Files × World
unfolding aggregate_all log_line inc_aggregation_runs
run a analytics w =
    let (analytics', w', r) = aggregate_all a analytics w in
    elim r [
      | none ↦ (analytics', inc_aggregation_runs w')
      | some e ↦
          (analytics', inc_aggregation_runs (log_line error "minio aggregation run failed" w'))
    ]

-- The goroutine of `Start`: a run at once and one at each tick until the context is done.
unfoldable pub start : RunAnswers → List RunAnswers → Files → World → Files × World
unfolding run
start a [] analytics w = run a analytics w
start a (tick ∷ ticks) analytics w =
    let (analytics', w') = run a analytics w in start tick ticks analytics' w'
