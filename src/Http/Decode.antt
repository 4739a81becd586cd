-- ===== src/Http/Decode.antt =====
-- internal/http/handler.go: decodeRecords, decodeJSON, decodeCSV and validate.
use log_forge.Prelude.{
  ℕ, ◌+◌, Bool, false, ◌&&◌, List, [], ◌∷◌, ◌++◌, length, is_empty, if◌then◌else◌, leb,
}
use log_forge.Text.{Text, codes, trim_space, is_blank, contains, equal_fold, decimal}
use log_forge.Errors.{sentinel, message, wrap, annotate, unsupported_content_type}
pub use log_forge.Errors.{Result, done, failed}
use log_forge.Model.{Time, LogRecord, utc, is_zero_time}

-- `time.Parse(time.RFC3339, text)`.
abbrev pub RowTime : Type 0
RowTime = Text → Result Time

-- The request. Header names are canonical. `json_records` is what the first `Decode` of a JSON
-- decoder on the body gives, `json_ends` whether the second gives `io.EOF`, and `csv_rows` what
-- `ReadAll` of a CSV reader gives; a body over its limit shows as an error of these.
pub record Request : Type 0 where
  pub method : Text
  pub headers : List (Text × Text)
  pub json_records : Result (List LogRecord)
  pub json_ends : Bool
  pub csv_rows : Result (List (List Text))

-- The body of the loop of `validate` on the record at index `i`.
unfoldable pub validate_record : ℕ → LogRecord → Result LogRecord
validate_record i rec =
    if is_zero_time rec.timestamp
    then failed (message (codes "record " ++ (decimal i ++ codes " missing timestamp")))
    else if is_blank rec.path
    then failed (message (codes "record " ++ (decimal i ++ codes " missing path")))
    else if is_blank rec.user_agent
    then failed (message (codes "record " ++ (decimal i ++ codes " missing userAgent")))
    else done (record {
      timestamp = utc rec.timestamp;
      path = trim_space rec.path;
      user_agent = trim_space rec.user_agent;
    })

abbrev prepend : LogRecord → Result (List LogRecord) → Result (List LogRecord)
prepend rec (done records) = done (rec ∷ records)
prepend rec (failed e) = failed e

-- The loop of `validate` from index `i` on.
unfoldable pub validate_from : ℕ → List LogRecord → Result (List LogRecord)
validate_from i [] = done []
validate_from i (rec ∷ records) = elim (validate_record i rec) [
  | failed e ↦ failed e
  | done rec' ↦ prepend rec' (validate_from (i + 1) records)
]

unfoldable pub validate : List LogRecord → Result (List LogRecord)
unfolding validate_from
validate records =
    if is_empty records
    then failed (message (codes "no log records provided"))
    else validate_from 0 records

-- `decodeJSON`.
unfoldable pub decode_json : Request → Result (List LogRecord)
unfolding validate
decode_json r = elim r.json_records [
  | failed e ↦ failed (wrap (codes "invalid JSON payload: ") e)
  | done records ↦
      if r.json_ends
      then validate records
      else failed (message (codes "invalid JSON payload: unexpected trailing data"))
]

-- The body of the loop of `decodeCSV` on the row at index `i`.
unfoldable pub decode_row : RowTime → ℕ → List Text → Result LogRecord
decode_row parse i (t ∷ path ∷ agent ∷ rest) = elim (parse (trim_space t)) [
  | failed e ↦
      failed (wrap (codes "row " ++ (decimal (i + 1) ++ codes " has invalid timestamp: ")) e)
  | done ts ↦
      done (record { timestamp = ts; path = trim_space path; user_agent = trim_space agent })
]
decode_row parse i _ =
    failed (message (codes "row " ++ (decimal (i + 1) ++ codes " missing required columns")))

-- The loop of `decodeCSV` from the row at index `i` on.
unfoldable pub decode_rows : RowTime → ℕ → List (List Text) → Result (List LogRecord)
unfolding decode_row
decode_rows parse i [] = done []
decode_rows parse i (row ∷ rows) = elim (decode_row parse i row) [
  | failed e ↦ failed e
  | done rec ↦ prepend rec (decode_rows parse (i + 1) rows)
]

-- Whether the first row is a header.
unfoldable pub is_header : List Text → Bool
unfolding equal_fold
is_header [] = false
is_header (c ∷ cells) = leb 3 (length (c ∷ cells)) && equal_fold c (codes "timestamp")

-- `decodeCSV`.
unfoldable pub decode_csv : RowTime → Request → Result (List LogRecord)
unfolding decode_rows is_header validate
decode_csv parse r = elim r.csv_rows [
  | failed e ↦ failed (wrap (codes "invalid CSV payload: ") e)
  | done [] ↦ failed (message (codes "empty CSV payload"))
  | done (header ∷ rows) ↦
      let decoded : Result (List LogRecord) =
        if is_header header
        then decode_rows parse 1 rows
        else decode_rows parse 0 (header ∷ rows) in
      elim decoded [ failed e ↦ failed e | done records ↦ validate records ]
]

-- `decodeRecords` for the value of the Content-Type header.
unfoldable pub decode_records : RowTime → Text → Request → Result (List LogRecord)
unfolding contains decode_json decode_csv
decode_records parse content_type r =
    if contains content_type (codes "application/json")
    then decode_json r
    else if contains content_type (codes "text/csv")
    then decode_csv parse r
    else failed (annotate (sentinel unsupported_content_type) content_type)
