-- ===== src/Scan.antt =====
-- How both aggregation services read a file of records, one to a line: bufio.Scanner with ScanLines
-- and a buffer of 1 MiB, the loop around it in `aggregateFile` of service/aggregation.go and in
-- `aggregateNDJSONPayload` of service/minio_aggregation.go, and the two maps of counts.
pub mod Laws
pub mod Lines
use log_forge.Prelude.{
  ℕ, ◌+◌, Option, none, some, List, [], ◌∷◌, ◌==◌, if◌then◌else◌, ltb, is_empty, length,
}
use log_forge.Text.{Text, text_eq}
use log_forge.Errors.{Err}
use log_forge.Model.{LogRecord}
use log_forge.World.{World}
use log_forge.Dict.{lookup, insert}

-- A `map[string]int`; a missing key reads as 0.
abbrev pub Counts : Type 0
Counts = List (Text × ℕ)

abbrev pub count_of : Text → Counts → ℕ
count_of key counts = elim (lookup text_eq key counts) [ none ↦ 0 | some n ↦ n ]

-- `counts[key]++`.
unfoldable pub increment : Text → Counts → Counts
increment key counts = insert text_eq key (count_of key counts + 1) counts

pub record Tally : Type 0 where
  pub requests_per_path : Counts
  pub requests_per_user_agent : Counts

abbrev pub no_requests : Tally
no_requests = record { requests_per_path = []; requests_per_user_agent = [] }

-- `requestsPerPath[rec.Path]++` and `requestsPerUserAgent[rec.UserAgent]++`.
unfoldable pub count : LogRecord → Tally → Tally
unfolding increment
count rec t = record {
  requests_per_path = increment rec.path t.requests_per_path;
  requests_per_user_agent = increment rec.user_agent t.requests_per_user_agent;
}

-- A byte in front of the lines of the text after it.
unfoldable pub push : ℕ → List Text → List Text
push c [] = (c ∷ []) ∷ []
push c (line ∷ lines) = (c ∷ line) ∷ lines

-- The lines of a text, each without its line feed. The last one may lack it.
unfoldable pub split_lines : Text → List Text
unfolding push
split_lines [] = []
split_lines (c ∷ text) =
    let lines = split_lines text in if c == b'\n' then [] ∷ lines else push c lines

-- ScanLines takes a carriage return off the end of a line.
unfoldable pub drop_cr : Text → Text
drop_cr [] = []
drop_cr (c ∷ line) = if is_empty line then (if c == b'\r' then [] else c ∷ []) else c ∷ drop_cr line

-- `scanner.Buffer(buf, 1024*1024)`: a line must leave room for its line feed.
abbrev pub max_token_size : ℕ
max_token_size = 1048576

-- How a scan ends: at the end of the text, at an error of the context, or at a line that is too long.
pub data ScanEnd : Type 0 where
  finished : ScanEnd
  cancelled : Err → ScanEnd
  too_long : ScanEnd

-- The loop over the scanner from the line at index `i` on. The context is asked once for each line.
unfoldable pub scan_loop :
    (Text → Tally → World → Tally × World)
    → (ℕ → Option Err)
    → ℕ
    → List Text
    → Tally
    → World
    → Tally × World × ScanEnd
unfolding drop_cr
scan_loop handle ctx_err i [] t w = (t, w, finished)
scan_loop handle ctx_err i (line ∷ lines) t w =
    let (t', w') = handle (drop_cr line) t w in
    let rest = scan_loop handle ctx_err (i + 1) lines t' w' in
    if ltb (length line) max_token_size
    then elim (ctx_err i) [ some e ↦ (t, w, cancelled e) | none ↦ rest ]
    else (t, w, too_long)
