-- ===== src/Scan/Lines.antt =====
-- The lines of a text that was written line by line.
use log_forge.Prelude.{
  ℕ, ◌<◌, ◌≡◌, refl, ap, sym, ◌∙◌, false, List, [], ◌∷◌, ◌++◌, arith, if◌then◌else◌, ◌==◌, length,
  All,
}
use mathlib.Core.Path.{subst}
use mathlib.Core.List.{append_assoc}
use log_forge.Text.{Text, text_eq}
use log_forge.Errors.{Result, done}
use log_forge.Model.{LogRecord}
use log_forge.FileRepo.Stores.{line_of, lines_of}
use log_forge.Scan.{split_lines, push, drop_cr, max_token_size}
use log_forge.Scan.Laws.{total, hits, Fits}

abbrev pub NoFeed : Text → Type 0
NoFeed = All (λ c. (c == b'\n') ≡ false)

split_lines-cons :
    (line rest : Text)
    → NoFeed line
    → split_lines (line ++ (b'\n' ∷ rest)) ≡ line ∷ split_lines rest
unfolding split_lines push
split_lines-cons [] rest h = refl
split_lines-cons (c ∷ line) rest h =
    let tail = split_lines-cons line rest h.1 in let no_feed = h.0 in ground arith

-- The codec writes a record as one line that the scanner takes whole and the decoder reads back.
pub record OneLine (encode : LogRecord → Result Text) (decode : Text → Result LogRecord)
    (rec : LogRecord) : Type 0 where
  pub line : Text
  pub encodes : encode rec ≡ done line
  pub decodes : decode line ≡ done rec
  pub no_feed : NoFeed line
  pub no_cr : drop_cr line ≡ line
  pub fits : length line < max_token_size

-- How many records have a field equal to a text.
abbrev pub records_with : (LogRecord → Text) → Text → List LogRecord → ℕ
records_with field key = total (λ rec. if text_eq (field rec) key then 1 else 0)

module _ (encode : LogRecord → Result Text) (decode : Text → Result LogRecord) where
  line_of-encoded :
      (rec : LogRecord) (c : OneLine encode decode rec)
      → line_of encode rec ≡ c.line ++ (b'\n' ∷ [])
  line_of-encoded rec c = let h = c.encodes in ground arith

  split_lines-lines_of :
      (rec : LogRecord) (c : OneLine encode decode rec) (records : List LogRecord)
      → split_lines (lines_of encode (rec ∷ records))
        ≡ c.line ∷ split_lines (lines_of encode records)
  split_lines-lines_of rec c records =
      let rest = lines_of encode records in
      ap (λ t. split_lines (t ++ rest)) (line_of-encoded rec c)
      ∙ ap split_lines (append_assoc c.line (b'\n' ∷ []) rest)
      ∙ split_lines-cons c.line rest c.no_feed

  hits-line :
      (rec : LogRecord) (c : OneLine encode decode rec) (field : LogRecord → Text) (key : Text)
      → hits decode field key (drop_cr c.line) ≡ (if text_eq (field rec) key then 1 else 0)
  hits-line rec c field key = let parses = ap decode c.no_cr ∙ c.decodes in ground arith

  pub lines_of-Fits :
      (records : List LogRecord)
      → All (OneLine encode decode) records
      → Fits (split_lines (lines_of encode records))
  unfolding split_lines
  lines_of-Fits [] h = tt
  lines_of-Fits (rec ∷ records) h =
      let eq = split_lines-lines_of rec h.0 records in
      subst Fits (sym eq) (h.0.fits, lines_of-Fits records h.1)

  -- Counting the lines is counting the records.
  pub total-hits-lines_of :
      (field : LogRecord → Text) (key : Text) (records : List LogRecord)
      → All (OneLine encode decode) records
      → total (λ line. hits decode field key (drop_cr line)) (split_lines (lines_of encode records))
        ≡ records_with field key records
  unfolding split_lines
  total-hits-lines_of field key [] h = refl
  total-hits-lines_of field key (rec ∷ records) h =
      let eq = split_lines-lines_of rec h.0 records in
      let rest = total-hits-lines_of field key records h.1 in
      ap (total (λ line. hits decode field key (drop_cr line))) eq
      ∙ omega (arith, rest, hits-line rec h.0 field key)
