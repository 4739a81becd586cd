-- ===== src/Scan/Laws.antt =====
-- What a whole scan counts.
use log_forge.Prelude.{
  ℕ, ◌+◌, ◌<◌, ◌≡◌, refl, ap, ◌∙◌, Option, none, List, [], ◌∷◌, arith, if◌then◌else◌, lt→ltb,
  length, All,
}
use log_forge.Text.{Text, text_eq}
use log_forge.Text.Trim.{text_eq_iff}
use log_forge.Errors.{Err, Result, done, failed}
use log_forge.Model.{LogRecord}
use log_forge.World.{World}
use log_forge.Dict.Laws.{lookup-insert}
use log_forge.Scan.{
  Counts, count_of, increment, Tally, drop_cr, max_token_size, finished, scan_loop,
}

pub count_of-increment :
    (key j : Text) (counts : Counts)
    → count_of j (increment key counts) ≡ (if text_eq key j then 1 else 0) + count_of j counts
unfolding increment
count_of-increment key j counts =
    let law = lookup-insert text_eq text_eq_iff key j (count_of key counts + 1) counts in
    ground (arith, text_eq_iff key j)

-- A measure summed over lines or records.
abbrev pub total {ℓ} : {A : Type ℓ} → (A → ℕ) → List A → ℕ
total f [] = 0
total f (x ∷ xs) = f x + total f xs

-- Whether a line holds a record with a field equal to a text.
abbrev pub hits : (Text → Result LogRecord) → (LogRecord → Text) → Text → Text → ℕ
hits decode field key line = elim (decode line) [
  | failed e ↦ 0
  | done rec ↦ if text_eq (field rec) key then 1 else 0
]

-- The lines that fit the scanner's buffer.
abbrev pub Fits : List Text → Type 0
Fits = All (λ line. length line < max_token_size)

module _ (handle : Text → Tally → World → Tally × World) where
  -- A handler that adds to the count of a key what a line weighs.
  abbrev pub Adds : (Tally → Counts) → Text → (Text → ℕ) → Type 0
  Adds counts key weight =
      (line : Text) (t : Tally) (w : World)
      → count_of key (counts (handle line t w).0) ≡ weight line + count_of key (counts t)

  scan_loop-step :
      (ctx_err : ℕ → Option Err) (i : ℕ) (line : Text) (lines : List Text) (t : Tally) (w : World)
      → length line < max_token_size
      → ctx_err i ≡ none
      → scan_loop handle ctx_err i (line ∷ lines) t w
        ≡ scan_loop handle ctx_err
            (i + 1)
            lines
            (handle (drop_cr line) t w).0
            (handle (drop_cr line) t w).1
  unfolding scan_loop
  scan_loop-step ctx_err i line lines t w h₁ h₂ =
      let fits = lt→ltb (length line) max_token_size h₁ in ground arith

  pub scan_loop-finishes :
      (ctx_err : ℕ → Option Err) (i : ℕ) (lines : List Text) (t : Tally) (w : World)
      → Fits lines
      → ((j : ℕ) → ctx_err j ≡ none)
      → (scan_loop handle ctx_err i lines t w).2 ≡ finished
  unfolding scan_loop
  scan_loop-finishes ctx_err i [] t w fits alive = refl
  scan_loop-finishes ctx_err i (line ∷ lines) t w fits alive =
      let s = handle (drop_cr line) t w in
      ap (λ r. r.2) (scan_loop-step ctx_err i line lines t w fits.0 (alive i))
      ∙ scan_loop-finishes ctx_err (i + 1) lines s.0 s.1 fits.1 alive

  pub scan_loop-counts :
      (counts : Tally → Counts) (key : Text) (weight : Text → ℕ)
      → Adds counts key weight
      → (ctx_err : ℕ → Option Err) (i : ℕ) (lines : List Text) (t : Tally) (w : World) → Fits lines
      → ((j : ℕ) → ctx_err j ≡ none)
      → count_of key (counts (scan_loop handle ctx_err i lines t w).0)
        ≡ total (λ line. weight (drop_cr line)) lines + count_of key (counts t)
  unfolding scan_loop
  scan_loop-counts counts key weight adds ctx_err i [] t w fits alive = omega arith
  scan_loop-counts counts key weight adds ctx_err i (line ∷ lines) t w fits alive =
      let s = handle (drop_cr line) t w in
      let rest =
        scan_loop-counts counts key weight adds ctx_err (i + 1) lines s.0 s.1 fits.1 alive in
      ap (λ r. count_of key (counts r.0)) (scan_loop-step ctx_err i line lines t w fits.0 (alive i))
      ∙ omega (arith, rest, adds (drop_cr line) t w)
