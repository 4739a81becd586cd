-- ===== src/FileRepo/Growth.antt =====
-- SaveBatch of repo/file_repo.go when something fails, and when nothing does.
use log_forge.Prelude.{
  ℕ, ◌+◌, ◌≡◌, inl, inr, refl, ap, sym, ◌∙◌, none, List, [], ◌∷◌, ◌++◌, if◌then◌else◌, Option-cases,
}
use mathlib.Core.List.{append-nil, append_assoc}
use log_forge.Text.{Text}
use log_forge.Errors.{done}
use log_forge.Errors.Cases.{Result-cases}
use log_forge.Model.{LogRecord}
use log_forge.Dict.{Names, names_eq, insert}
use log_forge.FileRepo.{
  Files, content_of, FileAnswers, Groups, group_of, group_records, append_loop, append_records,
  append_groups, save_batch, first_bytes,
}
use log_forge.FileRepo.Stores.{
  line_of, append_loop-written, append_loop-unwritten, append_loop-unencoded,
  append_groups-no_directory, append_groups-fails, append_groups-visit, group_records-step,
  with_record,
}
use log_forge.FileRepo.Batch.{
  append_records-unopened, append_records-opened, content_of-grow, save_batch-cancelled,
  save_batch-grouped,
}

-- A text that is another one with something added at its end.
abbrev pub Extends : Text → Text → Type 0
Extends old new = (added : Text) × (new ≡ old ++ added)

Extends-refl : (t : Text) → Extends t t
Extends-refl t = ([], sym (append-nil t))

Extends-trans : (s t u : Text) → Extends s t → Extends t u → Extends s u
Extends-trans s t u (x, h) (y, k) = (x ++ y, k ∙ ap (λ t. t ++ y) h ∙ append_assoc s x y)

append_loop-Extends :
    (a : FileAnswers) (path : Names) (i : ℕ) (records : List LogRecord) (content : Text)
    → Extends content (append_loop a path i records content).0
unfolding append_loop
append_loop-Extends a path i [] content = Extends-refl content
append_loop-Extends a path i (rec ∷ records) content = elim (Result-cases (a.encode rec)) [
  | inr (e, h₁) ↦
      let eq = append_loop-unencoded a path i rec records content e h₁ in
      ([], ap (λ r. r.0) eq ∙ sym (append-nil content))
  | inl (line, h₁) ↦ elim (Option-cases (a.write_err path i)) [
    | inr ((n, e), h₂) ↦
        let eq = append_loop-unwritten a path i rec records content line n e h₁ h₂ in
        (first_bytes n (line ++ b'\n' ∷ []), ap (λ r. r.0) eq)
    | inl h₂ ↦
        let eq = append_loop-written a path i rec records content line h₁ h₂ in
        let rest = append_loop-Extends a path (i + 1) records (content ++ line_of a.encode rec) in
        Extends-trans content (content ++ line_of a.encode rec)
          (append_loop a path i (rec ∷ records) content).0 (line_of a.encode rec, refl)
          (rest.0, ap (λ r. r.0) eq ∙ rest.1)
  ]
]

append_records-Extends :
    (a : FileAnswers) (path : Names) (records : List LogRecord) (files : Files) (p : Names)
    → Extends (content_of p files) (content_of p (append_records a path records files).0)
append_records-Extends a path records files p = elim (Option-cases (a.open_err path)) [
  | inr (e, h₁) ↦
      let eq = append_records-unopened a path records files e h₁ in
      ([], ap (λ r. content_of p r.0) eq ∙ sym (append-nil (content_of p files)))
  | inl h₁ ↦
      let eq = append_records-opened a path records files h₁ in
      let (added, loop) = append_loop-Extends a path 0 records (content_of path files) in
      (
        (if names_eq path p then added else []),
        ap (λ r. content_of p r.0) eq
            ∙ ap
                (λ c.
                  content_of p
                    (insert names_eq path (record { content = c; mod_time = a.now path }) files))
                loop
            ∙ content_of-grow path p added (a.now path) files,
      )
]

append_groups-Extends :
    (a : FileAnswers) (order : List Names) (groups : Groups) (files : Files) (p : Names)
    → Extends (content_of p files) (content_of p (append_groups a order groups files).0)
unfolding append_groups
append_groups-Extends a [] groups files p = Extends-refl (content_of p files)
append_groups-Extends a (path ∷ order) groups files p = elim (Option-cases (a.mkdir_err path)) [
  | inr (e, h₁) ↦
      let eq = append_groups-no_directory a path order groups files e h₁ in
      ([], ap (λ r. content_of p r.0) eq ∙ sym (append-nil (content_of p files)))
  | inl h₁ ↦
      let r = append_records a path (group_of path groups) files in
      let first = append_records-Extends a path (group_of path groups) files p in
      elim (Option-cases r.1) [
        | inr (e, h₂) ↦
            let eq = append_groups-fails a path order groups files e h₁ h₂ in
            (first.0, ap (λ r. content_of p r.0) eq ∙ first.1)
        | inl h₂ ↦
            let eq = append_groups-visit a path order groups files h₁ h₂ in
            let rest = append_groups-Extends a order groups r.0 p in
            Extends-trans (content_of p files) (content_of p r.0)
              (content_of p (append_groups a (path ∷ order) groups files).0) first
              (rest.0, ap (λ r. content_of p r.0) eq ∙ rest.1)
      ]
]

-- SaveBatch only ever adds at the end of files, whether it succeeds or stops at any of its errors.
pub save_batch-Extends :
    (a : FileAnswers) (records : List LogRecord) (files : Files) (p : Names)
    → Extends (content_of p files) (content_of p (save_batch a records files).0)
unfolding save_batch
save_batch-Extends a [] files p = Extends-refl (content_of p files)
save_batch-Extends a (rec ∷ records) files p =
    let batch : List LogRecord = rec ∷ records in
    elim (Result-cases (group_records a.ctx_err 0 batch [])) [
      | inr (e, h) ↦
          let eq = save_batch-cancelled a batch files e refl h in
          ([], ap (λ r. content_of p r.0) eq ∙ sym (append-nil (content_of p files)))
      | inl (g, h) ↦
          let eq = save_batch-grouped a batch files g refl h in
          let all = append_groups-Extends a a.order g files p in
          (all.0, ap (λ r. content_of p r.0) eq ∙ all.1)
    ]

-- Nothing fails: the context lives, and every record is encoded and written.
pub record Unfailing (a : FileAnswers) : Type 0 where
  pub alive : (i : ℕ) → a.ctx_err i ≡ none
  pub made : (path : Names) → a.mkdir_err path ≡ none
  pub opened : (path : Names) → a.open_err path ≡ none
  pub encoded : (rec : LogRecord) → (line : Text) × (a.encode rec ≡ done line)
  pub written : (path : Names) (i : ℕ) → a.write_err path i ≡ none

module _ (a : FileAnswers) (ok : Unfailing a) where
  append_loop_succeeds :
      (path : Names) (i : ℕ) (records : List LogRecord) (content : Text)
      → (append_loop a path i records content).1 ≡ none
  unfolding append_loop
  append_loop_succeeds path i [] content = refl
  append_loop_succeeds path i (rec ∷ records) content =
      let (line, h) = ok.encoded rec in
      ap (λ r. r.1) (append_loop-written a path i rec records content line h (ok.written path i))
      ∙ append_loop_succeeds path (i + 1) records (content ++ line_of a.encode rec)

  append_groups_succeeds :
      (order : List Names) (groups : Groups) (files : Files)
      → (append_groups a order groups files).1 ≡ none
  unfolding append_groups
  append_groups_succeeds [] groups files = refl
  append_groups_succeeds (path ∷ order) groups files =
      let group = group_of path groups in
      let r = append_records a path group files in
      let stored =
        ap (λ r. r.1) (append_records-opened a path group files (ok.opened path))
        ∙ append_loop_succeeds path 0 group (content_of path files) in
      ap (λ r. r.1) (append_groups-visit a path order groups files (ok.made path) stored)
      ∙ append_groups_succeeds order groups r.0

  group_records_succeeds :
      (i : ℕ) (records : List LogRecord) (groups : Groups)
      → (g : Groups) × (group_records a.ctx_err i records groups ≡ done g)
  unfolding group_records
  group_records_succeeds i [] groups = (groups, refl)
  group_records_succeeds i (rec ∷ records) groups =
      let eq = group_records-step a.ctx_err i rec records groups (ok.alive i) in
      let (g, h) = group_records_succeeds (i + 1) records (with_record rec groups) in (g, eq ∙ h)

-- SaveBatch returns no error if nothing that it calls fails.
pub save_batch_succeeds :
    (a : FileAnswers)
    → Unfailing a
    → (records : List LogRecord) (files : Files) → (save_batch a records files).1 ≡ none
unfolding save_batch
save_batch_succeeds a ok [] files = refl
save_batch_succeeds a ok (rec ∷ records) files =
    let batch : List LogRecord = rec ∷ records in
    let (g, h) = group_records_succeeds a ok 0 batch [] in
    ap (λ r. r.1) (save_batch-grouped a batch files g refl h)
    ∙ append_groups_succeeds a ok a.order g files
