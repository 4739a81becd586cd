-- ===== src/FileRepo/Stores.antt =====
-- What SaveBatch of repo/file_repo.go leaves in the files.
use log_forge.Prelude.{
  ℕ, zero, suc, ◌+◌, ◌≡◌, inl, inr, refl, ap, sym, ◌∙◌, Bool, true, false, Option, some, none, List,
  [], ◌∷◌, ◌++◌, arith, if◌then◌else◌, is_empty, Option-cases,
}
use mathlib.Core.List.{append-nil, append_assoc}
use log_forge.Text.{Text, codes}
use log_forge.Errors.{Err, wrap, Result, done, failed}
use log_forge.Errors.Cases.{Result-cases, done_injective, done_not_failed}
use log_forge.Model.{LogRecord}
use log_forge.Dict.{Names, names_eq, insert, occurrences}
use log_forge.Dict.Laws.{names_eq_iff, lookup-insert}
use log_forge.FileRepo.{
  File, Files, content_of, FileAnswers, log_path, in_utc, Groups, group_of, group_records,
  append_loop, append_records, append_groups, first_bytes,
}

-- The records of a batch that belong into a file, in order.
abbrev pub mine : Names → List LogRecord → List LogRecord
mine path [] = []
mine path (rec ∷ records) =
    if names_eq (log_path rec.timestamp.instant) path
    then in_utc rec ∷ mine path records
    else mine path records

-- The line of a record.
abbrev pub line_of : (LogRecord → Result Text) → LogRecord → Text
line_of encode rec = elim (encode rec) [ failed e ↦ [] | done line ↦ line ++ b'\n' ∷ [] ]

abbrev pub lines_of : (LogRecord → Result Text) → List LogRecord → Text
lines_of encode [] = []
lines_of encode (rec ∷ records) = line_of encode rec ++ lines_of encode records

-- Each file that a batch has records for is visited once, and no other.
abbrev pub Visits : List Names → List LogRecord → Type 0
Visits order records =
    (path : Names)
    → occurrences names_eq path order ≡ (if is_empty (mine path records) then 0 else 1)

module _ (a : FileAnswers) (path : Names) (i : ℕ) (rec : LogRecord) (records : List LogRecord)
    (content : Text) where
  pub append_loop-unencoded :
      (e : Err)
      → a.encode rec ≡ failed e
      → append_loop a path i (rec ∷ records) content
        ≡ (content, some (wrap (codes "marshal log record: ") e))
  unfolding append_loop
  append_loop-unencoded e h = ground arith

  pub append_loop-unwritten :
      (line : Text) (n : ℕ) (e : Err)
      → a.encode rec ≡ done line
      → a.write_err path i ≡ some (n, e)
      → append_loop a path i (rec ∷ records) content ≡ (
        content ++ first_bytes n (line ++ b'\n' ∷ []),
        some (wrap (codes "write log record: ") e),
      )
  unfolding append_loop
  append_loop-unwritten line n e h₁ h₂ = ground arith

  pub append_loop-written :
      (line : Text)
      → a.encode rec ≡ done line
      → a.write_err path i ≡ none
      → append_loop a path i (rec ∷ records) content
        ≡ append_loop a path (i + 1) records (content ++ line_of a.encode rec)
  unfolding append_loop
  append_loop-written line h₁ h₂ = ground arith

pub append_loop_stores :
    (a : FileAnswers) (path : Names) (i : ℕ) (records : List LogRecord) (content : Text)
    → (append_loop a path i records content).1 ≡ none
    → (append_loop a path i records content).0 ≡ content ++ lines_of a.encode records
unfolding append_loop
append_loop_stores a path i [] content h = sym (append-nil content)
append_loop_stores a path i (rec ∷ records) content h = elim (Result-cases (a.encode rec)) [
  | inr (e, h₁) ↦ let eq = append_loop-unencoded a path i rec records content e h₁ in ground arith
  | inl (line, h₁) ↦ elim (Option-cases (a.write_err path i)) [
    | inr ((n, e), h₂) ↦
        let eq = append_loop-unwritten a path i rec records content line n e h₁ h₂ in ground arith
    | inl h₂ ↦
        let eq = append_loop-written a path i rec records content line h₁ h₂ in
        let rest =
          append_loop_stores a path (i + 1) records (content ++ line_of a.encode rec)
            (sym (ap (λ r. r.1) eq) ∙ h) in
        ap (λ r. r.0) eq
        ∙ rest
        ∙ append_assoc content (line_of a.encode rec) (lines_of a.encode records)
  ]
]

group_of-insert :
    (path p : Names) (group : List LogRecord) (groups : Groups)
    → group_of p (insert names_eq path group groups)
      ≡ (if names_eq path p then group else group_of p groups)
group_of-insert path p group groups =
    let law = lookup-insert names_eq names_eq_iff path p group groups in ground arith

pub content_of-insert :
    (path p : Names) (f : File) (files : Files)
    → content_of p (insert names_eq path f files)
      ≡ (if names_eq path p then f.content else content_of p files)
content_of-insert path p f files =
    let law = lookup-insert names_eq names_eq_iff path p f files in ground arith

-- The groups with a record added to its group.
abbrev pub with_record : LogRecord → Groups → Groups
with_record rec groups =
    let path = log_path rec.timestamp.instant in
    insert names_eq path (group_of path groups ++ in_utc rec ∷ []) groups

select :
    (b : Bool) (group own : List LogRecord) (rec : LogRecord) (rest : List LogRecord)
    → (b ≡ true → own ≡ group)
    → (if b then own ++ rec ∷ [] else group) ++ rest ≡ group ++ (if b then rec ∷ rest else rest)
select true group own rec rest h =
    ap (λ g. (g ++ rec ∷ []) ++ rest) (h refl) ∙ append_assoc group (rec ∷ []) rest
select false group own rec rest h = refl

group_of-with_record :
    (rec : LogRecord) (records : List LogRecord) (groups : Groups) (p : Names)
    → group_of p (with_record rec groups) ++ mine p records
      ≡ group_of p groups ++ mine p (rec ∷ records)
group_of-with_record rec records groups p =
    let path = log_path rec.timestamp.instant in
    ap (λ g. g ++ mine p records)
      (group_of-insert path p (group_of path groups ++ in_utc rec ∷ []) groups)
    ∙ select (names_eq path p) (group_of p groups) (group_of path groups) (in_utc rec)
        (mine p records) (λ h. ap (λ q. group_of q groups) ((names_eq_iff path p).0 h))

module _ (ctx_err : ℕ → Option Err) (i : ℕ) (rec : LogRecord) (records : List LogRecord)
    (groups : Groups) where
  pub group_records-cancelled :
      (e : Err) → ctx_err i ≡ some e → group_records ctx_err i (rec ∷ records) groups ≡ failed e
  unfolding group_records
  group_records-cancelled e h = ground arith

  pub group_records-step :
      ctx_err i ≡ none
      → group_records ctx_err i (rec ∷ records) groups
        ≡ group_records ctx_err (i + 1) records (with_record rec groups)
  unfolding group_records
  group_records-step h = ground arith

pub group_records-mine :
    (ctx_err : ℕ → Option Err) (i : ℕ) (records : List LogRecord) (groups g : Groups) (p : Names)
    → group_records ctx_err i records groups ≡ done g
    → group_of p g ≡ group_of p groups ++ mine p records
unfolding group_records
group_records-mine ctx_err i [] groups g p h =
    let eq = done_injective groups g h in
    ap (group_of p) (sym eq) ∙ sym (append-nil (group_of p groups))
group_records-mine ctx_err i (rec ∷ records) groups g p h = elim (Option-cases (ctx_err i)) [
  | inr (e, h₁) ↦
      let eq = group_records-cancelled ctx_err i rec records groups e h₁ in
      absurd (done_not_failed g e (sym eq ∙ h))
  | inl h₁ ↦
      let eq = group_records-step ctx_err i rec records groups h₁ in
      group_records-mine ctx_err (i + 1) records (with_record rec groups) g p (sym eq ∙ h)
      ∙ group_of-with_record rec records groups p
]

-- A text as often as a file is visited.
abbrev pub repeated : ℕ → Text → Text
repeated zero text = []
repeated (suc n) text = text ++ repeated n text

-- One visit.
module _ (a : FileAnswers) (path : Names) (order : List Names) (groups : Groups)
    (files : Files) where
  pub append_groups-no_directory :
      (e : Err)
      → a.mkdir_err path ≡ some e
      → append_groups a (path ∷ order) groups files
        ≡ (files, some (wrap (codes "create log directory: ") e))
  unfolding append_groups
  append_groups-no_directory e h = ground arith

  pub append_groups-fails :
      (e : Err)
      → a.mkdir_err path ≡ none
      → (append_records a path (group_of path groups) files).1 ≡ some e
      → append_groups a (path ∷ order) groups files
        ≡ ((append_records a path (group_of path groups) files).0, some e)
  unfolding append_groups
  append_groups-fails e h₁ h₂ = ground arith

  pub append_groups-visit :
      a.mkdir_err path ≡ none
      → (append_records a path (group_of path groups) files).1 ≡ none
      → append_groups a (path ∷ order) groups files
        ≡ append_groups a order groups (append_records a path (group_of path groups) files).0
  unfolding append_groups
  append_groups-visit h₁ h₂ = ground arith
