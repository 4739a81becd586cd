-- ===== src/FileRepo/Batch.antt =====
-- SaveBatch of repo/file_repo.go as a whole: what a file holds after a call.
use log_forge.Prelude.{
  ℕ, suc, ◌+◌, ◌≡◌, inl, inr, refl, ap, sym, ◌∙◌, Bool, true, false, some, none, List, [], ◌∷◌,
  ◌++◌, arith, if◌then◌else◌, is_empty, Option-cases,
}
use mathlib.Core.List.{append-nil, append_assoc}
use log_forge.Text.{Text, codes}
use log_forge.Errors.{Err, wrap, Result, done, failed}
use log_forge.Errors.Cases.{Result-cases}
use log_forge.Model.{LogRecord}
use log_forge.Dict.{Names, names_eq, lookup, insert, occurrences}
use log_forge.Dict.Laws.{names_eq_iff}
use log_forge.FileRepo.{
  Files, content_of, FileAnswers, Groups, group_of, group_records, append_loop, append_records,
  append_groups, save_batch,
}
use log_forge.FileRepo.Stores.{
  mine, lines_of, Visits, append_loop_stores, content_of-insert, group_records-mine, repeated,
  append_groups-no_directory, append_groups-fails, append_groups-visit,
}

-- A file to which a text is added; the others keep what they hold.
grow :
    (b : Bool) (content own t : Text)
    → (b ≡ true → own ≡ content)
    → (if b then own ++ t else content) ≡ content ++ (if b then t else [])
grow true content own t h = ap (λ c. c ++ t) (h refl)
grow false content own t h = sym (append-nil content)

pub content_of-grow :
    (path p : Names) (t : Text) (now : ℕ) (files : Files)
    → content_of p (
        insert names_eq path
          (record { content = content_of path files ++ t; mod_time = now })
          files)
      ≡ content_of p files ++ (if names_eq path p then t else [])
content_of-grow path p t now files =
    content_of-insert path p (record { content = content_of path files ++ t; mod_time = now }) files
    ∙ grow (names_eq path p) (content_of p files) (content_of path files) t
        (λ h. ap (λ q. content_of q files) ((names_eq_iff path p).0 h))

module _ (a : FileAnswers) (path : Names) (records : List LogRecord) (files : Files) where
  pub append_records-unopened :
      (e : Err)
      → a.open_err path ≡ some e
      → append_records a path records files ≡ (files, some (wrap (codes "open log file: ") e))
  unfolding append_records
  append_records-unopened e h = ground arith

  pub append_records-opened :
      a.open_err path ≡ none
      → append_records a path records files ≡ (
        insert names_eq path
            (record {
              content = (append_loop a path 0 records (content_of path files)).0;
              mod_time = a.now path;
            })
            files,
        (append_loop a path 0 records (content_of path files)).1,
      )
  unfolding append_records
  append_records-opened h = ground arith

  append_records_stores :
      (p : Names)
      → (append_records a path records files).1 ≡ none
      → content_of p (append_records a path records files).0
        ≡ content_of p files ++ (if names_eq path p then lines_of a.encode records else [])
  append_records_stores p h = elim (Option-cases (a.open_err path)) [
    | inr (e, h₁) ↦ let eq = append_records-unopened e h₁ in ground arith
    | inl h₁ ↦
        let eq = append_records-opened h₁ in
        let loop =
          append_loop_stores a path 0 records (content_of path files)
            (sym (ap (λ r. r.1) eq) ∙ h) in
        ap (λ r. content_of p r.0) eq
        ∙ ap
            (λ c.
              content_of p
                (insert names_eq path (record { content = c; mod_time = a.now path }) files))
            loop
        ∙ content_of-grow path p (lines_of a.encode records) (a.now path) files
  ]

-- The text that a visit adds, followed by those of the later visits.
visit_text :
    (b : Bool) (n : ℕ) (content own other : Text)
    → (b ≡ true → own ≡ other)
    → (content ++ (if b then own else [])) ++ repeated n other
      ≡ content ++ repeated ((if b then 1 else 0) + n) other
visit_text true n content own other h =
    let one_added : suc n ≡ 1 + n = omega arith in
    append_assoc content own (repeated n other)
    ∙ ap (λ t. content ++ (t ++ repeated n other)) (h refl)
    ∙ ap (λ m. content ++ repeated m other) one_added
visit_text false n content own other h =
    let none_added : n ≡ 0 + n = omega arith in
    append_assoc content [] (repeated n other) ∙ ap (λ m. content ++ repeated m other) none_added

append_groups_stores :
    (a : FileAnswers) (order : List Names) (groups : Groups) (files : Files) (p : Names)
    → (append_groups a order groups files).1 ≡ none
    → content_of p (append_groups a order groups files).0
      ≡ content_of p files
        ++ repeated (occurrences names_eq p order) (lines_of a.encode (group_of p groups))
unfolding append_groups occurrences
append_groups_stores a [] groups files p h = sym (append-nil (content_of p files))
append_groups_stores a (path ∷ order) groups files p h = elim (Option-cases (a.mkdir_err path)) [
  | inr (e, h₁) ↦ let eq = append_groups-no_directory a path order groups files e h₁ in ground arith
  | inl h₁ ↦
      let r = append_records a path (group_of path groups) files in
      elim (Option-cases r.1) [
        | inr (e, h₂) ↦
            let eq = ap (λ r. r.1) (append_groups-fails a path order groups files e h₁ h₂) in
            ground arith
        | inl h₂ ↦
            let eq = append_groups-visit a path order groups files h₁ h₂ in
            let text = lines_of a.encode (group_of p groups) in
            ap (λ r. content_of p r.0) eq
            ∙ append_groups_stores a order groups r.0 p (sym (ap (λ r. r.1) eq) ∙ h)
            ∙ ap (λ c. c ++ repeated (occurrences names_eq p order) text)
                (append_records_stores a path (group_of path groups) files p h₂)
            ∙ visit_text (names_eq path p) (occurrences names_eq p order) (content_of p files)
                (lines_of a.encode (group_of path groups)) text
                (λ h. ap (λ q. lines_of a.encode (group_of q groups)) ((names_eq_iff path p).0 h))
      ]
]

pub save_batch-cancelled :
    (a : FileAnswers) (records : List LogRecord) (files : Files) (e : Err)
    → is_empty records ≡ false
    → group_records a.ctx_err 0 records [] ≡ failed e
    → save_batch a records files ≡ (files, some e)
unfolding save_batch
save_batch-cancelled a records files e h₁ h₂ = ground arith

pub save_batch-grouped :
    (a : FileAnswers) (records : List LogRecord) (files : Files) (g : Groups)
    → is_empty records ≡ false
    → group_records a.ctx_err 0 records [] ≡ done g
    → save_batch a records files ≡ append_groups a a.order g files
unfolding save_batch
save_batch-grouped a records files g h₁ h₂ = ground arith

-- A file with no records of a batch gets no text, whether it is visited or not.
once :
    (encode : LogRecord → Result Text) (records : List LogRecord)
    → repeated (if is_empty records then 0 else 1) (lines_of encode records)
      ≡ lines_of encode records
once encode [] = refl
once encode (rec ∷ records) = append-nil (lines_of encode (rec ∷ records))

-- A SaveBatch that succeeds has added to each file the lines of the records of its hour, in their
-- order, and nothing else, when the loop over the map of groups visits each key once.
pub save_batch_stores :
    (a : FileAnswers) (records : List LogRecord) (files : Files)
    → Visits a.order records
    → (save_batch a records files).1 ≡ none
    → (p : Names)
    → content_of p (save_batch a records files).0
      ≡ content_of p files ++ lines_of a.encode (mine p records)
unfolding save_batch lookup names_eq
save_batch_stores a [] files visits h p = sym (append-nil (content_of p files))
save_batch_stores a (rec ∷ records) files visits h p =
    let batch : List LogRecord = rec ∷ records in
    elim (Result-cases (group_records a.ctx_err 0 batch [])) [
      | inr (e, h₁) ↦ let eq = save_batch-cancelled a batch files e refl h₁ in ground arith
      | inl (g, h₁) ↦
          let eq = save_batch-grouped a batch files g refl h₁ in
          let own = group_records-mine a.ctx_err 0 batch [] g p h₁ in
          ap (λ r. content_of p r.0) eq
          ∙ append_groups_stores a a.order g files p (sym (ap (λ r. r.1) eq) ∙ h)
          ∙ ap
              (λ t.
                content_of p files
                ++ repeated (occurrences names_eq p a.order) (lines_of a.encode t))
              own
          ∙ ap (λ n. content_of p files ++ repeated n (lines_of a.encode (mine p batch))) (visits p)
          ∙ ap (λ t. content_of p files ++ t) (once a.encode (mine p batch))
    ]
