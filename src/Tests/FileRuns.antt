-- ===== src/Tests/FileRuns.antt =====
-- A run of SaveBatch of repo/file_repo.go.
use log_forge.Prelude.{
  ◌+◌, ◌-◌, ◌*◌, ◌≡◌, refl, ◌==◌, true, false, none, some, List, [], ◌∷◌, ◌++◌, arith, inl, inr,
  Bool-cases,
}
use log_forge.Prelude.Int.{pos}
use log_forge.Text.{Text, codes, text_eq}
use log_forge.Errors.{done}
use log_forge.Model.{LogRecord, zero_instant}
use log_forge.Dict.{Names, names_eq, occurrences, lookup, insert}
use log_forge.Calendar.{format_date, format_hour, date_of}
use log_forge.FileRepo.{
  FileAnswers, content_of, log_path, save_batch, group_records, append_groups, append_records,
  append_loop,
}
use log_forge.FileRepo.Stores.{mine, lines_of, Visits}
use log_forge.FileRepo.Batch.{save_batch_stores}
use log_forge.FileRepo.Growth.{Unfailing, Extends, save_batch_succeeds, save_batch-Extends}
use log_forge.Tests.Samples.{refusal}

abbrev pub visit_to : Text → LogRecord
visit_to path = record {
  timestamp = record { instant = zero_instant + 1; offset = pos 0 };
  path = path;
  user_agent = codes "curl";
}

abbrev pub visits : List LogRecord
visits = visit_to (codes "/a") ∷ (visit_to (codes "/b") ∷ [])

abbrev pub first_hour : Names
first_hour = log_path (zero_instant + 1)

-- A file system on which all goes well, with the path as the text of a record.
abbrev pub sound_files : FileAnswers
sound_files = record {
  ctx_err = λ i. none;
  order = first_hour ∷ [];
  mkdir_err = λ p. none;
  open_err = λ p. none;
  encode = λ rec. done rec.path;
  write_err = λ p i. none;
  now = λ p. 7;
}

pub sound_files-Unfailing : Unfailing sound_files
sound_files-Unfailing = record {
  alive = λ i. refl;
  made = λ p. refl;
  opened = λ p. refl;
  encoded = λ rec. (rec.path, refl);
  written = λ p i. refl;
}

pub visits-Visits : Visits sound_files.order visits
unfolding occurrences
visits-Visits path = elim (Bool-cases (names_eq first_hour path)) [
  | inl h ↦ ground arith
  | inr h ↦ ground arith
]

save_batch_stores_example :
    content_of first_hour (save_batch sound_files visits []).0
    ≡ content_of first_hour [] ++ lines_of sound_files.encode (mine first_hour visits)
save_batch_stores_example =
    save_batch_stores sound_files visits [] visits-Visits
      (save_batch_succeeds sound_files sound_files-Unfailing visits []) first_hour

stored_text : content_of first_hour (save_batch sound_files visits []).0 ≡ codes "/a\n/b\n"
unfolding save_batch lookup group_records append_groups append_records append_loop insert names_eq
    text_eq format_date format_hour
stored_text = refl

-- The second write stops after one byte.
abbrev torn_files : FileAnswers
torn_files = record sound_files {
  write_err = λ p i. elim (◌==◌ i 1) [ true ↦ some (1, refusal) | false ↦ none ];
}

save_batch-Extends_example :
    Extends (content_of first_hour []) (content_of first_hour (save_batch torn_files visits []).0)
save_batch-Extends_example = save_batch-Extends torn_files visits [] first_hour

torn_text : content_of first_hour (save_batch torn_files visits []).0 ≡ codes "/a\n/"
unfolding save_batch lookup group_records append_groups append_records append_loop insert names_eq
    text_eq format_date format_hour
torn_text = refl

-- The last second of the leap day of the year 2000.
leap_day :
    log_path (12649219200000000000 + (730178 + 1) * 86400000000000 - 1)
    ≡ codes "2000-02-29" ∷ (codes "23.log.json" ∷ [])
unfolding format_date format_hour log_path date_of
leap_day = refl
