-- ===== src/Tests/ObjectRuns.antt =====
-- Runs of repo/minio_repo.go and of the keys of service/minio_aggregation.go.
use log_forge.Prelude.{◌+◌, ◌≡◌, refl, ap, sym, ◌∙◌, false, none, some, [], arith, length}
use log_forge.Text.{
  codes, text_eq, trim, trim_left, trim_right, trim_space, is_space, is_blank, decimal, has_prefix,
}
use log_forge.Errors.{done}
use log_forge.Model.{zero_instant}
use log_forge.Calendar.{date_of, truncate_hour, format_date, format_hour}
use log_forge.Dict.{lookup, insert}
use log_forge.Slash.{
  push, split, join, clean, clean_parts, clean_part, back, reverse_onto, path_join,
}
use log_forge.ObjectRepo.{
  ObjectRepo, Bucket, SaveAnswers, hour_prefix, shard_file, new_shard_object_key, save_batch,
  group_records, sort_texts, place, write_groups, marshal_ndjson, list_log_objects, list_prefix,
  sort_objects, log_objects, objects_under,
}
use log_forge.ObjectRepo.Options.{
  ObjectRepoOptions, OptionAnswers, is_writer_rune, writer_rune, sanitize_writer_id, open_client,
  new_object_repo,
}
use log_forge.ObjectRepo.Keys.{IsValid}
use log_forge.ObjectRepo.Saves.{OnlyAdds, save_batch-OnlyAdds}
use log_forge.ObjectRepo.Writers.{new_object_repo-IsValid}
use log_forge.ObjectAggregation.{trim_key, parse_hour_from_object_key}
use log_forge.ObjectAggregation.Keys.{parse_hour-new_shard_object_key}
use log_forge.Tests.FileRuns.{visits}

abbrev options : ObjectRepoOptions
options = record {
  endpoint = codes "minio:9000";
  bucket = codes " logs ";
  access_key = codes "key";
  secret_key = codes "secret";
  use_ssl = false;
  logs_prefix = codes "/raw/";
  writer_id = codes "web/1";
  has_client = false;
}

abbrev host : OptionAnswers
host = record {
  client_err = λ endpoint access secret ssl. none;
  writer_variable = [];
  pod_name = [];
  hostname_variable = [];
  hostname = done (codes "host");
  process_id = 7;
  now_ns = 42;
}

abbrev writer : ObjectRepo
writer = record {
  bucket = codes "logs";
  logs_prefix = codes "raw";
  writer_id = codes "web-1-7-42";
  object_seq = 0;
}

writer_made : new_object_repo host options ≡ done writer
unfolding new_object_repo open_client sanitize_writer_id writer_rune is_writer_rune trim trim_left
    trim_right trim_space is_space is_blank decimal
writer_made = refl

new_object_repo-IsValid_example : IsValid writer × (writer.object_seq ≡ 0)
new_object_repo-IsValid_example = new_object_repo-IsValid host options writer writer_made

writer-IsValid : IsValid writer
writer-IsValid = (new_object_repo-IsValid host options writer writer_made).0

abbrev sound : SaveAnswers
sound = record {
  grouping_err = λ i. none;
  group_err = λ i. none;
  record_err = λ i j. none;
  encode = λ rec. done rec.path;
  write_err = λ i. none;
  now = λ i. 7;
  quoted = λ t. t;
}

save_batch-OnlyAdds_example : OnlyAdds writer [] (save_batch sound visits writer [])
unfolding lookup
save_batch-OnlyAdds_example =
    save_batch-OnlyAdds sound visits writer [] writer-IsValid.plain_writer (λ key n h e. refl)
      (omega arith)

first_key :
    (new_shard_object_key (hour_prefix writer (zero_instant + 1)) writer).1
    ≡ codes "raw/0001-01-01/00/web-1-7-42-1.log.json"
unfolding new_shard_object_key hour_prefix shard_file decimal format_date format_hour date_of
    path_join clean clean_parts clean_part back reverse_onto split join push text_eq has_prefix
first_key = refl

cleaned :
    trim_key (codes "raw/0001-01-01/00/web-1-7-42-1.log.json")
    ≡ codes "raw/0001-01-01/00/web-1-7-42-1.log.json"
unfolding trim_key trim trim_left trim_right trim_space is_space
cleaned = refl

first_key_trimmed :
    trim_key (new_shard_object_key (hour_prefix writer (zero_instant + 1)) writer).1
    ≡ (new_shard_object_key (hour_prefix writer (zero_instant + 1)) writer).1
first_key_trimmed = ap trim_key first_key ∙ cleaned ∙ sym first_key

parse_hour-new_shard_object_key_example :
    parse_hour_from_object_key
      (new_shard_object_key (hour_prefix writer (zero_instant + 1)) writer).1
    ≡ some (truncate_hour (zero_instant + 1))
unfolding date_of
parse_hour-new_shard_object_key_example =
    parse_hour-new_shard_object_key writer writer-IsValid (zero_instant + 1)
      (omega arith, omega arith) first_key_trimmed

-- A prefix that path.Clean changes: the objects are stored below `a/b`, and looked for below `a//b`.
abbrev uncleaned : ObjectRepo
uncleaned = record writer { logs_prefix = codes "a//b" }

abbrev stored : Bucket
stored = (save_batch sound visits uncleaned []).1

stored_one : length stored ≡ 1
unfolding save_batch group_records sort_texts place write_groups marshal_ndjson lookup insert
    hour_prefix new_shard_object_key shard_file decimal format_date format_hour date_of path_join
    clean clean_parts clean_part back reverse_onto split join push text_eq has_prefix
stored_one = refl

list_misses : list_log_objects (λ t. t) none uncleaned stored ≡ done []
unfolding save_batch group_records sort_texts place write_groups marshal_ndjson lookup insert
    hour_prefix new_shard_object_key shard_file decimal format_date format_hour date_of path_join
    clean clean_parts clean_part back reverse_onto split join push text_eq has_prefix
    list_log_objects list_prefix sort_objects log_objects objects_under trim trim_left trim_right
list_misses = refl
