-- ===== src/ObjectAggregation/Keys.antt =====
-- The aggregation of service/minio_aggregation.go reads the hour of an object from the key that
-- repo/minio_repo.go gave it.
use log_forge.Prelude.{
  ℕ, ◌+◌, ◌/◌, ◌%◌, ◌≡◌, refl, ap, sym, ◌∙◌, true, false, some, List, [], ◌∷◌, ◌++◌, arith,
  is_empty,
}
use log_forge.Prelude.Int.{two_64}
use mathlib.Core.List.{append_assoc}
use log_forge.Text.{Text, codes, has_suffix, decimal}
use log_forge.Calendar.{
  hour_ns, day_ns, date_of, format_date, format_hour, parse_date, parse_hour, hour_start,
  truncate_hour,
}
use log_forge.Calendar.RoundTrip.{
  HasYear, parse_date-format_date, parse_hour-format_hour, hour_start-truncate_hour,
}
use log_forge.Slash.{split, reverse_onto}
use log_forge.Slash.Ends.{EndsIn}
use log_forge.Aggregation.Paths.{has_suffix-append}
use log_forge.ObjectRepo.{ObjectRepo, hour_prefix, shard_file, new_shard_object_key}
use log_forge.ObjectRepo.Keys.{IsValid, key-EndsIn, two_parts}
use log_forge.ObjectAggregation.{
  parse_hour_parts, parse_key_parts, trim_key, parse_hour_from_object_key,
}

reverse_onto-both :
    (xs ys zs : List Text) → reverse_onto (xs ++ ys) zs ≡ reverse_onto ys (reverse_onto xs zs)
unfolding reverse_onto
reverse_onto-both [] ys zs = refl
reverse_onto-both (x ∷ xs) ys zs = reverse_onto-both xs ys (x ∷ zs)

has_suffix-shard_file :
    (writer_id : Text) (seq : ℕ) → has_suffix (shard_file writer_id seq) (codes ".log.json") ≡ true
unfolding shard_file
has_suffix-shard_file writer_id seq =
    let suffix = codes ".log.json" in
    let digits = codes "-" ++ decimal seq in
    let whole : writer_id ++ (codes "-" ++ (decimal seq ++ suffix))
        ≡ (writer_id ++ digits) ++ suffix =
      sym (append_assoc writer_id digits suffix) in
    ap (λ file. has_suffix file suffix) whole ∙ has_suffix-append (writer_id ++ digits) suffix

sharded_parts :
    (file hour date : Text) (parts : List Text) (start : ℕ)
    → has_suffix file (codes ".log.json") ≡ true
    → parse_hour_parts date hour ≡ some start
    → parse_key_parts (file ∷ (hour ∷ (date ∷ parts))) ≡ some start
unfolding parse_key_parts
sharded_parts file hour date parts start h₁ h₂ = ground arith

parsed :
    (date hour : Text) (day h : ℕ)
    → parse_date date ≡ some day
    → parse_hour hour ≡ some h
    → parse_hour_parts date hour ≡ some (hour_start day h)
unfolding parse_hour_parts
parsed date hour day h h₁ h₂ = ground arith

formatted_parts :
    (instant : ℕ)
    → HasYear (date_of (instant / day_ns))
    → parse_hour_parts (format_date instant) (format_hour instant) ≡ some (truncate_hour instant)
formatted_parts instant y =
    let date = parse_date-format_date instant y in
    let hour = parse_hour-format_hour instant in
    parsed (format_date instant) (format_hour instant) (instant / day_ns)
      (instant % day_ns / hour_ns) date hour
    ∙ ap some (hour_start-truncate_hour instant)

key_parts :
    (key : Text)
    → trim_key key ≡ key
    → is_empty key ≡ false
    → parse_hour_from_object_key key ≡ parse_key_parts (reverse_onto (split key) [])
unfolding parse_hour_from_object_key
key_parts key h₁ h₂ = ground arith

-- parseHourFromObjectKey reads the hour back from the key of a shard, for a time in the years 0 to
-- 9999, a writer's identifier without a slash, and a key that trimming spaces and slashes leaves alone.
pub parse_hour-new_shard_object_key :
    (r : ObjectRepo)
    → IsValid r
    → (instant : ℕ) → HasYear (date_of (instant / day_ns))
    → let key = (new_shard_object_key (hour_prefix r instant) r).1 in
      trim_key key ≡ key → parse_hour_from_object_key key ≡ some (truncate_hour instant)
unfolding new_shard_object_key reverse_onto
parse_hour-new_shard_object_key r valid instant y trimmed =
    let seq = (r.object_seq + 1) % two_64 in
    let key = (new_shard_object_key (hour_prefix r instant) r).1 in
    let file = shard_file r.writer_id seq in
    let date = format_date instant in
    let hour = format_hour instant in
    let (before, parts) = key-EndsIn r valid instant seq y in
    let last_two : EndsIn (hour ∷ (file ∷ [])) key =
      (before ++ (date ∷ []), parts ∙ sym (append_assoc before (date ∷ []) (hour ∷ (file ∷ [])))) in
    key_parts key trimmed (two_parts key hour file last_two)
    ∙ ap (λ l. parse_key_parts (reverse_onto l [])) parts
    ∙ ap parse_key_parts (reverse_onto-both before (date ∷ (hour ∷ (file ∷ []))) [])
    ∙ sharded_parts file hour date (reverse_onto before []) (truncate_hour instant)
        (has_suffix-shard_file r.writer_id seq) (formatted_parts instant y)
