-- ===== src/ObjectRepo/Saves.antt =====
-- SaveBatch of repo/minio_repo.go as a whole never overwrites an object.
use log_forge.Prelude.{
  ℕ, suc, ◌+◌, ◌<◌, ◌≤◌, ◌≡◌, refl, ap, sym, ◌∙◌, Option, some, none, List, [], ◌∷◌, ◌++◌, arith,
  map, Bool-cases, Option-cases, inl, inr, length, length-map,
}
use log_forge.Prelude.Int.{two_64}
use mathlib.Core.Path.{subst}
use log_forge.Text.{Text, codes, text_eq}
use log_forge.Errors.{Err, wrap, Result, done, failed}
use log_forge.Errors.Cases.{Result-cases, done_injective, done_not_failed}
use log_forge.Model.{LogRecord}
use log_forge.Dict.{insert}
use log_forge.FileRepo.{in_utc}
use log_forge.Slash.Laws.{NoSlash}
use log_forge.ObjectRepo.{
  ObjectRepo, StoredObject, Bucket, SaveAnswers, Groups, group_of, group_records, hour_prefix,
  text_less, place, sort_texts, marshal_ndjson, new_shard_object_key, write_groups, save_batch,
}
use log_forge.ObjectRepo.Fresh.{Unwritten, Keeps, next, insert-Keeps, insert-Unwritten}

-- What SaveBatch may do to a repository and its bucket.
abbrev pub OnlyAdds : ObjectRepo → Bucket → ObjectRepo × Bucket × Option Err → Type 0
OnlyAdds r bucket (r', bucket', result) =
    Keeps bucket bucket' × Unwritten r' bucket' × (r'.writer_id ≡ r.writer_id)

module _ (a : SaveAnswers) (i : ℕ) (prefix : Text) (prefixes : List Text) (groups : Groups)
    (r : ObjectRepo) (bucket : Bucket) where
  abbrev payload_of : Result Text
  payload_of = marshal_ndjson a.encode (a.record_err i) 0 (group_of prefix groups)

  abbrev written_bucket : Text → Bucket
  written_bucket payload =
      insert text_eq (new_shard_object_key prefix r).1
        (record { payload = payload; last_modified = a.now i }) bucket

  write_groups-stopped :
      (e : Err)
      → a.group_err i ≡ some e
      → write_groups a i (prefix ∷ prefixes) groups r bucket ≡ (r, bucket, some e)
  unfolding write_groups
  write_groups-stopped e h = ground arith

  write_groups-unmarshalled :
      (e : Err)
      → a.group_err i ≡ none
      → payload_of ≡ failed e
      → write_groups a i (prefix ∷ prefixes) groups r bucket ≡ (r, bucket, some e)
  unfolding write_groups
  write_groups-unmarshalled e h₁ h₂ = ground arith

  write_groups-refused :
      (payload : Text) (e : Err)
      → a.group_err i ≡ none
      → payload_of ≡ done payload
      → a.write_err i ≡ some e
      → write_groups a i (prefix ∷ prefixes) groups r bucket ≡ (
        next r,
        bucket,
        some (
            wrap
              (codes "write object " ++ (a.quoted (new_shard_object_key prefix r).1 ++ codes ": "))
              e),
      )
  unfolding write_groups new_shard_object_key
  write_groups-refused payload e h₁ h₂ h₃ = ground arith

  write_groups-written :
      (payload : Text)
      → a.group_err i ≡ none
      → payload_of ≡ done payload
      → a.write_err i ≡ none
      → write_groups a i (prefix ∷ prefixes) groups r bucket
        ≡ write_groups a (i + 1) prefixes groups (next r) (written_bucket payload)
  unfolding write_groups new_shard_object_key
  write_groups-written payload h₁ h₂ h₃ = ground arith

OnlyAdds-refl :
    (r : ObjectRepo) (bucket : Bucket) (result : Option Err)
    → Unwritten r bucket
    → OnlyAdds r bucket (r, bucket, result)
OnlyAdds-refl r bucket result h = ((λ key o found. found), h, refl)

OnlyAdds-next :
    (r : ObjectRepo) (bucket bucket' : Bucket) (rest : ObjectRepo × Bucket × Option Err)
    → Keeps bucket bucket'
    → OnlyAdds (next r) bucket' rest
    → OnlyAdds r bucket rest
OnlyAdds-next r bucket bucket' rest keeps (kept, free, writer) =
    ((λ key o found. kept key o (keeps key o found)), free, writer)

Unwritten-next :
    (r : ObjectRepo) (bucket : Bucket)
    → r.object_seq + 1 < two_64
    → Unwritten r bucket
    → Unwritten (next r) bucket
Unwritten-next r bucket room free key n h e = free key n (omega arith) e

write_groups_fresh :
    (a : SaveAnswers) (i : ℕ) (prefixes : List Text) (groups : Groups) (r : ObjectRepo)
    (bucket : Bucket)
    → NoSlash r.writer_id
    → Unwritten r bucket
    → r.object_seq + length prefixes < two_64
    → OnlyAdds r bucket (write_groups a i prefixes groups r bucket)
unfolding write_groups
write_groups_fresh a i [] groups r bucket plain free room = OnlyAdds-refl r bucket none free
write_groups_fresh a i (prefix ∷ prefixes) groups r bucket plain free room =
    elim (Option-cases (a.group_err i)) [
      | inr (e, h₁) ↦
          subst (OnlyAdds r bucket)
            (sym (write_groups-stopped a i prefix prefixes groups r bucket e h₁))
            (OnlyAdds-refl r bucket (some e) free)
      | inl h₁ ↦ elim (Result-cases (payload_of a i prefix prefixes groups r bucket)) [
        | inr (e, h₂) ↦
            subst (OnlyAdds r bucket)
              (sym (write_groups-unmarshalled a i prefix prefixes groups r bucket e h₁ h₂))
              (OnlyAdds-refl r bucket (some e) free)
        | inl (payload, h₂) ↦
            let step = next r in
            elim (Option-cases (a.write_err i)) [
              | inr (e, h₃) ↦
                  let free' = Unwritten-next r bucket (omega arith) free in
                  let eq =
                    write_groups-refused a i prefix prefixes groups r bucket payload e h₁ h₂ h₃ in
                  subst (OnlyAdds r bucket) (sym eq) ((λ key o found. found), free', refl)
              | inl h₃ ↦
                  let room₁ : r.object_seq + 1 < two_64 = omega arith in
                  let bucket' = written_bucket a i prefix prefixes groups r bucket payload in
                  let stored : StoredObject = record {
                    payload = payload;
                    last_modified = a.now i;
                  } in
                  let keeps = insert-Keeps r plain room₁ bucket free prefix stored in
                  let free' = insert-Unwritten r plain room₁ bucket free prefix stored in
                  let room₂ : step.object_seq + length prefixes < two_64 = omega arith in
                  let rest =
                    write_groups_fresh a (i + 1) prefixes groups step bucket' plain free' room₂ in
                  subst (OnlyAdds r bucket)
                    (sym
                      (write_groups-written a i prefix prefixes groups r bucket payload h₁ h₂ h₃))
                    (OnlyAdds-next r bucket bucket'
                      (write_groups a (i + 1) prefixes groups step bucket') keeps rest)
            ]
      ]
    ]

length-insert :
    (prefix : Text) (group : List LogRecord) (groups : Groups)
    → length (insert text_eq prefix group groups) ≤ length groups + 1
unfolding insert
length-insert prefix group [] = omega arith
length-insert prefix group ((p, g) ∷ groups) =
    let rest = length-insert prefix group groups in
    elim (Bool-cases (text_eq p prefix)) [ inl h ↦ ground arith | inr h ↦ ground arith ]

group_records-cancelled :
    (r : ObjectRepo) (ctx_err : ℕ → Option Err) (i : ℕ) (rec : LogRecord) (records : List LogRecord)
    (groups : Groups) (e : Err)
    → ctx_err i ≡ some e
    → group_records r ctx_err i (rec ∷ records) groups ≡ failed e
unfolding group_records
group_records-cancelled r ctx_err i rec records groups e h = ground arith

group_records-step :
    (r : ObjectRepo) (ctx_err : ℕ → Option Err) (i : ℕ) (rec : LogRecord) (records : List LogRecord)
    (groups : Groups)
    → ctx_err i ≡ none
    → group_records r ctx_err i (rec ∷ records) groups
      ≡ group_records r ctx_err (i + 1) records (
          insert text_eq
            (hour_prefix r rec.timestamp.instant)
            (group_of (hour_prefix r rec.timestamp.instant) groups ++ in_utc rec ∷ [])
            groups)
unfolding group_records
group_records-step r ctx_err i rec records groups h = ground arith

group_records-length :
    (r : ObjectRepo) (ctx_err : ℕ → Option Err) (i : ℕ) (records : List LogRecord)
    (groups g : Groups)
    → group_records r ctx_err i records groups ≡ done g
    → length g ≤ length groups + length records
unfolding group_records
group_records-length r ctx_err i [] groups g h =
    let same = ap length (done_injective groups g h) in omega arith
group_records-length r ctx_err i (rec ∷ records) groups g h = elim (Option-cases (ctx_err i)) [
  | inr (e, h₁) ↦
      absurd (
        done_not_failed g e (sym (group_records-cancelled r ctx_err i rec records groups e h₁) ∙ h))
  | inl h₁ ↦
      let path = hour_prefix r rec.timestamp.instant in
      let group = group_of path groups ++ in_utc rec ∷ [] in
      let rest =
        group_records-length r ctx_err (i + 1) records (insert text_eq path group groups) g
          (sym (group_records-step r ctx_err i rec records groups h₁) ∙ h) in
      let one = length-insert path group groups in omega arith
]

length-place : (s : Text) (sorted : List Text) → length (place s sorted) ≡ suc (length sorted)
unfolding place
length-place s [] = refl
length-place s (t ∷ sorted) =
    let rest = length-place s sorted in
    elim (Bool-cases (text_less t s)) [ inl h ↦ ground arith | inr h ↦ ground arith ]

length-sort_texts : (texts : List Text) → length (sort_texts texts) ≡ length texts
unfolding sort_texts
length-sort_texts [] = refl
length-sort_texts (s ∷ texts) = length-place s (sort_texts texts) ∙ ap suc (length-sort_texts texts)

save_batch-cancelled :
    (a : SaveAnswers) (rec : LogRecord) (records : List LogRecord) (r : ObjectRepo)
    (bucket : Bucket) (e : Err)
    → group_records r a.grouping_err 0 (rec ∷ records) [] ≡ failed e
    → save_batch a (rec ∷ records) r bucket ≡ (r, bucket, some e)
unfolding save_batch
save_batch-cancelled a rec records r bucket e h = ground arith

save_batch-grouped :
    (a : SaveAnswers) (rec : LogRecord) (records : List LogRecord) (r : ObjectRepo)
    (bucket : Bucket) (g : Groups)
    → group_records r a.grouping_err 0 (rec ∷ records) [] ≡ done g
    → save_batch a (rec ∷ records) r bucket
      ≡ write_groups a 0 (sort_texts (map (λ (prefix, group). prefix) g)) g r bucket
unfolding save_batch
save_batch-grouped a rec records r bucket g h = ground arith

-- SaveBatch of a writer whose identifier has no slash never overwrites an object, whatever fails: when
-- the bucket has no key with a file name that the writer has still to make, every object of the bucket
-- is there afterwards as it was, and the bucket still has no such key; the sequence number must not
-- reach 2^64.
pub save_batch-OnlyAdds :
    (a : SaveAnswers) (records : List LogRecord) (r : ObjectRepo) (bucket : Bucket)
    → NoSlash r.writer_id
    → Unwritten r bucket
    → r.object_seq + length records < two_64
    → OnlyAdds r bucket (save_batch a records r bucket)
unfolding save_batch
save_batch-OnlyAdds a [] r bucket plain free room = OnlyAdds-refl r bucket none free
save_batch-OnlyAdds a (rec ∷ records) r bucket plain free room =
    elim (Result-cases (group_records r a.grouping_err 0 (rec ∷ records) [])) [
      | inr (e, h) ↦
          subst (OnlyAdds r bucket) (sym (save_batch-cancelled a rec records r bucket e h))
            (OnlyAdds-refl r bucket (some e) free)
      | inl (g, h) ↦
          let prefixes = map (λ (prefix, group). prefix) g in
          let few = group_records-length r a.grouping_err 0 (rec ∷ records) [] g h in
          let same : length (sort_texts prefixes) ≡ length g =
            length-sort_texts prefixes ∙ length-map (λ (prefix, group). prefix) g in
          subst (OnlyAdds r bucket) (sym (save_batch-grouped a rec records r bucket g h))
            (write_groups_fresh a 0 (sort_texts prefixes) g r bucket plain free (omega arith))
    ]
