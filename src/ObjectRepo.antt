-- ===== src/ObjectRepo.antt =====
-- repo/minio_repo.go: MinIORepo, which writes each group of records of an hour as one object of its
-- own into a bucket, under a key that no other write of this writer has. The bucket is what the MinIO
-- client keeps; its answers are arguments.
pub mod Options
pub mod Keys
pub mod Fresh
pub mod Saves
pub mod Writers
use log_forge.Prelude.{
  ℕ, ◌+◌, ◌%◌, Bool, true, false, not, ◌&&◌, ◌||◌, Option, some, none, List, [], ◌∷◌, ◌++◌, ◌==◌,
  map, ltb, if◌then◌else◌, is_empty,
}
use log_forge.Prelude.Int.{two_64}
use log_forge.Text.{
  Text, codes, text_eq, trim, trim_space, has_suffix, decimal, has_prefix, strip_prefix,
}
use log_forge.Errors.{Err, message, wrap, Result, done, failed}
use log_forge.Model.{LogRecord}
use log_forge.Calendar.{format_date, format_hour}
use log_forge.Dict.{lookup, insert}
use log_forge.FileRepo.{in_utc}
use log_forge.Slash.{path_join}

-- The fields of the struct without its client. `object_seq` is a uint64.
pub record ObjectRepo : Type 0 where
  pub bucket : Text
  pub logs_prefix : Text
  pub writer_id : Text
  pub object_seq : ℕ

-- An object of the bucket.
pub record StoredObject : Type 0 where
  pub payload : Text
  pub last_modified : ℕ

-- The bucket by the keys of its objects.
abbrev pub Bucket : Type 0
Bucket = List (Text × StoredObject)

-- What the context, the codec, the client and its server answer during a SaveBatch: the context while
-- the records are grouped, before each group and before each record of a group; the client for each
-- group. A write that fails stores nothing.
pub record SaveAnswers : Type 0 where
  pub grouping_err : ℕ → Option Err
  pub group_err : ℕ → Option Err
  pub record_err : ℕ → ℕ → Option Err
  pub encode : LogRecord → Result Text
  pub write_err : ℕ → Option Err
  pub now : ℕ → ℕ
  -- `%q`.
  pub quoted : Text → Text

-- The prefix of the keys of an hour.
unfoldable pub hour_prefix : ObjectRepo → ℕ → Text
unfolding path_join
hour_prefix r instant =
    path_join (r.logs_prefix ∷ (format_date instant ∷ (format_hour instant ∷ [])))

abbrev pub Groups : Type 0
Groups = List (Text × List LogRecord)

abbrev pub group_of : Text → Groups → List LogRecord
group_of prefix groups = elim (lookup text_eq prefix groups) [ none ↦ [] | some group ↦ group ]

-- The loop that groups the records, from the record at index `i` on.
unfoldable pub group_records :
    ObjectRepo → (ℕ → Option Err) → ℕ → List LogRecord → Groups → Result Groups
unfolding hour_prefix
group_records r ctx_err i [] groups = done groups
group_records r ctx_err i (rec ∷ records) groups =
    let prefix = hour_prefix r rec.timestamp.instant in
    let grouped = insert text_eq prefix (group_of prefix groups ++ in_utc rec ∷ []) groups in
    elim (ctx_err i) [ some e ↦ failed e | none ↦ group_records r ctx_err (i + 1) records grouped ]

-- `s < t` on strings, which for UTF-8 is the order of the codes.
unfoldable pub text_less : Text → Text → Bool
text_less [] [] = false
text_less [] (d ∷ t) = true
text_less (c ∷ s) [] = false
text_less (c ∷ s) (d ∷ t) = if c == d then text_less s t else ltb c d

-- `sort.Strings`.
unfoldable pub place : Text → List Text → List Text
unfolding text_less
place s [] = s ∷ []
place s (t ∷ sorted) = if text_less t s then t ∷ place s sorted else s ∷ (t ∷ sorted)

unfoldable pub sort_texts : List Text → List Text
unfolding place
sort_texts [] = []
sort_texts (s ∷ texts) = place s (sort_texts texts)

-- `marshalNDJSON`, from the record at index `i` on.
unfoldable pub marshal_ndjson :
    (LogRecord → Result Text) → (ℕ → Option Err) → ℕ → List LogRecord → Result Text
marshal_ndjson encode ctx_err i [] = done []
marshal_ndjson encode ctx_err i (rec ∷ records) =
    let rest = marshal_ndjson encode ctx_err (i + 1) records in
    elim (ctx_err i) [
      | some e ↦ failed e
      | none ↦ elim (encode rec) [
        | failed e ↦ failed (wrap (codes "marshal log record: ") e)
        | done line ↦ elim rest [ failed e ↦ failed e | done text ↦ done (line ++ (b'\n' ∷ text)) ]
      ]
    ]

-- The last part of a key.
unfoldable pub shard_file : Text → ℕ → Text
unfolding decimal
shard_file writer_id seq = writer_id ++ (codes "-" ++ (decimal seq ++ codes ".log.json"))

-- `newShardObjectKey`.
unfoldable pub new_shard_object_key : Text → ObjectRepo → ObjectRepo × Text
unfolding path_join shard_file
new_shard_object_key prefix r =
    let seq = (r.object_seq + 1) % two_64 in
    (record r { object_seq = seq }, path_join (prefix ∷ (shard_file r.writer_id seq ∷ [])))

-- The loop over the prefixes, from the one at index `i` on.
unfoldable pub write_groups :
    SaveAnswers → ℕ → List Text → Groups → ObjectRepo → Bucket → ObjectRepo × Bucket × Option Err
unfolding marshal_ndjson new_shard_object_key
write_groups a i [] groups r bucket = (r, bucket, none)
write_groups a i (prefix ∷ prefixes) groups r bucket = elim (a.group_err i) [
  | some e ↦ (r, bucket, some e)
  | none ↦ elim (marshal_ndjson a.encode (a.record_err i) 0 (group_of prefix groups)) [
    | failed e ↦ (r, bucket, some e)
    | done payload ↦
        let (r', object) = new_shard_object_key prefix r in
        elim (a.write_err i) [
          | some e ↦
              (r', bucket, some (wrap (codes "write object " ++ (a.quoted object ++ codes ": ")) e))
          | none ↦
              let stored : StoredObject = record { payload = payload; last_modified = a.now i } in
              write_groups a (i + 1) prefixes groups r' (insert text_eq object stored bucket)
        ]
  ]
]

-- `SaveBatch`.
unfoldable pub save_batch :
    SaveAnswers → List LogRecord → ObjectRepo → Bucket → ObjectRepo × Bucket × Option Err
unfolding group_records sort_texts write_groups
save_batch a records r bucket =
    if is_empty records
    then (r, bucket, none)
    else elim (group_records r a.grouping_err 0 records []) [
      | failed e ↦ (r, bucket, some e)
      | done groups ↦
          write_groups a 0 (sort_texts (map (λ (prefix, group). prefix) groups)) groups r bucket
    ]

-- MinIOObjectInfo.
pub record ObjectInfo : Type 0 where
  pub key : Text
  pub last_modified : ℕ

-- The prefix under which ListLogObjects looks.
unfoldable pub list_prefix : ObjectRepo → Text
unfolding trim
list_prefix r = trim (λ c. c == b'/') r.logs_prefix ++ codes "/"

-- `sort.Slice` by the keys, and the filter by the suffix.
unfoldable pub place_object : ObjectInfo → List ObjectInfo → List ObjectInfo
unfolding text_less
place_object o [] = o ∷ []
place_object o (p ∷ sorted) =
    if text_less p.key o.key then p ∷ place_object o sorted else o ∷ (p ∷ sorted)

unfoldable pub sort_objects : List ObjectInfo → List ObjectInfo
unfolding place_object
sort_objects [] = []
sort_objects (o ∷ objects) = place_object o (sort_objects objects)

unfoldable pub log_objects : List ObjectInfo → List ObjectInfo
unfolding has_suffix
log_objects [] = []
log_objects (o ∷ objects) =
    let rest = log_objects objects in
    if has_suffix o.key (codes ".log.json") then o ∷ rest else rest

-- The objects of a bucket whose keys begin with a prefix, as a server lists them.
unfoldable pub objects_under : Text → Bucket → List ObjectInfo
unfolding has_prefix
objects_under prefix [] = []
objects_under prefix ((key, o) ∷ bucket) =
    let rest = objects_under prefix bucket in
    if has_prefix prefix key
    then record { key = key; last_modified = o.last_modified } ∷ rest
    else rest

-- `ListLogObjects`, for an error of the client.
unfoldable pub list_log_objects :
    (Text → Text) → Option Err → ObjectRepo → Bucket → Result (List ObjectInfo)
unfolding list_prefix sort_objects log_objects objects_under
list_log_objects quoted list_err r bucket = elim list_err [
  | some e ↦
      failed (wrap (codes "list objects with prefix " ++ (quoted (list_prefix r) ++ codes ": ")) e)
  | none ↦ done (sort_objects (log_objects (objects_under (list_prefix r) bucket)))
]

abbrev pub object_not_found : Err
object_not_found = message (codes "object not found")

-- `ReadLogObject`, for an error of the client; a missing object is one.
unfoldable pub read_log_object : (Text → Text) → Option Err → Text → Bucket → Result Text
unfolding trim_space strip_prefix
read_log_object quoted read_err object bucket =
    let spaceless = trim_space object in
    let key : Text = elim (strip_prefix (codes "/") spaceless) [
      | none ↦ spaceless
      | some rest ↦ rest
    ] in
    let refused : Err → Err = λ e. wrap (codes "read object " ++ (quoted key ++ codes ": ")) e in
    if is_empty key then failed (message (codes "object key is required")) else elim read_err [
      | some e ↦ failed (refused e)
      | none ↦ elim (lookup text_eq key bucket) [
        | none ↦ failed (refused object_not_found)
        | some o ↦ done o.payload
      ]
    ]

-- `CheckReady`, for what BucketExists answers.
unfoldable pub check_ready : (Text → Text) → Result Bool → ObjectRepo → Option Err
check_ready quoted exists r = elim exists [
  | failed e ↦ some (wrap (codes "check minio bucket: ") e)
  | done true ↦ none
  | done false ↦
      some (message (codes "minio bucket " ++ (quoted r.bucket ++ codes " does not exist")))
]
