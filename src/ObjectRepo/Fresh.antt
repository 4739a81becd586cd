-- ===== src/ObjectRepo/Fresh.antt =====
-- SaveBatch of repo/minio_repo.go writes under new keys only.
use log_forge.Prelude.{
  ℕ, ◌+◌, ◌%◌, ◌<◌, ◌≡◌, ◌≢◌, refl, ap, sym, ◌∙◌, false, some, none, List, [], ◌∷◌, ◌++◌, arith,
  if◌then◌else◌, is_empty, Bool-cases, inl, inr,
}
use log_forge.Prelude.Int.{two_64}
use mathlib.Core.List.{append-nil}
use log_forge.Text.{Text, codes, text_eq, decimal}
use log_forge.Text.Trim.{text_eq_iff}
use log_forge.Text.Decimal.{decimal_injective}
use log_forge.Dict.{lookup, insert}
use log_forge.Dict.Laws.{lookup-insert}
use log_forge.Aggregation.{trim_suffix}
use log_forge.Aggregation.Paths.{trim_suffix-append}
use log_forge.Slash.{split, path_join, clean}
use log_forge.Slash.Laws.{NoSlash, split-one}
use log_forge.Slash.Ends.{clean-EndsIn, path_join-EndsIn}
use log_forge.ObjectRepo.{ObjectRepo, StoredObject, Bucket, shard_file, new_shard_object_key}
use log_forge.ObjectRepo.Keys.{shard_file-Plain}

-- The last part of a key.
abbrev pub last_part : List Text → Text
last_part [] = []
last_part (part ∷ parts) = if is_empty parts then part else last_part parts

abbrev pub file_of : Text → Text
file_of key = last_part (split key)

last_part-append : (before : List Text) (x : Text) → last_part (before ++ (x ∷ [])) ≡ x
last_part-append [] x = refl
last_part-append (y ∷ []) x = refl
last_part-append (y ∷ (z ∷ before)) x = last_part-append (z ∷ before) x

path_join-one : (file : Text) → is_empty file ≡ false → path_join ([] ∷ (file ∷ [])) ≡ clean file
unfolding path_join
path_join-one file h = ground arith

key-file :
    (prefix writer_id : Text) (seq : ℕ)
    → NoSlash writer_id
    → file_of (path_join (prefix ∷ (shard_file writer_id seq ∷ []))) ≡ shard_file writer_id seq
key-file [] writer_id seq h =
    let file = shard_file writer_id seq in
    let plain = shard_file-Plain writer_id seq h in
    let ends = clean-EndsIn file file [] (plain, tt) ([], split-one file plain.0) in
    ap (λ k. last_part (split k)) (path_join-one file plain.1)
    ∙ ap last_part ends.1
    ∙ last_part-append ends.0 file
key-file (c ∷ prefix) writer_id seq h =
    let file = shard_file writer_id seq in
    let plain = shard_file-Plain writer_id seq h in
    let all =
      path_join-EndsIn (c ∷ prefix) [] file [] refl
        (split (c ∷ prefix), sym (append-nil (split (c ∷ prefix)))) tt (plain, tt) in
    ap last_part all.1 ∙ last_part-append all.0 file

cancel : (w s t : Text) → w ++ s ≡ w ++ t → s ≡ t
cancel [] s t h = h
cancel (c ∷ w) s t h = cancel w s t (ground arith)

shard_file_injective :
    (writer_id : Text) (m n : ℕ) → shard_file writer_id m ≡ shard_file writer_id n → m ≡ n
unfolding shard_file
shard_file_injective writer_id m n h =
    let dash =
      cancel writer_id (codes "-" ++ (decimal m ++ codes ".log.json"))
        (codes "-" ++ (decimal n ++ codes ".log.json")) h in
    let digits =
      cancel (codes "-") (decimal m ++ codes ".log.json") (decimal n ++ codes ".log.json") dash in
    let suffix = codes "log.json" in
    decimal_injective m n (
      sym (trim_suffix-append (decimal m) b'.' suffix)
      ∙ ap (trim_suffix (codes ".log.json")) digits
      ∙ trim_suffix-append (decimal n) b'.' suffix)

-- No object has a key whose file is one that this writer has still to name.
abbrev pub Unwritten : ObjectRepo → Bucket → Type 0
Unwritten r bucket =
    (key : Text) (n : ℕ)
    → r.object_seq < n
    → file_of key ≡ shard_file r.writer_id n
    → lookup text_eq key bucket ≡ none

-- Every object of a bucket is still there, as it was.
abbrev pub Keeps : Bucket → Bucket → Type 0
Keeps before after =
    (key : Text) (o : StoredObject)
    → lookup text_eq key before ≡ some o
    → lookup text_eq key after ≡ some o

none_not_some : (o : StoredObject) → none ≢ some o
none_not_some o h = ground arith

-- The repository after it has made a key.
abbrev pub next : ObjectRepo → ObjectRepo
next r = record r { object_seq = (r.object_seq + 1) % two_64 }

module _ (r : ObjectRepo) (plain : NoSlash r.writer_id) (room : r.object_seq + 1 < two_64)
    (bucket : Bucket) (unwritten : Unwritten r bucket) (prefix : Text) (o : StoredObject) where
  abbrev pub new_key : Text
  new_key = (new_shard_object_key prefix r).1

  pub next_seq : (next r).object_seq ≡ r.object_seq + 1
  next_seq = omega arith

  new_key-file : file_of new_key ≡ shard_file r.writer_id (r.object_seq + 1)
  unfolding new_shard_object_key
  new_key-file =
      ap (λ n. file_of (path_join (prefix ∷ (shard_file r.writer_id n ∷ [])))) next_seq
      ∙ key-file prefix r.writer_id (r.object_seq + 1) plain

  pub insert-Keeps : Keeps bucket (insert text_eq new_key o bucket)
  insert-Keeps key p h =
      let law = lookup-insert text_eq text_eq_iff new_key key o bucket in
      let free = unwritten new_key (r.object_seq + 1) (omega arith) new_key-file in
      elim (Bool-cases (text_eq new_key key)) [
        | inr other ↦ ground arith
        | inl same ↦
            let eq = (text_eq_iff new_key key).0 same in
            absurd (none_not_some p (sym free ∙ ap (λ k. lookup text_eq k bucket) eq ∙ h))
      ]

  pub insert-Unwritten : Unwritten (next r) (insert text_eq new_key o bucket)
  insert-Unwritten key n h e =
      let law = lookup-insert text_eq text_eq_iff new_key key o bucket in
      let seq = next_seq in
      elim (Bool-cases (text_eq new_key key)) [
        | inr other ↦ let before = unwritten key n (omega arith) e in ground arith
        | inl same ↦
            let eq = (text_eq_iff new_key key).0 same in
            let files = sym new_key-file ∙ ap file_of eq ∙ e in
            let seqs = shard_file_injective r.writer_id (r.object_seq + 1) n files in
            absurd (omega arith)
      ]
