-- ===== src/ObjectRepo/Writers.antt =====
-- What NewMinIORepo of repo/minio_repo.go makes.
use log_forge.Prelude.{
  ℕ, ◌≡◌, refl, ap, sym, ◌∙◌, Bool, true, false, ◌&&◌, List, [], ◌∷◌, ◌++◌, ◌==◌, arith,
  if◌then◌else◌, is_empty, map, All, All-append, All-map, Bool-cases, Option-cases, inl, inr,
}
use mathlib.Core.Path.{subst}
use log_forge.Text.{Text, codes, trim, trim_left, trim_right, trim_space, decimal}
use log_forge.Errors.{Err, message, done, failed}
use log_forge.Errors.Cases.{done_injective, done_not_failed}
use log_forge.Slash.Laws.{NoSlash}
use log_forge.ObjectRepo.{ObjectRepo}
use log_forge.ObjectRepo.Options.{
  ObjectRepoOptions, OptionAnswers, is_writer_rune, writer_rune, is_dash, sanitize_writer_id,
  first_writer_id, default_writer_id, open_client, new_object_repo,
}
use log_forge.ObjectRepo.Keys.{IsValid, decimal-NoSlash}

module _ (P : ℕ → Type 0) (p : ℕ → Bool) where
  trim_left-All : (s : Text) → All P s → All P (trim_left p s)
  unfolding trim_left
  trim_left-All [] h = tt
  trim_left-All (c ∷ s) h = elim (Bool-cases (p c)) [
    | inl e ↦
        let eq : trim_left p (c ∷ s) ≡ trim_left p s = ground arith in
        subst (All P) (sym eq) (trim_left-All s h.1)
    | inr e ↦ let eq : trim_left p (c ∷ s) ≡ c ∷ s = ground arith in subst (All P) (sym eq) h
  ]

  trim_right-All : (s : Text) → All P s → All P (trim_right p s)
  unfolding trim_right
  trim_right-All [] h = tt
  trim_right-All (c ∷ s) h = elim (Bool-cases (is_empty (trim_right p s) && p c)) [
    | inl e ↦ let eq : trim_right p (c ∷ s) ≡ [] = ground arith in subst (All P) (sym eq) tt
    | inr e ↦
        let eq : trim_right p (c ∷ s) ≡ c ∷ trim_right p s = ground arith in
        subst (All P) (sym eq) (h.0, trim_right-All s h.1)
  ]

  trim-All : (s : Text) → All P s → All P (trim p s)
  unfolding trim
  trim-All s h = trim_right-All (trim_left p s) (trim_left-All s h)

-- The characters of a sanitized identifier.
abbrev pub IsWriterText : Text → Type 0
IsWriterText = All (λ c. is_writer_rune c ≡ true)

writer_rune-kept : (c : ℕ) → is_writer_rune (writer_rune c) ≡ true
unfolding writer_rune is_writer_rune
writer_rune-kept c = ground arith

map-writer_rune : (s : Text) → IsWriterText (map writer_rune s)
map-writer_rune [] = tt
map-writer_rune (c ∷ s) = (writer_rune-kept c, map-writer_rune s)

pub sanitize_writer_id-IsWriterText : (value : Text) → IsWriterText (sanitize_writer_id value)
unfolding sanitize_writer_id
sanitize_writer_id-IsWriterText value = elim (Bool-cases (is_empty (trim_space value))) [
  | inl e ↦ let eq : sanitize_writer_id value ≡ [] = ground arith in subst IsWriterText (sym eq) tt
  | inr e ↦
      let eq : sanitize_writer_id value ≡ trim is_dash (map writer_rune (trim_space value)) =
        ground arith in
      subst IsWriterText (sym eq) (
        trim-All (λ c. is_writer_rune c ≡ true) is_dash (map writer_rune (trim_space value))
          (map-writer_rune (trim_space value)))
]

-- An identifier that a writer can have.
abbrev IsWriterId : Text → Type 0
IsWriterId id = IsWriterText id × (is_empty id ≡ false)

first_writer_id-IsWriterId :
    (candidates : List Text) (otherwise : Text)
    → IsWriterId otherwise
    → IsWriterId (first_writer_id candidates otherwise)
unfolding first_writer_id
first_writer_id-IsWriterId [] otherwise h = h
first_writer_id-IsWriterId (c ∷ candidates) otherwise h =
    let rest = first_writer_id-IsWriterId candidates otherwise h in
    elim (Bool-cases (is_empty (sanitize_writer_id c))) [
      | inl e ↦
          let eq : first_writer_id (c ∷ candidates) otherwise
              ≡ first_writer_id candidates otherwise =
            ground arith in
          subst IsWriterId (sym eq) rest
      | inr e ↦
          let eq : first_writer_id (c ∷ candidates) otherwise ≡ sanitize_writer_id c =
            ground arith in
          subst IsWriterId (sym eq) (sanitize_writer_id-IsWriterText c, e)
    ]

default_writer_id-IsWriterId : (a : OptionAnswers) → IsWriterId (default_writer_id a)
unfolding default_writer_id is_writer_rune
default_writer_id-IsWriterId a =
    let host : List Text = elim a.hostname [ done host ↦ host ∷ [] | failed e ↦ [] ] in
    first_writer_id-IsWriterId (a.writer_variable ∷ (a.pod_name ∷ (a.hostname_variable ∷ host)))
      (codes "writer") ((refl, (refl, (refl, (refl, (refl, (refl, tt)))))), refl)

rune_not_slash : (c : ℕ) → is_writer_rune c ≡ true → (c == b'/') ≡ false
unfolding is_writer_rune
rune_not_slash c h = ground arith

writer_text-NoSlash : (s : Text) → IsWriterText s → NoSlash s
writer_text-NoSlash s h =
    All-map (λ c. is_writer_rune c ≡ true) (λ c. (c == b'/') ≡ false) s rune_not_slash h

-- The fields of a repository that NewMinIORepo returns.
abbrev base_of : OptionAnswers → ObjectRepoOptions → Text
base_of a o =
    if is_empty (sanitize_writer_id o.writer_id)
    then default_writer_id a
    else sanitize_writer_id o.writer_id

base_of-NoSlash : (a : OptionAnswers) (o : ObjectRepoOptions) → NoSlash (base_of a o)
base_of-NoSlash a o = elim (Bool-cases (is_empty (sanitize_writer_id o.writer_id))) [
  | inl e ↦
      let eq : base_of a o ≡ default_writer_id a = ground arith in
      subst NoSlash (sym eq)
        (writer_text-NoSlash (default_writer_id a) (default_writer_id-IsWriterId a).0)
  | inr e ↦
      let id = sanitize_writer_id o.writer_id in
      let eq : base_of a o ≡ id = ground arith in
      subst NoSlash (sym eq) (writer_text-NoSlash id (sanitize_writer_id-IsWriterText o.writer_id))
]

abbrev trimmed_prefix : ObjectRepoOptions → Text
trimmed_prefix o = trim (λ c. c == b'/') (trim_space o.logs_prefix)

abbrev made : OptionAnswers → ObjectRepoOptions → ObjectRepo
made a o = record {
  bucket = trim_space o.bucket;
  logs_prefix = if is_empty (trimmed_prefix o) then codes "logs" else trimmed_prefix o;
  writer_id =
      base_of a o ++ (codes "-" ++ (decimal a.process_id ++ (codes "-" ++ decimal a.now_ns)));
  object_seq = 0;
}

made-IsValid : (a : OptionAnswers) (o : ObjectRepoOptions) → IsValid (made a o)
made-IsValid a o =
    let NotSlash = λ (c : ℕ). (c == b'/') ≡ false in
    let clock : NoSlash (codes "-" ++ decimal a.now_ns) = (refl, decimal-NoSlash a.now_ns) in
    let process : NoSlash (codes "-" ++ (decimal a.process_id ++ (codes "-" ++ decimal a.now_ns))) =
      (
        refl,
        All-append NotSlash (decimal a.process_id) (codes "-" ++ decimal a.now_ns)
            (decimal-NoSlash a.process_id) clock,
      ) in
    record {
      has_prefix = elim (Bool-cases (is_empty (trimmed_prefix o))) [
        | inl e ↦ ground arith
        | inr e ↦ ground arith
      ];
      plain_writer =
          All-append NotSlash (base_of a o)
            (codes "-" ++ (decimal a.process_id ++ (codes "-" ++ decimal a.now_ns)))
            (base_of-NoSlash a o) process;
    }

new_object_repo-made :
    (a : OptionAnswers) (o : ObjectRepoOptions) (r : ObjectRepo)
    → new_object_repo a o ≡ done r
    → made a o ≡ r
unfolding new_object_repo
new_object_repo-made a o r h = elim (Bool-cases (is_empty (trim_space o.bucket))) [
  | inl e ↦
      let eq : (err : Err) × (new_object_repo a o ≡ failed err) =
        (message (codes "minio bucket is required"), ground arith) in
      absurd (done_not_failed r eq.0 (sym eq.1 ∙ h))
  | inr e ↦ elim (Option-cases (open_client a o)) [
    | inr (err, f) ↦
        let eq : new_object_repo a o ≡ failed err = ground arith in
        absurd (done_not_failed r err (sym eq ∙ h))
    | inl f ↦
        let eq : new_object_repo a o ≡ done (made a o) = ground arith in
        done_injective (made a o) r (sym eq ∙ h)
  ]
]

-- Every repository that NewMinIORepo returns has a prefix and an identifier without slashes, and
-- counts from zero.
pub new_object_repo-IsValid :
    (a : OptionAnswers) (o : ObjectRepoOptions) (r : ObjectRepo)
    → new_object_repo a o ≡ done r
    → IsValid r × (r.object_seq ≡ 0)
new_object_repo-IsValid a o r h =
    let eq = new_object_repo-made a o r h in
    (subst IsValid eq (made-IsValid a o), ap (λ r. r.object_seq) (sym eq))
