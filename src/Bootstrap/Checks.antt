-- ===== src/Bootstrap/Checks.antt =====
-- cmd/bootstrap/app.go: checkWritableDir and runReadinessChecks.
use log_forge.Prelude.{Option, some, none, List, [], ◌∷◌, ◌++◌, if◌then◌else◌, is_empty}
use log_forge.Text.{Text, codes, trim_space}
use log_forge.Errors.{Err, message, wrap}

pub data Stat : Type 0 where
  a_directory a_file missing : Stat
  unknown : Err → Stat

-- What the file system answers in `checkWritableDir`, for a path.
pub record DirAnswers : Type 0 where
  pub stat : Stat
  pub mkdir_err : Option Err
  pub create_err : Option Err
  pub close_err : Option Err
  pub remove_err : Option Err
  pub temp_path : Text
  -- `%q`.
  pub quoted : Text → Text

-- The part of `checkWritableDir` that writes and removes a file.
unfoldable pub try_directory : DirAnswers → Text → Option Err
try_directory a path = elim a.mkdir_err [
  | some e ↦ some (wrap (codes "ensure storage directory " ++ (a.quoted path ++ codes ": ")) e)
  | none ↦ elim a.create_err [
    | some e ↦ some (wrap (codes "create temp file in " ++ (a.quoted path ++ codes ": ")) e)
    | none ↦ elim a.close_err [
      | some e ↦ some (wrap (codes "close temp file in " ++ (a.quoted path ++ codes ": ")) e)
      | none ↦ elim a.remove_err [
        | some e ↦ some (wrap (codes "remove temp file " ++ (a.quoted a.temp_path ++ codes ": ")) e)
        | none ↦ none
      ]
    ]
  ]
]

-- `checkWritableDir`.
unfoldable pub check_writable_dir : DirAnswers → Text → Option Err
unfolding try_directory trim_space
check_writable_dir a path =
    let trimmed = trim_space path in
    if is_empty trimmed then some (message (codes "storage path is empty")) else elim a.stat [
      | a_directory ↦ try_directory a trimmed
      | missing ↦ try_directory a trimmed
      | a_file ↦
          some
            (message (codes "storage path " ++ (a.quoted trimmed ++ codes " is not a directory")))
      | unknown e ↦ some (wrap (codes "stat storage path " ++ (a.quoted trimmed ++ codes ": ")) e)
    ]

-- `runReadinessChecks`; the checks may change a state, and an absent one is a nil function.
unfoldable pub run_readiness_checks :
    {S : Type 0} → List (Option (S → S × Option Err)) → S → S × Option Err
run_readiness_checks [] s = (s, none)
run_readiness_checks (none ∷ checks) s = run_readiness_checks checks s
run_readiness_checks (some check ∷ checks) s =
    let r = check s in elim r.1 [ some e ↦ (r.0, some e) | none ↦ run_readiness_checks checks r.0 ]
