-- ===== src/Profiling.antt =====
-- util/profile.go and util/env.go: the switches of the profiles, and WithProfiling. The environment is
-- a function of names; what the file system and runtime/pprof answer is an argument. The profiling
-- server of MaybeStartPprof is left out.
pub mod Release
use log_forge.Prelude.{
  Bool, true, false, Option, none, some, List, [], ◌∷◌, ◌++◌, ◌||◌, if◌then◌else◌, is_empty,
}
use log_forge.Text.{Text, codes, text_eq, trim_space}
use log_forge.Errors.{Err, wrap}
use log_forge.World.{World, info, warn, error, log_line}
use log_forge.Slash.{path_join}

-- `GetEnv`.
unfoldable pub get_env : (Text → Text) → Text → Text → Text
get_env env key fallback = let val = trim_space (env key) in if is_empty val then fallback else val

-- One of the texts.
unfoldable pub one_of : Text → List Text → Bool
one_of s [] = false
one_of s (t ∷ l) = text_eq s t || one_of s l

abbrev pub yes_words : List Text
yes_words = codes "1" ∷ codes "t" ∷ codes "T" ∷ codes "TRUE" ∷ codes "true" ∷ codes "True" ∷ []

abbrev pub no_words : List Text
no_words = codes "0" ∷ codes "f" ∷ codes "F" ∷ codes "FALSE" ∷ codes "false" ∷ codes "False" ∷ []

-- `strconv.ParseBool`.
unfoldable pub parse_bool : Text → Option Bool
parse_bool s =
    if one_of s yes_words then some true else if one_of s no_words then some false else none

-- `parseBoolEnv`.
unfoldable pub parse_bool_env : (Text → Text) → Text → Bool
parse_bool_env env key =
    let val = trim_space (env key) in
    if is_empty val then false else elim (parse_bool val) [ none ↦ false | some b ↦ b ]

unfoldable pub profile_enabled : (Text → Text) → Bool
profile_enabled env = parse_bool_env env (codes "PROFILE_ENABLED")

unfoldable pub capture_profiles : (Text → Text) → Bool
capture_profiles env = parse_bool_env env (codes "PROFILE_CAPTURE")

-- Of the process: whether a CPU profile is being taken, the files that are open, and the profiles that
-- are written, both newest first.
pub record Process : Type 0 where
  pub cpu_running : Bool
  pub opened : List Text
  pub saved : List Text

-- What the calls answer. `start_err` is StartCPUProfile, which sees whether a profile is being taken.
pub record ProfileAnswers : Type 0 where
  pub mkdir_err : Option Err
  pub create_err : Text → Option Err
  pub start_err : Bool → Option Err
  pub heap_err : Option Err
  pub has_goroutine_profile : Bool
  pub goroutine_err : Option Err

-- `os.Create` where it succeeds.
unfoldable pub open_file : Text → Process → Process
open_file path p = record p { opened = path ∷ p.opened }

unfoldable pub remove_first : Text → List Text → List Text
remove_first path [] = []
remove_first path (q ∷ l) = let rest = remove_first path l in if text_eq path q then l else q ∷ rest

-- `f.Close`.
unfoldable pub close_file : Text → Process → Process
close_file path p = record p { opened = remove_first path p.opened }

-- `startCPUProfile`.
unfoldable pub start_cpu_profile : ProfileAnswers → Text → Process → Process × Option Err
start_cpu_profile a path p = elim (a.create_err path) [
  | some e ↦ (p, some e)
  | none ↦
      let q = open_file path p in
      elim (a.start_err p.cpu_running) [
        | some e ↦ (close_file path q, some e)
        | none ↦ (record q { cpu_running = true }, none)
      ]
]

-- The function that `startCPUProfile` gives back.
unfoldable pub stop_cpu : Text → Process → Process
stop_cpu path p = close_file path (record p { cpu_running = false; saved = path ∷ p.saved })

-- `dumpHeap`.
unfoldable pub dump_heap : ProfileAnswers → Text → Process → World → Process × World
dump_heap a path p w = elim (a.create_err path) [
  | some e ↦ (p, log_line error "cannot create heap profile" w)
  | none ↦
      let q = open_file path p in
      elim a.heap_err [
        | some e ↦ (close_file path q, log_line error "failed to write heap profile" w)
        | none ↦ (close_file path (record q { saved = path ∷ q.saved }), w)
      ]
]

-- `dumpGoroutine`.
unfoldable pub dump_goroutine : ProfileAnswers → Text → Process → World → Process × World
dump_goroutine a path p w = elim (a.create_err path) [
  | some e ↦ (p, log_line error "cannot create goroutine profile" w)
  | none ↦
      let q = open_file path p in
      if a.has_goroutine_profile
      then elim a.goroutine_err [
        | some e ↦ (close_file path q, log_line error "failed to write goroutine profile" w)
        | none ↦ (close_file path (record q { saved = path ∷ q.saved }), w)
      ]
      else (close_file path q, log_line warn "goroutine profile lookup returned nil" w)
]

-- The file of a profile.
unfoldable pub profile_path : Text → Text → Text → Text
profile_path dir kind name = path_join (dir ∷ (kind ++ codes "_" ++ name ++ codes ".prof") ∷ [])

-- `WithProfiling` from the action on, up to its deferred call.
unfoldable pub run_action :
    ProfileAnswers
    → Text
    → Text
    → (World → World × Option Err)
    → Process
    → World
    → Process × World × Option Err
run_action a dir name action p w =
    let (w1, err) = action w in
    let (q, w2) =
      dump_heap a (profile_path dir (codes "heap") name) p
        (log_line info "profiling completed" w1) in
    let (r, w3) = dump_goroutine a (profile_path dir (codes "goroutine") name) q w2 in (r, w3, err)

-- `WithProfiling`. The action opens no file and takes no profile itself.
unfoldable pub with_profiling :
    ProfileAnswers
    → Text
    → Text
    → (World → World × Option Err)
    → Process
    → World
    → Process × World × Option Err
with_profiling a dir name action p w = elim a.mkdir_err [
  | some e ↦ (p, w, some (wrap (codes "create profiling dir: ") e))
  | none ↦
      let cpu = profile_path dir (codes "cpu") name in
      let (q, err) = start_cpu_profile a cpu p in
      elim err [
        | some e ↦ run_action a dir name action q (log_line warn "cpu profiling disabled" w)
        | none ↦
            let (r, w1, result) = run_action a dir name action q w in (stop_cpu cpu r, w1, result)
      ]
]
