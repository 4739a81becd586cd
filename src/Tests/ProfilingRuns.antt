-- ===== src/Tests/ProfilingRuns.antt =====
-- Runs of util/profile.go and util/env.go.
use log_forge.Prelude.{◌≡◌, refl, true, false, Option, none, some, [], ◌∷◌, if◌then◌else◌}
use log_forge.Text.{Text, codes, text_eq, trim_space}
use log_forge.Errors.{Err, message}
use log_forge.World.{World, inc_aggregation_runs}
use log_forge.Slash.{path_join}
use log_forge.Profiling.{
  parse_bool, one_of, start_cpu_profile, stop_cpu, close_file, profile_path, run_action,
  dump_goroutine, open_file, dump_heap, Process, ProfileAnswers, get_env, parse_bool_env,
  profile_enabled, capture_profiles, with_profiling,
}
use log_forge.Profiling.Release.{Keeps, RunsAction, with_profiling_releases}
use log_forge.Tests.Samples.{empty_world}

abbrev settings : Text → Text
settings key = if text_eq key (codes "PROFILE_ENABLED") then codes " true " else codes "maybe"

enabled : profile_enabled settings ≡ true
unfolding profile_enabled parse_bool_env trim_space text_eq parse_bool one_of
enabled = refl

not_captured : capture_profiles settings ≡ false
unfolding capture_profiles parse_bool_env trim_space text_eq parse_bool one_of
not_captured = refl

fallback_used : get_env (λ key. codes "  ") (codes "PROFILE_ADDR") (codes ":6060") ≡ codes ":6060"
unfolding get_env trim_space
fallback_used = refl

-- StartCPUProfile refuses while a profile is being taken; the heap cannot be written.
abbrev heap_refused : ProfileAnswers
heap_refused = record {
  mkdir_err = none;
  create_err = λ path. none;
  start_err =
      λ running. if running then some (message (codes "cpu profiling already in use")) else none;
  heap_err = some (message (codes "disk full"));
  has_goroutine_profile = true;
  goroutine_err = none;
}

abbrev idle_process : Process
idle_process = record { cpu_running = false; opened = codes "app.log" ∷ []; saved = [] }

-- It counts a run and fails.
abbrev failing_action : World → World × Option Err
failing_action w = (inc_aggregation_runs w, some (message (codes "shutdown")))

action_fails :
    (with_profiling heap_refused
      (codes "profiles")
      (codes "app")
      failing_action
      idle_process
      empty_world).2
    ≡ some (message (codes "shutdown"))
unfolding with_profiling start_cpu_profile run_action
action_fails = refl

saved_two :
    (with_profiling heap_refused
      (codes "profiles")
      (codes "app")
      failing_action
      idle_process
      empty_world).0.saved
    ≡ codes "profiles/cpu_app.prof" ∷ codes "profiles/goroutine_app.prof" ∷ []
unfolding with_profiling start_cpu_profile stop_cpu close_file profile_path run_action path_join
    dump_goroutine open_file dump_heap
saved_two = refl

with_profiling_releases_example :
    Keeps idle_process
      (with_profiling heap_refused
        (codes "profiles")
        (codes "app")
        failing_action
        idle_process
        empty_world).0
    × RunsAction heap_refused
        (codes "profiles")
        (codes "app")
        failing_action
        empty_world
        (with_profiling heap_refused
          (codes "profiles")
          (codes "app")
          failing_action
          idle_process
          empty_world).1
        (with_profiling heap_refused
          (codes "profiles")
          (codes "app")
          failing_action
          idle_process
          empty_world).2
with_profiling_releases_example =
    with_profiling_releases heap_refused (codes "profiles") (codes "app") failing_action (λ e. cc)
      idle_process empty_world
