-- ===== src/Profiling/Release.antt =====
-- What WithProfiling of util/profile.go leaves behind.
use log_forge.Prelude.{
  ◌≡◌, ◌≢◌, ◌⊎◌, inl, inr, refl, sym, ap, ◌∙◌, true, false, Option, none, some, List, ◌∷◌, arith,
  Option-cases,
}
use log_forge.Text.{Text, codes}
use log_forge.Text.Trim.{text_eq_refl}
use log_forge.Errors.{Err}
use log_forge.World.{World, log_line, info, warn}
use log_forge.Profiling.{
  Process, ProfileAnswers, open_file, remove_first, close_file, start_cpu_profile, stop_cpu,
  dump_heap, dump_goroutine, profile_path, run_action, with_profiling,
}

remove_first_head : (path : Text) (l : List Text) → remove_first path (path ∷ l) ≡ l
unfolding remove_first
remove_first_head path l = let same = text_eq_refl path in ground arith

-- The files that are open and the CPU profile are as before.
abbrev pub Keeps : Process → Process → Type 0
Keeps p q = (q.opened ≡ p.opened) × (q.cpu_running ≡ p.cpu_running)

dump_heap-Keeps :
    (a : ProfileAnswers) (path : Text) (p : Process) (w : World)
    → Keeps p (dump_heap a path p w).0 × ((dump_heap a path p w).1.metrics ≡ w.metrics)
unfolding dump_heap open_file close_file log_line
dump_heap-Keeps a path p w = let back = remove_first_head path p.opened in ground arith

dump_goroutine-Keeps :
    (a : ProfileAnswers) (path : Text) (p : Process) (w : World)
    → Keeps p (dump_goroutine a path p w).0 × ((dump_goroutine a path p w).1.metrics ≡ w.metrics)
unfolding dump_goroutine open_file close_file log_line
dump_goroutine-Keeps a path p w = let back = remove_first_head path p.opened in ground arith

start_cpu_profile-refused :
    (a : ProfileAnswers) (path : Text) (p : Process) (e : Err)
    → (start_cpu_profile a path p).1 ≡ some e
    → Keeps p (start_cpu_profile a path p).0
unfolding start_cpu_profile open_file close_file
start_cpu_profile-refused a path p e h = let back = remove_first_head path p.opened in ground arith

start_cpu_profile-started :
    (a : ProfileAnswers) (path : Text) (p : Process)
    → a.start_err true ≢ none
    → (start_cpu_profile a path p).1 ≡ none
    → ((start_cpu_profile a path p).0.opened ≡ path ∷ p.opened) × (p.cpu_running ≡ false)
unfolding start_cpu_profile open_file close_file
start_cpu_profile-started a path p busy h = ground arith

stop_cpu-Keeps :
    (path : Text) (p q : Process)
    → q.opened ≡ path ∷ p.opened
    → p.cpu_running ≡ false
    → Keeps p (stop_cpu path q)
unfolding stop_cpu close_file
stop_cpu-Keeps path p q h g = (ap (remove_first path) h ∙ remove_first_head path p.opened, sym g)

module _ (a : ProfileAnswers) (dir name : Text) (action : World → World × Option Err) where
  run_action-Keeps :
      (p : Process) (w : World)
      → Keeps p (run_action a dir name action p w).0
        × ((run_action a dir name action p w).1.metrics ≡ (action w).0.metrics)
        × ((run_action a dir name action p w).2 ≡ (action w).1)
  unfolding run_action log_line
  run_action-Keeps p w =
      let v = log_line info "profiling completed" (action w).0 in
      let heap = profile_path dir (codes "heap") name in
      let ((opened1, running1), metrics1) = dump_heap-Keeps a heap p v in
      let ((opened2, running2), metrics2) =
        dump_goroutine-Keeps a (profile_path dir (codes "goroutine") name) (dump_heap a heap p v).0
          (dump_heap a heap p v).1 in
      ((opened2 ∙ opened1, running2 ∙ running1), metrics2 ∙ metrics1, refl)

  -- The directory was refused and nothing was done, or the action ran in a world with the same counters,
  -- and its error and its counters are those of the call.
  abbrev pub RunsAction : World → World → Option Err → Type 0
  RunsAction w w' result =
      ((a.mkdir_err ≢ none) × (w' ≡ w) × (result ≢ none))
      ⊎ ((a.mkdir_err ≡ none)
          × ((v : World) × (v.metrics ≡ w.metrics)
              × (w'.metrics ≡ (action v).0.metrics)
              × (result ≡ (action v).1)))

  with_profiling-refused :
      (p : Process) (w : World) (e : Err)
      → a.mkdir_err ≡ none
      → (start_cpu_profile a (profile_path dir (codes "cpu") name) p).1 ≡ some e
      → with_profiling a dir name action p w
        ≡ run_action a dir name action
            (start_cpu_profile a (profile_path dir (codes "cpu") name) p).0
            (log_line warn "cpu profiling disabled" w)
  unfolding with_profiling
  with_profiling-refused p w e made h = ground arith

  with_profiling-started :
      (p : Process) (w : World)
      → a.mkdir_err ≡ none
      → (start_cpu_profile a (profile_path dir (codes "cpu") name) p).1 ≡ none
      → let cpu = profile_path dir (codes "cpu") name in
        let r = run_action a dir name action (start_cpu_profile a cpu p).0 w in
        with_profiling a dir name action p w ≡ (stop_cpu cpu r.0, r.1, r.2)
  unfolding with_profiling
  with_profiling-started p w made h = ground arith

  with_profiling-undone :
      (p : Process) (w : World) (e : Err)
      → a.mkdir_err ≡ some e
      → ((with_profiling a dir name action p w).0 ≡ p)
        × ((with_profiling a dir name action p w).1 ≡ w)
        × ((with_profiling a dir name action p w).2 ≢ none)
  unfolding with_profiling
  with_profiling-undone p w e h = ground arith

  -- Around an action that opens no file and takes no profile itself, WithProfiling leaves the files open
  -- that were open before, and a CPU profile running exactly if one was, whatever fails, provided that
  -- StartCPUProfile refuses while a profile is being taken. It fails
  -- without having done anything if the directory cannot be made; otherwise the action runs, in a world
  -- with the same counters, and the call has its error and its counters: no failure of profiling stops
  -- the action or hides what it returns.
  pub with_profiling_releases :
      a.start_err true ≢ none
      → (p : Process) (w : World)
      → Keeps p (with_profiling a dir name action p w).0
        × RunsAction w
            (with_profiling a dir name action p w).1
            (with_profiling a dir name action p w).2
  unfolding log_line
  with_profiling_releases busy p w = elim (Option-cases a.mkdir_err) [
    | inr (e, h) ↦
        let (same, still, fails) = with_profiling-undone p w e h in
        ((ap (λ q. q.opened) same, ap (λ q. q.cpu_running) same), inl (cc, still, fails))
    | inl made ↦
        let cpu = profile_path dir (codes "cpu") name in
        let q = (start_cpu_profile a cpu p).0 in
        elim (Option-cases (start_cpu_profile a cpu p).1) [
          | inr (e, h) ↦
              let v = log_line warn "cpu profiling disabled" w in
              let (opened, running) = start_cpu_profile-refused a cpu p e h in
              let ((opened1, running1), counters, result) = run_action-Keeps q v in
              rw (with_profiling-refused p w e made h)
                ((opened1 ∙ opened, running1 ∙ running), inr (made, (v, refl, counters, result)))
          | inl h ↦
              let (opened, off) = start_cpu_profile-started a cpu p busy h in
              let ((opened1, running1), counters, result) = run_action-Keeps q w in
              rw (with_profiling-started p w made h) (
                stop_cpu-Keeps cpu p (run_action a dir name action q w).0 (opened1 ∙ opened) off,
                inr (made, (w, refl, counters, result)),
              )
        ]
  ]
