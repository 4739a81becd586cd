-- ===== src/Producer/Pool/Finish.antt =====
-- The workers of service/producer.go after Close.
use log_forge.Prelude.{
  ℕ, zero, suc, ◌+◌, ◌-◌, ◌*◌, ◌<◌, ◌≤◌, ◌≡◌, ◌⊎◌, inl, inr, refl, ap, ◌∙◌, true, false, none, List,
  [], ◌∷◌, arith, length, Bool-cases, ◌==◌, ==_iff,
}
use log_forge.World.{World}
use log_forge.Producer.State.{Producer, Batch}
use log_forge.Producer.Publish.{Attempt, DlqAnswers}
use log_forge.Producer.Laws.Setup.{IsValid}
use log_forge.Producer.Laws.Frame.{frame, run_producer_round-frame}
use log_forge.Producer.Laws.Posts.{run_producer_round_takes}
use log_forge.Producer.Pool.{Pool, idle, finished, Step, receive, publish, leave, Reach, here, next}
use log_forge.Prelude.Weights.{weigh, weigh-cons, weigh-nil}
use log_forge.Producer.Pool.Drain.{stopped_empty}

List-cases : {A : Type 0} (l : List A) → (l ≡ []) ⊎ ((x : A) × (xs : List A) × (l ≡ x ∷ xs))
List-cases [] = inl refl
List-cases (x ∷ xs) = inr (x, xs, refl)

Reach-trans : {s t u : Pool} → Reach s t → Reach t u → Reach s u
Reach-trans r here = r
Reach-trans r (next q step) = next (Reach-trans r q) step

-- What is left to do for the workers: each batch in the buffer is received and finished, each one
-- with a worker is finished, and each worker leaves.
abbrev pub work_left : Pool → ℕ
work_left s = 2 * length s.producer.work_ch + length s.busy + s.producer.running

finished_takes :
    (env : ℕ → Attempt) (answers : DlqAnswers) (batch : Batch) (rest : List Batch) (s : Pool)
    → (env 1).result ≡ none
    → let t = finished 0 0 env answers batch rest s in
      (frame t.producer ≡ frame s.producer)
      × (t.busy ≡ rest)
      × (t.world.queued ≡ batch ∷ s.world.queued)
unfolding finished
finished_takes env answers batch rest s takes = (
  run_producer_round-frame 0 0 env answers batch s.producer s.world,
  refl,
  run_producer_round_takes 0 0 env answers batch s.producer s.world takes,
)

-- The pool after a worker has received a batch, or has left.
abbrev received : Batch → List Batch → Pool → Pool
received batch rest s = record s {
  producer = record (s.producer) { work_ch = rest };
  busy = batch ∷ s.busy;
}

abbrev left : Pool → Pool
left s = record s { producer = record (s.producer) { running = s.producer.running - 1 } }

-- What is left for the queue, and what it took.
abbrev held : (Batch → ℕ) → Pool → ℕ
held f s = weigh f s.producer.work_ch + weigh f s.busy + weigh f s.world.queued

-- A run of the workers of a closed pool to their end, at which the queue has taken everything.
abbrev Finishes : (Batch → ℕ) → Pool → Type 0
Finishes f s = (t : Pool) × Reach s t × (t.producer.running ≡ 0) × (held f t ≡ held f s)

step_on :
    (f : Batch → ℕ) (s t : Pool) → Step s t → held f t ≡ held f s → Finishes f t → Finishes f s
step_on f s t step same (u, run, still, all) =
    (u, Reach-trans (next here step) run, still, all ∙ same)

module _ (f : Batch → ℕ) (env : ℕ → Attempt) (answers : DlqAnswers)
    (takes : (env 1).result ≡ none) where
  finishes : (fuel : ℕ) (s : Pool) → s.producer.ch_closed ≡ true → work_left s ≤ fuel → Finishes f s
  finishes zero s shut le = (s, here, omega arith, refl)
  finishes (suc fuel) s shut le = elim (Bool-cases (s.producer.running == 0)) [
    | inl still ↦ (s, here, (==_iff s.producer.running 0).0 still, refl)
    | inr runs ↦ elim (List-cases s.busy) [
      | inr (batch, rest, at_work) ↦
          let t = finished 0 0 env answers batch rest s in
          let (same, busy, took) = finished_takes env answers batch rest s takes in
          let buffer = ap (λ x. x.0) same in
          let less : work_left t ≤ fuel =
            let crew = ap (λ x. x.1) same in
            let shorter = ap length buffer in
            let fewer = ap length busy in let before = ap length at_work in omega arith in
          let kept : held f t ≡ held f s = omega (
            arith,
            ap (weigh f) buffer,
            ap (weigh f) busy,
            ap (weigh f) took,
            ap (weigh f) at_work,
            weigh-cons f batch rest,
            weigh-cons f batch s.world.queued,
          ) in
          step_on f s t (publish 0 0 env answers [] batch rest at_work refl) kept
            (finishes fuel t (ap (λ x. x.3) same ∙ shut) less)
      | inl free ↦ elim (List-cases s.producer.work_ch) [
        | inr (batch, rest, front) ↦
            let t = received batch rest s in
            let before = ap length front in
            let none_busy = ap length free in
            let room : length s.busy < s.producer.running = ground arith in
            let kept : held f t ≡ held f s =
              omega
                (arith, ap (weigh f) front, weigh-cons f batch rest, weigh-cons f batch s.busy) in
            step_on f s t (receive batch rest front room refl) kept
              (finishes fuel t shut (omega arith))
        | inl empty ↦
            let t = left s in
            let none_busy = ap length free in
            let room : length s.busy < s.producer.running = ground arith in
            step_on f s t (leave shut empty room refl) refl (finishes fuel t shut (omega arith))
      ]
    ]
  ]

-- The wait in Close can end: from any pool that is reached from a valid producer that is not started,
-- with no worker and an empty buffer, and whose channel is closed, the workers can run to their end if
-- the queue takes each batch at the first attempt; then nothing is left in the buffer or with a
-- worker, and the queue has taken, besides what it had, exactly the batches that were in the buffer
-- or with a worker, counted as often (for every weight `f` of batches).
pub close_finishes :
    (f : Batch → ℕ) (env : ℕ → Attempt) (answers : DlqAnswers) (p : Producer) (w : World) {s : Pool}
    → (env 1).result ≡ none
    → IsValid p
    → p.started ≡ false
    → p.running ≡ 0
    → p.work_ch ≡ []
    → Reach (idle p w) s
    → s.producer.ch_closed ≡ true
    → (t : Pool) × Reach s t
      × (t.producer.running ≡ 0)
      × (t.producer.work_ch ≡ [])
      × (t.busy ≡ [])
      × (weigh f t.world.queued
          ≡ weigh f s.producer.work_ch + weigh f s.busy + weigh f s.world.queued)
close_finishes f env answers p w {s} takes v off still empty r shut =
    let (t, run, done, kept) = finishes f env answers takes (work_left s) s shut (omega arith) in
    let (drained, free) = stopped_empty p w v off still empty (Reach-trans r run) done in
    (
      t,
      run,
      done,
      drained,
      free,
      omega (arith, kept, ap (weigh f) drained, ap (weigh f) free, weigh-nil f),
    )
