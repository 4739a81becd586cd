-- ===== src/Producer/Laws/Delivery.antt =====
-- When tryEnqueueWithRetry of service/producer.go delivers a batch, and what it leaves behind.
use log_forge.Prelude.{
  ℕ, zero, suc, ◌+◌, ◌<◌, ◌≡◌, ◌≢◌, ◌↔◌, refl, sym, ◌∙◌, true, none, arith, Option-cases, inl, inr,
  ◌==◌,
}
use native.Mathlib.Nat.{add-zero}
use log_forge.Prelude.Int.{ℤ}
use log_forge.Text.{codes}
use log_forge.Errors.{message, Err}
use log_forge.World.{World}
use log_forge.Producer.State.{Producer, Batch}
use log_forge.Producer.Circuit.{on_enqueue_failure}
use log_forge.Producer.Publish.{
  Attempt, max_attempts, after_failure, try_loop, try_enqueue_with_retry,
}
use log_forge.Producer.Laws.Rounds.{
  round_success, round_stop, round_again, after_failure_last, after_failure_more,
}

-- One of the `n` attempts from `a` on succeeds, and before each earlier one the queue refused the
-- batch and the wait was not cut short.
abbrev pub Succeeds : (ℕ → Attempt) → ℕ → ℕ → Type 0
Succeeds env a n =
    (k : ℕ) × (k < n)
    × ((env (a + k)).result ≡ none)
    × ((j : ℕ) → j < k → ((env (a + j)).result ≢ none) × ((env (a + j)).ctx_done ≡ none))

Succeeds-zero : (env : ℕ → Attempt) (a : ℕ) → ¬ Succeeds env a 0
Succeeds-zero env a s = omega arith

-- A success now.
Succeeds-here : (env : ℕ → Attempt) (a n : ℕ) → (env a).result ≡ none → Succeeds env a (suc n)
Succeeds-here env a n h = (0, omega arith, rw add-zero h, λ j lt. absurd (omega arith))

-- A success later.
Succeeds-later :
    (env : ℕ → Attempt) (a n : ℕ)
    → (env a).result ≢ none
    → (env a).ctx_done ≡ none
    → Succeeds env (a + 1) n
    → Succeeds env a (suc n)
Succeeds-later env a n failed waited (k, lt, success, before) =
    (suc k, omega arith, rw shift at success, earlier)
  where
    shift : a + 1 + k ≡ a + suc k
    shift = omega arith

    earlier : (j : ℕ) → j < suc k → ((env (a + j)).result ≢ none) × ((env (a + j)).ctx_done ≡ none)
    earlier zero h = rw add-zero (failed, waited)
    earlier (suc j) h =
        rw (let e : a + suc j ≡ a + 1 + j = omega arith in e) (before j (omega arith))

-- The converse, at an attempt that fails.
Succeeds-next :
    (env : ℕ → Attempt) (a n : ℕ)
    → (env a).result ≢ none
    → Succeeds env a (suc n)
    → ((env a).ctx_done ≡ none) × Succeeds env (a + 1) n
Succeeds-next env a n failed (zero, lt, success, before) = absurd (failed (rw add-zero at success))
Succeeds-next env a n failed (suc k, lt, success, before) = (
  rw add-zero at ((before 0 (omega arith)).1),
  (
    k,
    omega arith,
    rw (let e : a + 1 + k ≡ a + suc k = omega arith in e) success,
    λ j h. rw (let e : a + 1 + j ≡ a + suc j = omega arith in e) (before (suc j) (omega arith)),
  ),
)

try_loop_iff :
    (env : ℕ → Attempt) (batch : Batch) (a n : ℕ) (l : Err) (p : Producer) (w : World)
    → ((try_loop env batch a n l p w).2 ≡ none) ↔ Succeeds env a n
unfolding try_loop
try_loop_iff env batch a zero l p w = (λ h. cc, λ s. absurd (Succeeds-zero env a s))
try_loop_iff env batch a (suc zero) l p w = elim (Option-cases (env a).result) [
  | inl done ↦
      rw (round_success env batch a 0 l p w done) (λ _. Succeeds-here env a 0 done, λ _. refl)
  | inr (e, failed) ↦
      rw (round_stop env batch a 0 l p w e e failed (after_failure_last (env a) e p w))
        (λ h. cc, λ s. absurd (Succeeds-zero env (a + 1) (Succeeds-next env a 0 (λ q. cc) s).1))
]
try_loop_iff env batch a (suc (suc n)) l p w = elim (Option-cases (env a).result) [
  | inl done ↦
      rw (round_success env batch a (suc n) l p w done)
        (λ _. Succeeds-here env a (suc n) done, λ _. refl)
  | inr (e, failed) ↦ elim (Option-cases (env a).ctx_done) [
    | inr (x, stop) ↦
        rw
          (round_stop env batch a (suc n) l p w e x failed
            (after_failure_more (env a) e n p w ∙ stop))
          (λ h. cc, λ s. cc ((Succeeds-next env a (suc n) (λ q. cc) s).0))
    | inl waited ↦
        let r = after_failure (env a) e (suc n == 0) p w in
        let ih = try_loop_iff env batch (a + 1) (suc n) e r.0 r.1 in
        rw
          (round_again env batch a (suc n) l p w e failed
            (after_failure_more (env a) e n p w ∙ waited))
          (
            λ h. Succeeds-later env a (suc n) (λ q. cc) waited (ih.0 h),
            λ s. ih.1 ((Succeeds-next env a (suc n) (λ q. cc) s).1),
          )
  ]
]

-- Publishing returns no error exactly when one of the first `max_attempts` attempts succeeds, each
-- earlier one failed, and no wait between them was cut short by the context.
pub try_enqueue_delivers_iff :
    (env : ℕ → Attempt) (batch : Batch) (p : Producer) (w : World)
    → ((try_enqueue_with_retry env batch p w).2 ≡ none) ↔ Succeeds env 1 (max_attempts p)
unfolding try_enqueue_with_retry
try_enqueue_delivers_iff env batch p w = try_loop_iff env batch 1 (max_attempts p) _ p w

-- Every one of the `n` attempts from `a` on fails, and no wait between them is cut short.
abbrev pub AllFail : (ℕ → Attempt) → ℕ → ℕ → Type 0
AllFail env a zero = Unit
AllFail env a (suc zero) = ((env a).result ≢ none)
AllFail env a (suc (suc n)) =
    ((env a).result ≢ none) × ((env a).ctx_done ≡ none) × AllFail env (a + 1) (suc n)

-- The state of the circuit breaker.
abbrev pub breaker : Producer → ℤ × ℕ
breaker p = (p.consecutive_failures, p.circuit_open_until_ns)

abbrev pub ingest_errors : World → ℕ
ingest_errors w = w.metrics.ingest_errors

failed_last :
    (a : Attempt) (e : Err) (p : Producer) (w v : World)
    → let r = after_failure a e true p w in
      (breaker r.0 ≡ breaker (on_enqueue_failure a.failure_now p v).0)
      × (ingest_errors r.1 ≡ ingest_errors w + 1)
unfolding after_failure
failed_last a e p w v = (ground arith, ground arith)

failed_more :
    (a : Attempt) (e : Err) (n : ℕ) (p : Producer) (w : World)
    → let r = after_failure a e (suc n == 0) p w in
      (breaker r.0 ≡ breaker p)
      × (r.0.circuit_failure_threshold ≡ p.circuit_failure_threshold)
      × (r.0.circuit_cooldown ≡ p.circuit_cooldown)
      × (ingest_errors r.1 ≡ ingest_errors w + 1)
unfolding after_failure
failed_more a e n p w = (ground arith, ground arith, ground arith, ground arith)

breaker_same :
    (now : ℕ) (p q : Producer) (v w : World)
    → breaker q ≡ breaker p
    → q.circuit_failure_threshold ≡ p.circuit_failure_threshold
    → q.circuit_cooldown ≡ p.circuit_cooldown
    → breaker (on_enqueue_failure now q v).0 ≡ breaker (on_enqueue_failure now p w).0
unfolding on_enqueue_failure
breaker_same now p q v w b t c = ground arith

-- What a run of failures does to the breaker and the metrics.
try_loop_exhausted :
    (env : ℕ → Attempt) (batch : Batch) (a n : ℕ) (l : Err) (p : Producer) (w : World)
    → AllFail env a (suc n)
    → let r = try_loop env batch a (suc n) l p w in
      (r.2 ≡ (env (a + n)).result)
      × (breaker r.0 ≡ breaker (on_enqueue_failure (env (a + n)).failure_now p w).0)
      × (ingest_errors r.1 ≡ ingest_errors w + suc n)
unfolding try_loop
try_loop_exhausted env batch a zero l p w all = elim (Option-cases (env a).result) [
  | inl done ↦ absurd (all done)
  | inr (e, failed) ↦
      rw (round_stop env batch a 0 l p w e e failed (after_failure_last (env a) e p w), add-zero)
        (sym failed, (failed_last (env a) e p w w).0, (failed_last (env a) e p w w).1 ∙ omega arith)
]
try_loop_exhausted env batch a (suc n) l p w all = elim (Option-cases (env a).result) [
  | inl done ↦ absurd (all.0 done)
  | inr (e, failed) ↦
      let r = after_failure (env a) e (suc n == 0) p w in
      let m = failed_more (env a) e n p w in
      let ih = try_loop_exhausted env batch (a + 1) n e r.0 r.1 all.2 in
      let shift : a + suc n ≡ a + 1 + n = omega arith in
      rw
        (
          round_again env batch a (suc n) l p w e failed
              (after_failure_more (env a) e n p w ∙ all.1),
          shift,
        )
        (
          ih.0,
          ih.1 ∙ breaker_same (env (a + 1 + n)).failure_now p r.0 r.1 w m.0 m.1 m.2,
          ih.2 ∙ omega (arith, m.3),
        )
]

-- If all attempts fail and no wait is cut short, the last error is returned, every attempt is
-- counted in the metrics, and the breaker hears of one failure, at the end of the last attempt.
pub try_enqueue_exhausted :
    (env : ℕ → Attempt) (batch : Batch) (n : ℕ) (p : Producer) (w : World)
    → max_attempts p ≡ suc n
    → AllFail env 1 (suc n)
    → let r = try_enqueue_with_retry env batch p w in
      (r.2 ≡ (env (suc n)).result)
      × (breaker r.0 ≡ breaker (on_enqueue_failure (env (suc n)).failure_now p w).0)
      × (ingest_errors r.1 ≡ ingest_errors w + suc n)
unfolding try_enqueue_with_retry
try_enqueue_exhausted env batch n p w count all =
    let shift : 1 + n ≡ suc n = omega arith in
    let all_failed = try_loop_exhausted env batch 1 n (message (codes "enqueue failed")) p w all in
    rw count (rw shift at all_failed)
