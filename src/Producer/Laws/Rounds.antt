-- ===== src/Producer/Laws/Rounds.antt =====
-- One round of the retry loop of service/producer.go, by how its attempt ends.
use log_forge.Prelude.{false, arith, ℕ, suc, ◌+◌, ◌≡◌, refl, some, none, ◌==◌, true, false}
use log_forge.Errors.{Err}
use log_forge.World.{World, queue_takes}
use log_forge.Producer.State.{Producer, Batch}
use log_forge.Producer.Circuit.{on_enqueue_success}
use log_forge.Producer.Publish.{Attempt, after_failure, try_loop}

module _ (env : ℕ → Attempt) (batch : Batch) (attempt left : ℕ) (last_err : Err) (p : Producer)
    (w : World) where
  pub round_success :
      (env attempt).result ≡ none
      → try_loop env batch attempt (suc left) last_err p w
        ≡ (on_enqueue_success p, queue_takes batch w, none)
  unfolding try_loop
  round_success done = rw (done, try_loop)

  pub round_stop :
      (e x : Err)
      → (env attempt).result ≡ some e
      → (after_failure (env attempt) e (left == 0) p w).2 ≡ some x
      → let r = after_failure (env attempt) e (left == 0) p w in
        try_loop env batch attempt (suc left) last_err p w ≡ (r.0, r.1, some x)
  unfolding try_loop
  round_stop e x failed stop = ground arith

  pub round_again :
      (e : Err)
      → (env attempt).result ≡ some e
      → (after_failure (env attempt) e (left == 0) p w).2 ≡ none
      → let r = after_failure (env attempt) e (left == 0) p w in
        try_loop env batch attempt (suc left) last_err p w
        ≡ try_loop env batch (attempt + 1) left e r.0 r.1
  unfolding try_loop
  round_again e failed go_on = ground arith

-- Where a failed round ends the loop.
pub after_failure_last :
    (a : Attempt) (e : Err) (p : Producer) (w : World) → (after_failure a e true p w).2 ≡ some e
unfolding after_failure
after_failure_last a e p w = refl

pub suc-eq-zero : (n : ℕ) → (suc n == 0) ≡ false
suc-eq-zero n = ground arith

pub after_failure_more :
    (a : Attempt) (e : Err) (n : ℕ) (p : Producer) (w : World)
    → (after_failure a e (suc n == 0) p w).2 ≡ a.ctx_done
unfolding after_failure
after_failure_more a e n p w = rw (suc-eq-zero n)
