-- ===== src/Producer/Laws/Breaker.antt =====
-- The circuit breaker of service/producer.go: when it opens and when it closes.
use log_forge.Prelude.{
  ap, ltb, ℕ, suc, ◌+◌, ◌≤◌, ◌<◌, ◌≡◌, refl, List, [], ◌∷◌, ◌++◌, length, arith,
}
use log_forge.Prelude.Int.{pos, ◌<ℤ◌, pos_part}
use log_forge.World.{World}
use log_forge.Producer.State.{Producer}
use log_forge.Producer.Circuit.{is_circuit_open, on_enqueue_failure}
use log_forge.Producer.Laws.Setup.{IsValid}

-- Failures reported one after the other, at the clock readings listed.
unfoldable pub fail_all : List ℕ → Producer → World → Producer × World
fail_all [] p w = (p, w)
fail_all (t ∷ ts) p w = let (p', w') = on_enqueue_failure t p w in fail_all ts p' w'

-- A failure that is not the last one only counts.
one_failure :
    (now : ℕ) (p : Producer) (w : World) (n t : ℕ)
    → p.circuit_failure_threshold ≡ pos t
    → t ≤ 2147483647
    → pos 0 <ℤ p.circuit_cooldown
    → p.consecutive_failures ≡ pos n
    → n + 1 < t
    → on_enqueue_failure now p w ≡ (record p { consecutive_failures = pos (n + 1) }, w)
unfolding on_enqueue_failure
one_failure now p w n t ht fits cool hn room = ground arith

-- Fewer failures than are missing to the threshold only count.
fail_all_below :
    (ts : List ℕ) (p : Producer) (w : World) (n t : ℕ)
    → p.circuit_failure_threshold ≡ pos t
    → t ≤ 2147483647
    → pos 0 <ℤ p.circuit_cooldown
    → p.consecutive_failures ≡ pos n
    → n + length ts < t
    → fail_all ts p w ≡ (record p { consecutive_failures = pos (n + length ts) }, w)
unfolding fail_all
fail_all_below [] p w n t ht fits cool hn room = ground arith
fail_all_below (x ∷ ts) p w n t ht fits cool hn room =
    rw (one_failure x p w n t ht fits cool hn (omega arith)) (
      rw
        (fail_all_below ts (record p { consecutive_failures = pos (n + 1) }) w (n + 1) t ht fits
          cool refl (omega arith))
        (ap (λ k. (record p { consecutive_failures = pos k }, w)) (omega arith)))

fail_all-append :
    (ts us : List ℕ) (p : Producer) (w : World)
    → fail_all (ts ++ us) p w ≡ fail_all us (fail_all ts p w).0 (fail_all ts p w).1
unfolding fail_all
fail_all-append [] us p w = refl
fail_all-append (t ∷ ts) us p w =
    fail_all-append ts us (on_enqueue_failure t p w).0 (on_enqueue_failure t p w).1

last_failure :
    (now : ℕ) (p : Producer) (w : World) (n : ℕ)
    → p.circuit_failure_threshold ≡ pos (suc n)
    → n < 2147483647
    → pos 0 <ℤ p.circuit_cooldown
    → p.consecutive_failures ≡ pos n
    → let q = (on_enqueue_failure now p w).0 in
      (q.circuit_open_until_ns ≡ now + pos_part p.circuit_cooldown)
      × (q.consecutive_failures ≡ pos 0)
unfolding on_enqueue_failure
last_failure now p w n ht fits cool hn = ground arith

-- From a closed breaker of a valid producer with no failure counted: while fewer failures than the
-- threshold have come in a row the breaker stays closed. The failure that meets the threshold, at
-- the clock reading `now`, opens it until `now` plus the cooldown and restarts the count, and a
-- reading `later` finds it open exactly before that moment.
pub breaker_trips :
    (ts : List ℕ) (now later : ℕ) (p : Producer) (w : World)
    → IsValid p
    → p.consecutive_failures ≡ pos 0
    → p.circuit_open_until_ns ≡ 0
    → p.circuit_failure_threshold ≡ pos (suc (length ts))
    → let q = (fail_all (ts ++ now ∷ []) p w).0 in
      ((fail_all ts p w).0.circuit_open_until_ns ≡ 0)
      × (q.circuit_open_until_ns ≡ now + pos_part p.circuit_cooldown)
      × (q.consecutive_failures ≡ pos 0)
      × ((is_circuit_open later q).1 ≡ ltb later (now + pos_part p.circuit_cooldown))
unfolding fail_all is_circuit_open
breaker_trips ts now later p w v none_yet shut meets =
    let before =
      fail_all_below ts p w 0 (suc (length ts)) meets (ground arith) v.cooldown_pos none_yet
        (omega arith) in
    let p' : Producer = record p { consecutive_failures = pos (0 + length ts) } in
    let trip =
      last_failure now p' w (length ts) meets (ground arith) v.cooldown_pos
        (ap pos (omega arith)) in
    rw (fail_all-append ts (now ∷ []) p w, before) (shut, trip.0, trip.1, ground (arith, trip))
