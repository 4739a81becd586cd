-- ===== src/Producer/Pool/Drain.antt =====
-- Where the batches of service/producer.go are at any time: in the buffer, with a worker, in the queue or
-- in a dead-letter file; and a Close that races with Enqueue.
use log_forge.Prelude.{
  ℕ, ◌+◌, ◌≤◌, ◌≡◌, ◌≢◌, refl, ap, Bool, true, false, none, List, [], ◌∷◌, ◌++◌, length, arith,
}
use log_forge.Text.{Text}
use log_forge.World.{World}
use log_forge.Producer.State.{Producer, Batch, Return, ok, fail, panic, start_async, close}
use log_forge.Producer.Enqueue.{enqueue_guards, enqueue_send}
use log_forge.Producer.Laws.Setup.{IsValid}
use log_forge.Producer.Laws.Frame.{
  frame, Sends, enqueue_send-Sends, run_producer_round-frame, enqueue_guards-frame,
}
use log_forge.Producer.Pool.{
  Pool, idle, settle, sent, finished, Step, start, shut, arrive, send, receive, publish, leave,
  Reach, here, next,
}
use log_forge.Producer.Publish.{run_producer_round}
use log_forge.Producer.Laws.Letters.{
  CanWrite, out_of, run_producer_round-out_of, enqueue_send-out_of, close-out_of,
}
use log_forge.Prelude.Weights.{weigh, weigh-append, weigh-cons, weigh-nil, weigh-middle}
use log_forge.Producer.Pool.Invariant.{idle-IsSafe, Reach-IsSafe}

-- A worker's round that is refused by the queue can write its dead-letter file.
abbrev pub WritesStep : {s t : Pool} → Step s t → Type 0
WritesStep (start e) = Unit
WritesStep (shut e) = Unit
WritesStep (arrive now ctx_err batch passed e) = Unit
WritesStep (send before batch after at_hand e) = Unit
WritesStep (receive batch rest front free e) = Unit
WritesStep {s} (publish depth depth' env answers before batch after held e) =
    CanWrite answers s.producer s.world
WritesStep (leave shut_down empty free e) = Unit

abbrev pub Writes : {s t : Pool} → Reach s t → Type 0
Writes here = Unit
Writes (next r st) = Writes r × WritesStep st

module _ (f : Batch → ℕ) where
  -- What was accepted, and was out before, is in the buffer, with the workers, and out now.
  abbrev IsKept : World → Pool → Type 0
  IsKept w s =
      weigh f s.accepted + out_of f w
      ≡ weigh f s.producer.work_ch + weigh f s.busy + out_of f s.world

  settle-IsKept :
      (w₀ : World) (s : Pool) (batch : Batch) (rest : List Batch) (r : Producer × World × Return)
      → Sends s.producer batch r.2 r.0
      → out_of f r.1 ≡ out_of f s.world
      → IsKept w₀ s
      → IsKept w₀ (settle batch r rest s)
  settle-IsKept w₀ s batch rest (p, w, ok) (put, free) same_out k = rw put (
      omega (
        arith,
        weigh-append f s.producer.work_ch (batch ∷ []),
        weigh-cons f batch [],
        weigh-nil f,
        weigh-cons f batch s.accepted,
        same_out,
      ))
  settle-IsKept w₀ s batch rest (p, w, fail e) same same_out k = rw same (omega (arith, same_out))
  settle-IsKept w₀ s batch rest (p, w, panic) (same, gone) same_out k =
      rw same (omega (arith, same_out))

  conclude-IsKept :
      (w₀ : World) (s : Pool) (before : List Batch) (batch : Batch) (after : List Batch)
      (p : Producer) (w : World)
      → s.busy ≡ before ++ batch ∷ after
      → frame p ≡ frame s.producer
      → out_of f w ≡ f batch + out_of f s.world
      → IsKept w₀ s
      → IsKept w₀ (record s { producer = p; world = w; busy = before ++ after })
  conclude-IsKept w₀ s before batch after p w held fr more k =
      let same : p.work_ch ≡ s.producer.work_ch = ap (λ x. x.0) fr in
      rw same (omega (arith, more, ap (weigh f) held, weigh-middle f before batch after))

  Step-IsKept :
      (w₀ : World) {s t : Pool} (step : Step s t)
      → f [] ≡ 0
      → WritesStep step
      → IsKept w₀ s
      → IsKept w₀ t
  unfolding start_async sent finished
  Step-IsKept w₀ {s} (start e) zero_f can k = rw e (ground arith)
  Step-IsKept w₀ {s} (shut e) zero_f can k =
      let same : (close s.producer s.world).0.work_ch ≡ s.producer.work_ch =
        unfold close in ground arith in
      rw (e, same) (omega (arith, close-out_of f s.producer s.world))
  Step-IsKept w₀ {s} (arrive now ctx_err batch passed e) zero_f can k =
      rw
        (
          e,
          ap (λ (x : List Batch × ℕ × Bool × Bool × Bool × ℕ × Text). x.0)
              (enqueue_guards-frame now ctx_err batch s.producer),
        )
        k
  Step-IsKept w₀ {s} (send before batch after at_hand e) zero_f can k = rw e (
      settle-IsKept w₀ s batch (before ++ after) (enqueue_send batch s.producer s.world)
        (enqueue_send-Sends batch s.producer s.world).1
        (enqueue_send-out_of f batch s.producer s.world) k)
  Step-IsKept w₀ {s} (receive batch rest front free e) zero_f can k =
      rw e (omega (arith, ap (weigh f) front, weigh-cons f batch rest, weigh-cons f batch s.busy))
  Step-IsKept w₀ {s} (publish depth depth' env answers before batch after held e) zero_f can k =
      rw e (
        let r = run_producer_round depth depth' env answers batch s.producer s.world in
        conclude-IsKept w₀ s before batch after r.0 r.1 held
          (run_producer_round-frame depth depth' env answers batch s.producer s.world)
          (run_producer_round-out_of f depth depth' env answers batch s.producer s.world zero_f can)
          k)
  Step-IsKept w₀ {s} (leave shut_down empty free e) zero_f can k = rw e k

  Reach-IsKept :
      (w₀ : World) {s t : Pool} → f [] ≡ 0 → IsKept w₀ s → (r : Reach s t) → Writes r → IsKept w₀ t
  Reach-IsKept w₀ zero_f k here can = k
  Reach-IsKept w₀ zero_f k (next r st) (before, now) =
      Step-IsKept w₀ st zero_f now (Reach-IsKept w₀ zero_f k r before)

  idle-IsKept : (p : Producer) (w : World) → p.work_ch ≡ [] → IsKept w (idle p w)
  unfolding idle
  idle-IsKept p w empty = rw empty (omega (arith, weigh-nil f))

length-zero : {A : Type 0} (xs : List A) → length xs ≡ 0 → xs ≡ []
length-zero [] h = refl
length-zero (x ∷ xs) h = absurd (omega arith)

-- From a valid producer that is not started, with no worker and an empty buffer, through any steps
-- of callers, workers, StartAsync and Close, where at each round of a worker a dead-letter file could
-- be written under a new name: every batch that Enqueue accepted is in the buffer, with a worker, taken
-- by the queue, or in a dead-letter file, counted as often as it was accepted, and nothing else was
-- put into the queue or the dead-letter files (the equation holds for every weight `f` of batches that
-- gives the empty batch 0); the buffer holds no more than its capacity, and the workers no more than
-- one batch each.
pub pool_conserves :
    (f : Batch → ℕ) (p : Producer) (w : World) {t : Pool}
    → IsValid p
    → p.started ≡ false
    → p.running ≡ 0
    → p.work_ch ≡ []
    → f [] ≡ 0
    → (r : Reach (idle p w) t) → Writes r
    → (weigh f t.accepted + out_of f w
        ≡ weigh f t.producer.work_ch + weigh f t.busy + out_of f t.world)
      × (length t.producer.work_ch ≤ t.producer.capacity)
      × (length t.busy ≤ t.producer.running)
pool_conserves f p w v off still empty zero_f r can =
    let safe = Reach-IsSafe (idle-IsSafe p w v off still empty) r in
    (
      Reach-IsKept f w zero_f (idle-IsKept f p w empty) r can,
      safe.valid.within_capacity,
      safe.busy_le,
    )

-- Once no worker runs any more, nothing is left in the buffer or with a worker.
pub stopped_empty :
    (p : Producer) (w : World) {t : Pool}
    → IsValid p
    → p.started ≡ false
    → p.running ≡ 0
    → p.work_ch ≡ []
    → Reach (idle p w) t
    → t.producer.running ≡ 0
    → (t.producer.work_ch ≡ []) × (t.busy ≡ [])
stopped_empty p w {t} v off still empty r done =
    let safe = Reach-IsSafe (idle-IsSafe p w v off still empty) r in
    (safe.swept done, length-zero t.busy (omega (arith, safe.busy_le)))

-- From a valid producer that is not started, with no worker and an empty buffer, through any steps,
-- where at each round of a worker a dead-letter file could be written under a new name: once no worker
-- runs any more, which is what Close waits for, nothing is left in the buffer or with a worker, and
-- what the queue took and the dead-letter files hold is what was there before together with the
-- batches that Enqueue accepted, counted as often (for every weight `f` of batches that gives the
-- empty batch 0).
pub close_drains :
    (f : Batch → ℕ) (p : Producer) (w : World) {t : Pool}
    → IsValid p
    → p.started ≡ false
    → p.running ≡ 0
    → p.work_ch ≡ []
    → f [] ≡ 0
    → (r : Reach (idle p w) t) → Writes r
    → t.producer.running ≡ 0
    → (t.producer.work_ch ≡ [])
      × (t.busy ≡ [])
      × (weigh f t.accepted + out_of f w ≡ out_of f t.world)
close_drains f p w {t} v off still empty zero_f r can done =
    let (no_buffer, no_busy) = stopped_empty p w v off still empty r done in
    let kept = Reach-IsKept f w zero_f (idle-IsKept f p w empty) r can in
    (no_buffer, no_busy, omega (arith, ap (weigh f) no_buffer, ap (weigh f) no_busy, weigh-nil f))

-- For a valid producer that is started and not closed, whose breaker's moment has passed, and a
-- batch that is not empty, there are steps by which a call of Enqueue panics: the call passes its
-- guards, Close closes the channel, and the call sends.
pub close_races_enqueue :
    (now : ℕ) (batch : Batch) (p : Producer) (w : World)
    → IsValid p
    → batch ≢ []
    → p.started ≡ true
    → p.closed ≡ false
    → p.circuit_open_until_ns ≤ now
    → (t : Pool) × Reach (idle p w) t × (t.crashed ≡ true)
unfolding idle enqueue_guards close sent
close_races_enqueue now [] p w v ne on live shut_breaker = absurd (ne refl)
close_races_enqueue now (x ∷ batch) p w v ne on live shut_breaker =
    let b : Batch = x ∷ batch in
    let s0 : Pool = idle p w in
    let s1 : Pool = record s0 { producer = (enqueue_guards now none b p).0; senders = b ∷ [] } in
    let s2 : Pool = record s1 {
      producer = (close s1.producer w).0;
      world = (close s1.producer w).1;
    } in
    let s3 : Pool = sent b [] s2 in
    (
      s3,
      next (next (next here (arrive now none b (ground arith) refl)) (shut refl))
          (send [] b [] refl refl),
      ground (arith, v.closed_together, v.once_together),
    )
