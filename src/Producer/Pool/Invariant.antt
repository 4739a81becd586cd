-- ===== src/Producer/Pool/Invariant.antt =====
-- What holds of the pool of service/producer.go after any steps.
use log_forge.Prelude.{
  suc, ◌⊎◌, ◌∙◌, sym, inl, inr, Bool-cases, ℕ, ◌-◌, ◌≤◌, ◌<◌, ◌≡◌, ◌≢◌, ap, true, false, Option,
  none, List, [], ◌∷◌, ◌++◌, length, length-append, arith,
}
use log_forge.Errors.{Err}
use log_forge.World.{World}
use log_forge.Producer.State.{Producer, Batch, Return, ok, fail, panic, start_async, close}
use log_forge.Producer.Publish.{Attempt, DlqAnswers, run_producer_round}
use log_forge.Producer.Enqueue.{enqueue_guards, enqueue_send}
use log_forge.Producer.Laws.Setup.{IsValid, start_async-IsValid, close-IsValid}
use log_forge.Producer.Laws.Invariant.{
  enqueue_guards-IsValid, enqueue_send-IsValid, run_producer_round-IsValid,
}
use log_forge.Producer.Laws.Frame.{
  flags, Sends, enqueue_send-Sends, frame, run_producer_round-frame, enqueue_guards-frame,
  enqueue_guards-open,
}
use log_forge.Producer.Pool.{
  Pool, idle, settle, sent, finished, Step, start, shut, arrive, send, receive, publish, leave,
  Reach, here, next,
}

pub record IsSafe (s : Pool) : Type 0 where
  pub valid : IsValid s.producer
  -- A worker holds at most one batch.
  pub busy_le : length s.busy ≤ s.producer.running
  -- While the channel is open, a started producer has workers.
  pub staffed : s.producer.started ≡ true → s.producer.ch_closed ≡ false → 0 < s.producer.running
  -- Before the start nothing is sent and nobody runs.
  pub unstarted : s.producer.started ≡ false → (s.senders ≡ []) × (s.producer.running ≡ 0)
  -- The last worker leaves an empty buffer behind.
  pub swept : s.producer.running ≡ 0 → s.producer.work_ch ≡ []
  -- Only a send after Close can panic.
  pub crash_closed : s.crashed ≡ true → s.producer.closed ≡ true

start-IsSafe : (s : Pool) → IsSafe s → IsSafe (record s { producer = start_async s.producer })
unfolding start_async
start-IsSafe s h = record {
  valid = unfold start_async in start_async-IsValid s.producer h.valid;
  busy_le = ground arith;
  staffed = ground arith;
  unstarted = ground arith;
  swept = ground arith;
  crash_closed = ground arith;
}

shut-IsSafe :
    (s : Pool)
    → IsSafe s
    → IsSafe
        (record s { producer = (close s.producer s.world).0; world = (close s.producer s.world).1 })
unfolding close
shut-IsSafe s h = record {
  valid = unfold close in close-IsValid s.producer s.world h.valid;
  busy_le = ground arith;
  staffed = ground arith;
  unstarted = ground arith;
  swept = ground arith;
  crash_closed = ground arith;
}

arrive-IsSafe :
    (s : Pool) (now : ℕ) (ctx_err : Option Err) (batch : Batch)
    → (enqueue_guards now ctx_err batch s.producer).1 ≡ none
    → IsSafe s
    → IsSafe (record s {
      producer = (enqueue_guards now ctx_err batch s.producer).0;
      senders = batch ∷ s.senders;
    })
arrive-IsSafe s now ctx_err batch passed h =
    let f = enqueue_guards-frame now ctx_err batch s.producer in
    let o = enqueue_guards-open now ctx_err batch s.producer passed in
    record {
      valid = enqueue_guards-IsValid now ctx_err batch s.producer h.valid;
      busy_le = ground arith;
      staffed = ground arith;
      unstarted = ground arith;
      swept = ground arith;
      crash_closed = ground arith;
    }

middle-length :
    (before : List Batch) (batch : Batch) (after : List Batch)
    → length (before ++ batch ∷ after) ≡ suc (length (before ++ after))
middle-length before batch after =
    omega (arith, length-append before (batch ∷ after), length-append before after)

not_nil : (before : List Batch) (batch : Batch) (after : List Batch) → before ++ batch ∷ after ≢ []
not_nil [] batch after e = cc
not_nil (x ∷ before) batch after e = cc

settle-IsSafe :
    (s : Pool) (batch : Batch) (rest : List Batch) (r : Producer × World × Return)
    → IsSafe s
    → s.producer.started ≡ true
    → IsValid r.0
    → flags r.0 ≡ flags s.producer
    → Sends s.producer batch r.2 r.0
    → IsSafe (settle batch r rest s)
settle-IsSafe s batch rest (p, w, ok) h on v f (put, free) = record {
  valid = v;
  busy_le = ground arith;
  staffed = ground arith;
  unstarted = ground arith;
  swept = ground arith;
  crash_closed = ground arith;
}
settle-IsSafe s batch rest (p, w, fail e) h on v f same = record {
  valid = v;
  busy_le = ground arith;
  staffed = ground arith;
  unstarted = ground arith;
  swept = ground arith;
  crash_closed = ground arith;
}
settle-IsSafe s batch rest (p, w, panic) h on v f (same, gone) = record {
  valid = v;
  busy_le = ground arith;
  staffed = ground arith;
  unstarted = ground arith;
  swept = ground arith;
  crash_closed = ground (arith, h.valid.closed_together);
}

send-IsSafe :
    (s : Pool) (before : List Batch) (batch : Batch) (after : List Batch)
    → s.senders ≡ before ++ batch ∷ after
    → IsSafe s
    → IsSafe (sent batch (before ++ after) s)
unfolding sent
send-IsSafe s before batch after at_hand h =
    let f = enqueue_send-Sends batch s.producer s.world in
    let v = enqueue_send-IsValid batch s.producer s.world h.valid in
    settle-IsSafe s batch (before ++ after) (enqueue_send batch s.producer s.world) h
      (on (Bool-cases s.producer.started)) v f.0 f.1
  where
    on : (s.producer.started ≡ true) ⊎ (s.producer.started ≡ false) → s.producer.started ≡ true
    on (inl e) = e
    on (inr e) = absurd (not_nil before batch after (sym at_hand ∙ (h.unstarted e).0))

conclude-IsSafe :
    (s : Pool) (rest : List Batch) (p : Producer) (w : World)
    → IsSafe s
    → length rest ≤ length s.busy
    → IsValid p
    → frame p ≡ frame s.producer
    → IsSafe (record s { producer = p; world = w; busy = rest })
conclude-IsSafe s rest p w h le v f = record {
  valid = v;
  busy_le = ground arith;
  staffed = ground arith;
  unstarted = ground arith;
  swept = ground arith;
  crash_closed = ground arith;
}

publish-IsSafe :
    (s : Pool) (depth depth' : ℕ) (env : ℕ → Attempt) (answers : DlqAnswers) (before : List Batch)
    (batch : Batch) (after : List Batch)
    → s.busy ≡ before ++ batch ∷ after
    → IsSafe s
    → IsSafe (finished depth depth' env answers batch (before ++ after) s)
unfolding finished
publish-IsSafe s depth depth' env answers before batch after held h =
    let r = run_producer_round depth depth' env answers batch s.producer s.world in
    conclude-IsSafe s (before ++ after) r.0 r.1 h
      (omega (arith, ap length held, middle-length before batch after))
      (run_producer_round-IsValid depth depth' env answers batch s.producer s.world h.valid)
      (run_producer_round-frame depth depth' env answers batch s.producer s.world)

receive-IsSafe :
    (s : Pool) (batch : Batch) (rest : List Batch)
    → s.producer.work_ch ≡ batch ∷ rest
    → length s.busy < s.producer.running
    → IsSafe s
    → IsSafe (record s { producer = record (s.producer) { work_ch = rest }; busy = batch ∷ s.busy })
receive-IsSafe s batch rest front free h = record {
  valid = receive-IsValid s.producer batch rest front h.valid;
  busy_le = omega arith;
  staffed = ground arith;
  unstarted = ground arith;
  swept = λ e. absurd (omega arith);
  crash_closed = ground arith;
}
  where
    receive-IsValid :
        (p : Producer) (b : Batch) (bs : List Batch)
        → p.work_ch ≡ b ∷ bs
        → IsValid p
        → IsValid (record p { work_ch = bs })
    receive-IsValid p b bs e v = ground (arith, ap length e)

leave-IsSafe :
    (s : Pool)
    → s.producer.ch_closed ≡ true
    → s.producer.work_ch ≡ []
    → length s.busy < s.producer.running
    → IsSafe s
    → IsSafe (record s { producer = record (s.producer) { running = s.producer.running - 1 } })
leave-IsSafe s shut_down empty free h = record {
  valid = leave-IsValid s.producer h.valid;
  busy_le = omega arith;
  staffed = ground arith;
  unstarted = ground arith;
  swept = ground arith;
  crash_closed = ground arith;
}
  where
    leave-IsValid : (p : Producer) → IsValid p → IsValid (record p { running = p.running - 1 })
    leave-IsValid p v = ground arith

Step-IsSafe : {s t : Pool} → Step s t → IsSafe s → IsSafe t
Step-IsSafe {s} (start e) h = rw e (start-IsSafe s h)
Step-IsSafe {s} (shut e) h = rw e (shut-IsSafe s h)
Step-IsSafe {s} (arrive now ctx_err batch passed e) h =
    rw e (arrive-IsSafe s now ctx_err batch passed h)
Step-IsSafe {s} (send before batch after at_hand e) h =
    rw e (send-IsSafe s before batch after at_hand h)
Step-IsSafe {s} (receive batch rest front free e) h =
    rw e (receive-IsSafe s batch rest front free h)
Step-IsSafe {s} (publish depth depth' env answers before batch after held e) h =
    rw e (publish-IsSafe s depth depth' env answers before batch after held h)
Step-IsSafe {s} (leave shut_down empty free e) h = rw e (leave-IsSafe s shut_down empty free h)

pub Reach-IsSafe : {s t : Pool} → IsSafe s → Reach s t → IsSafe t
Reach-IsSafe h here = h
Reach-IsSafe h (next r st) = Step-IsSafe st (Reach-IsSafe h r)

-- A valid producer that was not started, with an empty buffer and no worker.
pub idle-IsSafe :
    (p : Producer) (w : World)
    → IsValid p
    → p.started ≡ false
    → p.running ≡ 0
    → p.work_ch ≡ []
    → IsSafe (idle p w)
unfolding idle
idle-IsSafe p w v off still empty = record {
  valid = v;
  busy_le = omega arith;
  staffed = ground arith;
  unstarted = ground arith;
  swept = ground arith;
  crash_closed = λ e. cc;
}
