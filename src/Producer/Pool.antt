-- ===== src/Producer/Pool.antt =====
-- service/producer.go under concurrency: callers of Enqueue, the worker goroutines, StartAsync and
-- Close as steps over one producer. A call of Enqueue is two steps, its guards and its send, and a
-- worker's round is two steps, the receive and the publishing; any steps may come in between.
pub mod Invariant
pub mod Drain
pub mod Finish
use log_forge.Prelude.{
  ℕ, ◌-◌, ◌<◌, ◌≡◌, Bool, true, false, Option, some, none, List, [], ◌∷◌, ◌++◌, length,
}
use log_forge.Errors.{Err}
use log_forge.World.{World}
use log_forge.Producer.State.{Producer, Batch, Return, ok, fail, panic, start_async, close}
use log_forge.Producer.Publish.{Attempt, DlqAnswers, run_producer_round}
use log_forge.Producer.Enqueue.{enqueue_guards, enqueue_send}

pub record Pool : Type 0 where
  pub producer : Producer
  pub world : World
  -- The calls of Enqueue that have passed the guards and have not sent yet.
  pub senders : List Batch
  -- The batches that workers have received and not finished.
  pub busy : List Batch
  -- The batches for which Enqueue returned no error.
  pub accepted : List Batch
  -- Whether a goroutine has panicked.
  pub crashed : Bool

unfoldable pub idle : Producer → World → Pool
idle p w = record {
  producer = p;
  world = w;
  senders = [];
  busy = [];
  accepted = [];
  crashed = false;
}

-- How a send ends.
abbrev settle : Batch → Producer × World × Return → List Batch → Pool → Pool
settle batch (p, w, ok) rest s = record s {
  producer = p;
  world = w;
  senders = rest;
  accepted = batch ∷ s.accepted;
}
settle batch (p, w, fail _) rest s = record s { producer = p; world = w; senders = rest }
settle batch (p, w, panic) rest s = record s {
  producer = p;
  world = w;
  senders = rest;
  crashed = true;
}

unfoldable pub sent : Batch → List Batch → Pool → Pool
unfolding enqueue_send
sent batch rest s = settle batch (enqueue_send batch s.producer s.world) rest s

-- The end of a worker's round.
unfoldable pub finished : ℕ → ℕ → (ℕ → Attempt) → DlqAnswers → Batch → List Batch → Pool → Pool
unfolding run_producer_round
finished depth depth' env answers batch rest s =
    let r = run_producer_round depth depth' env answers batch s.producer s.world in
    record s { producer = r.0; world = r.1; busy = rest }

pub data Step (s t : Pool) : Type 0 where
  start : t ≡ record s { producer = start_async s.producer } → Step s t
  shut :
      t ≡ record s { producer = (close s.producer s.world).0; world = (close s.producer s.world).1 }
      → Step s t
  arrive :
      (now : ℕ) (ctx_err : Option Err) (batch : Batch)
      → (enqueue_guards now ctx_err batch s.producer).1 ≡ none
      → t ≡ record s {
        producer = (enqueue_guards now ctx_err batch s.producer).0;
        senders = batch ∷ s.senders;
      }
      → Step s t
  send :
      (before : List Batch) (batch : Batch) (after : List Batch)
      → s.senders ≡ before ++ batch ∷ after
      → t ≡ sent batch (before ++ after) s
      → Step s t
  receive :
      (batch : Batch) (rest : List Batch)
      → s.producer.work_ch ≡ batch ∷ rest
      → length s.busy < s.producer.running
      → t ≡ record s { producer = record (s.producer) { work_ch = rest }; busy = batch ∷ s.busy }
      → Step s t
  publish :
      (depth depth' : ℕ) (env : ℕ → Attempt) (answers : DlqAnswers) (before : List Batch)
      (batch : Batch) (after : List Batch)
      → s.busy ≡ before ++ batch ∷ after
      → t ≡ finished depth depth' env answers batch (before ++ after) s
      → Step s t
  -- `for range` over a closed channel ends when the buffer is empty.
  leave :
      s.producer.ch_closed ≡ true
      → s.producer.work_ch ≡ []
      → length s.busy < s.producer.running
      → t ≡ record s { producer = record (s.producer) { running = s.producer.running - 1 } }
      → Step s t

pub data Reach (s : Pool) : Pool → Type 0 where
  here : Reach s s
  next : {t u : Pool} → Reach s t → Step t u → Reach s u
