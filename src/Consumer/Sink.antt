-- ===== src/Consumer/Sink.antt =====
-- service/consumer.go under concurrency: calls of Add from several consumers, the ticker and the end of
-- flushLoop, Close, and batches that are persisted outside the lock, as steps over one writer. A call of
-- Add is its look at the context and its append under the lock; a batch that was drained is persisted
-- at any later time, in any order with the others. The flush loop may drain again before it has
-- persisted its last batch, which the source does not do: there are more runs here.

pub mod Recording
pub mod Stores
pub mod Commits
pub mod Race
use log_forge.Prelude.{◌≡◌, true, false, Bool, Option, none, some, List, [], ◌∷◌, ◌++◌}
use log_forge.Model.{ConsumedMessage}
use log_forge.World.{World}
use log_forge.Producer.Publish.{DlqAnswers}
use log_forge.Ingestion.{RepositoryOps}
use log_forge.Consumer.Batching.{Writer, append_pending, take_pending, persist}

pub record Sink (R : Type 0) : Type 0 where
  pub writer : Writer R
  pub world : World
  -- The calls of Add that have passed the look at the context.
  pub adding : List ConsumedMessage
  -- The batches that were drained and are not persisted yet.
  pub batches : List (List ConsumedMessage)
  -- Whether the flush loop has drained for the last time; `done` is closed once that batch is persisted.
  pub swept : Bool

unfoldable pub idle : {R : Type 0} → Writer R → World → Sink R
idle wr w = record { writer = wr; world = w; adding = []; batches = []; swept = false }

abbrev pub with_batch :
    Option (List ConsumedMessage) → List (List ConsumedMessage) → List (List ConsumedMessage)
with_batch none batches = batches
with_batch (some batch) batches = batch ∷ batches

module _ {R : Type 0} where
  -- The append of Add.
  unfoldable pub appended : ConsumedMessage → List ConsumedMessage → Sink R → Sink R
  unfolding append_pending
  appended msg rest s =
      let r = append_pending msg s.writer in
      record s { writer = r.0; adding = rest; batches = with_batch r.1 s.batches }

  -- A drain of the flush loop.
  unfoldable pub drained : Sink R → Sink R
  unfolding take_pending
  drained s = let r = take_pending s.writer in record s { writer = r.0; batches = r.1 ∷ s.batches }

module _ {R : Type 0} (repository : RepositoryOps R) where
  -- A batch is persisted.
  unfoldable pub persisted :
      DlqAnswers → List ConsumedMessage → List (List ConsumedMessage) → Sink R → Sink R
  unfolding persist
  persisted a batch rest s =
      let r = persist repository a batch s.writer s.world in
      record s { writer = r.0; world = r.1; batches = rest }

  pub data Step (s t : Sink R) : Type 0 where
    enter :
        (msg : ConsumedMessage)
        → s.writer.ctx_done ≡ false
        → t ≡ record s { adding = msg ∷ s.adding }
        → Step s t
    append :
        (before : List ConsumedMessage) (msg : ConsumedMessage) (after : List ConsumedMessage)
        → s.adding ≡ before ++ msg ∷ after
        → t ≡ appended msg (before ++ after) s
        → Step s t
    tick : s.swept ≡ false → t ≡ drained s → Step s t
    save :
        (a : DlqAnswers) (before : List (List ConsumedMessage)) (batch : List ConsumedMessage)
        (after : List (List ConsumedMessage))
        → s.batches ≡ before ++ batch ∷ after
        → t ≡ persisted a batch (before ++ after) s
        → Step s t
    cancel : t ≡ record s { writer = record (s.writer) { ctx_done = true } } → Step s t
    sweep :
        s.writer.ctx_done ≡ true
        → s.swept ≡ false
        → t ≡ record (drained s) { swept = true }
        → Step s t

  pub data Reach (s : Sink R) : Sink R → Type 0 where
    here : Reach s s
    next : {t u : Sink R} → Reach s t → Step t u → Reach s u

  -- The messages whose Add appended them, the last one first.
  abbrev pub added_at : {s t : Sink R} → Step s t → List ConsumedMessage
  added_at (enter msg live e) = []
  added_at (append before msg after at_hand e) = msg ∷ []
  added_at (tick live e) = []
  added_at (save a before batch after at_hand e) = []
  added_at (cancel e) = []
  added_at (sweep dead live e) = []

  abbrev pub added : {s t : Sink R} → Reach s t → List ConsumedMessage
  added here = []
  added (next r step) = added_at step ++ added r
