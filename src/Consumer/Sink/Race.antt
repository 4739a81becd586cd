-- ===== src/Consumer/Sink/Race.antt =====
-- A call of Add that races with Close in service/consumer.go.
use log_forge.Prelude.{◌≡◌, refl, true, false, [], ◌∷◌, arith}
use log_forge.Prelude.Int.{pos, ◌<ℤ◌}
use log_forge.Model.{ConsumedMessage}
use log_forge.World.{World}
use log_forge.Ingestion.{RepositoryOps}
use log_forge.Consumer.{Writer, append_pending, take_pending}
use log_forge.Consumer.Sink.{
  Sink, idle, appended, drained, enter, append, cancel, sweep, Reach, here, next,
}

-- For a writer with room for more than one message in its batch, there are steps by which a message
-- stays behind: Add finds the context alive, Close cancels it and the flush loop drains for the last
-- time, and only then Add appends. The message is pending, the only batch under way is the empty one of
-- that drain, no call of Add is left, and the flush loop has ended.
pub add_races_close :
    {R : Type 0} (repository : RepositoryOps R) (wr : Writer R) (msg : ConsumedMessage) (w : World)
    → wr.ctx_done ≡ false
    → wr.pending ≡ []
    → pos 1 <ℤ wr.flush_size
    → (t : Sink R) × Reach repository (idle wr w) t
      × (t.writer.pending ≡ msg ∷ [])
      × (t.swept ≡ true)
      × (t.adding ≡ [])
      × (t.batches ≡ [] ∷ [])
unfolding idle appended drained append_pending take_pending
add_races_close repository wr msg w live empty room =
    let s0 = idle wr w in
    let s1 : Sink _ = record s0 { adding = msg ∷ [] } in
    let s2 : Sink _ = record s1 { writer = record (s1.writer) { ctx_done = true } } in
    let s3 : Sink _ = record (drained s2) { swept = true } in
    let s4 : Sink _ = appended msg [] s3 in
    (
      s4,
      next (next (next (next here (enter msg live refl)) (cancel refl)) (sweep refl refl refl))
          (append [] msg [] refl refl),
      ground arith,
      ground arith,
      ground arith,
      ground arith,
    )
