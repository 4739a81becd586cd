-- ===== src/Producer/Enqueue.antt =====
-- Enqueue of service/producer.go, in its two parts: the guards, and the `select` that sends to the
-- buffered channel without blocking. Other goroutines may run between the two.
use log_forge.Prelude.{
  ℕ, ◌/◌, ◌*◌, not, Option, none, some, [], ◌∷◌, ◌++◌, if◌then◌else◌, ltb, leb, is_empty, length,
}
use log_forge.Prelude.Int.{pos, pos_part}
use log_forge.Errors.{
  Err, sentinel, producer_stopped, producer_not_started, queue_full, producer_circuit_open,
}
use log_forge.World.{World, warn, log_line, set_ingestion_queue_depth}
use log_forge.Producer.State.{Producer, Batch, Return, ok, fail, panic}
use log_forge.Producer.Circuit.{is_circuit_open}

-- The guards: the result to return, or none if the call goes on to send. `ctx_err` is `ctx.Err()`
-- if the context is done.
unfoldable pub enqueue_guards : ℕ → Option Err → Batch → Producer → Producer × Option Return
unfolding is_circuit_open
enqueue_guards now ctx_err batch p =
    if is_empty batch
    then (p, some ok)
    else if not p.started
    then (p, some (fail (sentinel producer_not_started)))
    else if p.closed
    then (p, some (fail (sentinel producer_stopped)))
    else let (p', is_open) = is_circuit_open now p in
      if is_open
      then (p', some (fail (sentinel producer_circuit_open)))
      else elim ctx_err [ some e ↦ (p', some (fail e)) | none ↦ (p', none) ]

-- `int(float64(cap(p.workCh)) * p.queueHighWaterPercent)`.
abbrev high_water : Producer → ℕ
high_water p = p.capacity * pos_part p.queue_high_water_percent / 1000000

-- The `select`: a send on a closed channel panics, also where there is a default case.
unfoldable pub enqueue_send : Batch → Producer → World → Producer × World × Return
unfolding set_ingestion_queue_depth log_line
enqueue_send batch p w =
    if p.ch_closed
    then (p, w, panic)
    else if ltb (length p.work_ch) p.capacity
    then (let p' = record p { work_ch = p.work_ch ++ batch ∷ [] } in
        let w' = set_ingestion_queue_depth (pos (length p'.work_ch)) w in
        let w'' =
          if leb (high_water p) (length p'.work_ch)
          then log_line warn "ingestion work queue nearing capacity" w'
          else w' in
        (p', w'', ok))
    else (p, set_ingestion_queue_depth (pos (length p.work_ch)) w, fail (sentinel queue_full))

-- `Enqueue` with no other goroutine in between.
unfoldable pub enqueue : ℕ → Option Err → Batch → Producer → World → Producer × World × Return
unfolding enqueue_guards enqueue_send
enqueue now ctx_err batch p w =
    let (p', stop) = enqueue_guards now ctx_err batch p in
    elim stop [ some r ↦ (p', w, r) | none ↦ enqueue_send batch p' w ]
