-- ===== src/Tests/PoolRuns.antt =====
-- Interleavings of callers, one worker and Close over the producer of service/producer.go.
use log_forge.Prelude.{◌+◌, ◌-◌, ◌≤◌, ◌≡◌, refl, true, none, [], ◌∷◌, length, arith}
use log_forge.Producer.{resolve, new_producer, start_async, close}
use log_forge.Producer.Enqueue.{enqueue_guards, enqueue_send}
use log_forge.Producer.Publish.{
  run_producer_round, try_enqueue_with_retry, try_loop, max_attempts, after_failure,
}
use log_forge.Producer.Circuit.{
  is_circuit_open, is_transient_producer_error, log_enqueue_failure, on_enqueue_success,
}
use log_forge.Producer.Pool.{
  Pool, idle, sent, finished, start, shut, arrive, send, receive, publish, leave, Reach, here, next,
}
use log_forge.Producer.Laws.Letters.{out_of}
use log_forge.Prelude.Weights.{weigh}
use log_forge.Producer.Pool.Drain.{Writes, pool_conserves, close_drains, close_races_enqueue}
use log_forge.Producer.Pool.Finish.{close_finishes}
use log_forge.Tests.Samples.{
  empty_world, one_batch, fresh, started, fresh-IsValid, started-IsValid, taking, taking_second,
  answers,
}

-- The pool after each step: the workers start, a caller passes the guards, sends, a worker receives
-- the batch, publishes it at the second attempt, Close is called, and the worker leaves.

abbrev s1 : Pool
s1 = let s = idle fresh empty_world in record s { producer = start_async s.producer }

abbrev s2 : Pool
s2 =
    let s = s1 in
    record s {
      producer = (enqueue_guards 50 none one_batch s.producer).0;
      senders = one_batch ∷ s.senders;
    }

abbrev s3 : Pool
s3 = sent one_batch [] s2

abbrev s4 : Pool
s4 =
    let s = s3 in
    record s { producer = record (s.producer) { work_ch = [] }; busy = one_batch ∷ s.busy }

abbrev s5 : Pool
s5 = finished 0 0 taking_second answers one_batch [] s4

abbrev s6 : Pool
s6 =
    let s = s5 in
    record s { producer = (close s.producer s.world).0; world = (close s.producer s.world).1 }

abbrev s7 : Pool
s7 = let s = s6 in record s { producer = record (s.producer) { running = s.producer.running - 1 } }

run : Reach (idle fresh empty_world) s7
unfolding idle sent finished start_async new_producer resolve enqueue_guards enqueue_send
    is_circuit_open close run_producer_round try_enqueue_with_retry try_loop max_attempts
    after_failure log_enqueue_failure on_enqueue_success is_transient_producer_error
run =
    next
      (next
        (next
          (next
            (next (next (next here (start refl)) (arrive 50 none one_batch refl refl))
              (send [] one_batch [] refl refl))
            (receive one_batch [] refl (omega arith) refl))
          (publish 0 0 taking_second answers [] one_batch [] refl refl))
        (shut refl))
      (leave refl refl (omega arith) refl)

-- The dead-letter file of the one round could be written.
run-Writes : Writes run
unfolding run idle sent finished start_async new_producer resolve enqueue_guards enqueue_send
    is_circuit_open close run_producer_round try_enqueue_with_retry try_loop max_attempts
    after_failure log_enqueue_failure on_enqueue_success is_transient_producer_error
run-Writes = (((((((tt, tt), tt), tt), tt), (refl, refl, refl, refl, tt)), tt), tt)

pool_conserves_example :
    (weigh length s7.accepted + out_of length empty_world
      ≡ weigh length s7.producer.work_ch + weigh length s7.busy + out_of length s7.world)
    × (length s7.producer.work_ch ≤ s7.producer.capacity)
    × (length s7.busy ≤ s7.producer.running)
unfolding new_producer
pool_conserves_example =
    pool_conserves length fresh empty_world fresh-IsValid refl refl refl refl run run-Writes

close_drains_example :
    (s7.producer.work_ch ≡ [])
    × (s7.busy ≡ [])
    × (weigh length s7.accepted + out_of length empty_world ≡ out_of length s7.world)
unfolding idle sent finished start_async new_producer resolve enqueue_guards enqueue_send
    is_circuit_open close run_producer_round try_enqueue_with_retry try_loop max_attempts
    after_failure log_enqueue_failure on_enqueue_success is_transient_producer_error
close_drains_example =
    close_drains length fresh empty_world fresh-IsValid refl refl refl refl run run-Writes refl

-- In this run the queue took the batch.
delivered_one : s7.world.queued ≡ one_batch ∷ []
unfolding idle sent finished start_async new_producer resolve enqueue_guards enqueue_send
    is_circuit_open close run_producer_round try_enqueue_with_retry try_loop max_attempts
    after_failure log_enqueue_failure on_enqueue_success is_transient_producer_error
delivered_one = refl

-- Close is called while the batch is still in the buffer.
abbrev shut_early : Pool
shut_early =
    let s = s3 in
    record s { producer = (close s.producer s.world).0; world = (close s.producer s.world).1 }

run_early : Reach (idle fresh empty_world) shut_early
unfolding idle sent start_async new_producer resolve enqueue_guards enqueue_send is_circuit_open
    close
run_early =
    next
      (next (next (next here (start refl)) (arrive 50 none one_batch refl refl))
        (send [] one_batch [] refl refl))
      (shut refl)

close_finishes_example :
    (t : Pool) × Reach shut_early t
    × (t.producer.running ≡ 0)
    × (t.producer.work_ch ≡ [])
    × (t.busy ≡ [])
    × (weigh length t.world.queued
        ≡ weigh length shut_early.producer.work_ch
          + weigh length shut_early.busy
          + weigh length shut_early.world.queued)
unfolding idle sent start_async new_producer resolve enqueue_guards enqueue_send is_circuit_open
    close
close_finishes_example =
    close_finishes length taking answers fresh empty_world refl fresh-IsValid refl refl refl
      run_early refl

close_races_enqueue_example : (t : Pool) × Reach (idle started empty_world) t × (t.crashed ≡ true)
unfolding start_async new_producer
close_races_enqueue_example =
    close_races_enqueue 50 one_batch started empty_world started-IsValid (λ e. cc) refl refl
      (omega arith)
