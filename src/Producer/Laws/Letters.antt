-- ===== src/Producer/Laws/Letters.antt =====
-- What a worker's round in service/producer.go puts into the queue and into the dead-letter files.
use log_forge.Prelude.{
  ℕ, ◌+◌, ◌/◌, ◌≡◌, refl, ap, ◌∙◌, true, false, Option, some, none, List, [], ◌∷◌, ◌++◌, arith, All,
  is_empty,
}
use log_forge.Prelude.Int.{pos}
use log_forge.Errors.{Err, text_of}
use log_forge.World.{
  World, set_ingestion_queue_depth, DlqPath, DlqContent, producer_batch, consumer_batch, same_path,
  write_file,
}
use log_forge.Producer.State.{Producer, Batch, close}
use log_forge.Producer.Publish.{
  Attempt, DlqAnswers, day_ns, try_enqueue_with_retry, write_producer_dlq, run_producer_round,
}
use log_forge.Producer.Enqueue.{enqueue_send}
use log_forge.Producer.Laws.Frame.{try_enqueue-dlq_dir}
use log_forge.Prelude.Weights.{weigh, weigh-append, weigh-cons, weigh-nil}
use log_forge.Producer.Laws.Posts.{Quiet, Posts, try_enqueue-Posts, enqueue_send-Quiet, close-Quiet}

-- The file that a dead batch goes to.
abbrev pub dlq_file : DlqAnswers → Producer → DlqPath
dlq_file a p = record {
  dir = p.dlq_dir;
  day = a.date_now / day_ns;
  by_producer = true;
  stamp = a.stamp_now;
}

-- A dead-letter file can be written for the producer: it has a directory, the calls succeed, and no file
-- has the name yet.
abbrev pub CanWrite : DlqAnswers → Producer → World → Type 0
CanWrite a p w =
    (is_empty p.dlq_dir ≡ false)
    × (a.mkdir_err ≡ none)
    × (a.marshal_err ≡ none)
    × (a.write_err ≡ none)
    × All (λ (f : DlqPath × DlqContent). same_path (dlq_file a p) f.0 ≡ false) w.dlq

pub write_file-new :
    (path : DlqPath) (c : DlqContent) (files : List (DlqPath × DlqContent))
    → All (λ (f : DlqPath × DlqContent). same_path path f.0 ≡ false) files
    → write_file path c files ≡ files ++ (path, c) ∷ []
unfolding write_file
write_file-new path c [] h = refl
write_file-new path c ((q, d) ∷ files) h =
    let rest = write_file-new path c files h.1 in let other = h.0 in ground arith

-- The batches in the dead-letter files of the producer.
unfoldable pub dead_letters : List (DlqPath × DlqContent) → List Batch
dead_letters [] = []
dead_letters ((q, producer_batch batch reason at) ∷ files) = batch ∷ dead_letters files
dead_letters ((q, consumer_batch entries) ∷ files) = dead_letters files

dead_letters-append :
    (xs ys : List (DlqPath × DlqContent))
    → dead_letters (xs ++ ys) ≡ dead_letters xs ++ dead_letters ys
unfolding dead_letters
dead_letters-append [] ys = refl
dead_letters-append ((q, producer_batch batch reason at) ∷ xs) ys =
    ap (λ (l : List Batch). batch ∷ l) (dead_letters-append xs ys)
dead_letters-append ((q, consumer_batch entries) ∷ xs) ys = dead_letters-append xs ys

write_producer_dlq-CanWrite :
    (a : DlqAnswers) (batch : Batch) (e : Err) (p : Producer) (w : World)
    → is_empty batch ≡ false
    → CanWrite a p w
    → let v = write_producer_dlq a batch e p w in
      (v.queued ≡ w.queued)
      × (v.dlq ≡ write_file (dlq_file a p) (producer_batch batch (text_of e) a.entry_now) w.dlq)
unfolding write_producer_dlq
write_producer_dlq-CanWrite a batch e p w full (dir, mkdir, marshal, write, fresh) =
    (ground arith, ground arith)

-- How a round ends once the batch was published or refused.
abbrev settle_round : DlqAnswers → Batch → Producer × World × Option Err → World
settle_round a batch (p, w, none) = w
settle_round a batch (p, w, some e) = write_producer_dlq a batch e p w

module _ (f : Batch → ℕ) where
  -- What the queue took and what the dead-letter files hold.
  abbrev pub out_of : World → ℕ
  out_of w = weigh f w.queued + weigh f (dead_letters w.dlq)

  write_producer_dlq-out_of :
      (a : DlqAnswers) (batch : Batch) (e : Err) (p : Producer) (w : World)
      → f [] ≡ 0
      → CanWrite a p w
      → out_of (write_producer_dlq a batch e p w) ≡ f batch + out_of w
  write_producer_dlq-out_of a [] e p w zero_f can =
      let same : write_producer_dlq a [] e p w ≡ w = unfold write_producer_dlq in ground arith in
      rw same (omega (arith, zero_f))
  write_producer_dlq-out_of a (x ∷ l) e p w zero_f can =
      let batch : Batch = x ∷ l in
      let (queued, dlq) = write_producer_dlq-CanWrite a batch e p w refl can in
      let c = producer_batch batch (text_of e) a.entry_now in
      let put = dlq ∙ write_file-new (dlq_file a p) c w.dlq can.4 in
      let letters : dead_letters ((dlq_file a p, c) ∷ []) ≡ batch ∷ [] =
        unfold dead_letters in refl in
      omega (
        arith,
        ap (weigh f) queued,
        ap (λ d. weigh f (dead_letters d)) put,
        ap (weigh f) (dead_letters-append w.dlq ((dlq_file a p, c) ∷ [])),
        ap (λ d. weigh f (dead_letters w.dlq ++ d)) letters,
        weigh-append f (dead_letters w.dlq) (batch ∷ []),
        weigh-cons f batch [],
        weigh-nil f,
      )

  Quiet-out_of : (w v : World) → Quiet w v → out_of v ≡ out_of w
  Quiet-out_of w v (queued, dlq) = cc

  settle_round-out_of :
      (a : DlqAnswers) (batch : Batch) (p : Producer) (w : World)
      (r : Producer × World × Option Err)
      → f [] ≡ 0
      → CanWrite a p w
      → r.0.dlq_dir ≡ p.dlq_dir
      → Posts batch w r.1 r.2
      → out_of (settle_round a batch r) ≡ f batch + out_of w
  settle_round-out_of a batch p w (q, u, none) zero_f can dir (queued, dlq) = omega (
    arith,
    ap (weigh f) queued,
    ap (λ d. weigh f (dead_letters d)) dlq,
    weigh-cons f batch w.queued,
  )
  settle_round-out_of a batch p w (q, u, some e) zero_f can dir (queued, dlq) =
      let there : CanWrite a q u = rw (dir, dlq) can in
      write_producer_dlq-out_of a batch e q u zero_f there
      ∙ ap (λ n. f batch + n) (Quiet-out_of w u (queued, dlq))

  round_end :
      (depth : ℕ) (a : DlqAnswers) (batch : Batch) (r : Producer × World × Option Err)
      → out_of (
          set_ingestion_queue_depth
            (pos depth)
            (elim r.2 [ none ↦ r.1 | some e ↦ write_producer_dlq a batch e r.0 r.1 ]))
        ≡ out_of (settle_round a batch r)
  unfolding set_ingestion_queue_depth
  round_end depth a batch (p, w, none) = refl
  round_end depth a batch (p, w, some e) = refl

  -- A worker's round on a batch puts it into the queue or into a new dead-letter file, and nothing else,
  -- if a dead-letter file can be written and `f` weighs the empty batch 0.
  pub run_producer_round-out_of :
      (depth depth' : ℕ) (env : ℕ → Attempt) (a : DlqAnswers) (batch : Batch) (p : Producer)
      (w : World)
      → f [] ≡ 0
      → CanWrite a p w
      → out_of (run_producer_round depth depth' env a batch p w).1 ≡ f batch + out_of w
  unfolding run_producer_round set_ingestion_queue_depth
  run_producer_round-out_of depth depth' env a batch p w zero_f can =
      let w0 = set_ingestion_queue_depth (pos depth) w in
      let posts = try_enqueue-Posts env batch p w0 in
      let dir = try_enqueue-dlq_dir env batch p w0 in
      let r = try_enqueue_with_retry env batch p w0 in
      let ends = settle_round-out_of a batch p w0 r zero_f can dir posts in
      round_end depth' a batch r ∙ ends

  pub enqueue_send-out_of :
      (batch : Batch) (p : Producer) (w : World) → out_of (enqueue_send batch p w).1 ≡ out_of w
  enqueue_send-out_of batch p w =
      Quiet-out_of w (enqueue_send batch p w).1 (enqueue_send-Quiet batch p w)

  pub close-out_of : (p : Producer) (w : World) → out_of (close p w).1 ≡ out_of w
  close-out_of p w = Quiet-out_of w (close p w).1 (close-Quiet p w)
