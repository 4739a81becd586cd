-- ===== src/Consumer/Sink/Stores.antt =====
-- Where the messages of the batch writer of service/consumer.go are at any time.
use log_forge.Prelude.{
  ℕ, ◌+◌, ◌≡◌, ◌⊎◌, Bool, Bool-cases, refl, ap, none, some, List, [], ◌∷◌, ◌++◌, map, length, arith,
  Option-cases, inl, inr,
}
use log_forge.Prelude.Int.{ℤ, pos, ◌<ℤ◌, leb_ℤ}
use log_forge.Prelude.Weights.{weigh, weigh-append, weigh-cons, weigh-nil, weigh-middle, weigh-map}
use log_forge.Model.{LogRecord, ConsumedMessage}
use log_forge.World.{World}
use log_forge.Producer.Publish.{DlqAnswers}
use log_forge.Ingestion.{RepositoryOps}
use log_forge.Consumer.{
  ConsumerBatchConfig, Writer, new_writer, append_pending, take_pending, persist,
}
use log_forge.Consumer.Sink.Recording.{Recorded, recording, unrecorded}
use log_forge.Consumer.Sink.{
  Sink, idle, with_batch, appended, drained, persisted, Step, enter, append, tick, save, cancel,
  sweep, Reach, here, next, added_at, added,
}

-- The parts of a writer that persisting leaves alone.
abbrev pub settings : {R : Type 0} → Writer R → List ConsumedMessage × Bool × ℤ
settings wr = (wr.pending, wr.ctx_done, wr.flush_size)

module _ {R : Type 0} (repository : RepositoryOps R) where
  pub persist_gives :
      (a : DlqAnswers) (m : ConsumedMessage) (batch : List ConsumedMessage)
      (wr : Writer (Recorded R)) (w : World)
      → let q = (persist (recording repository) a (m ∷ batch) wr w).0 in
        (settings q ≡ settings wr)
        × (q.repo.given ≡ map (λ (x : ConsumedMessage). x.log_record) (m ∷ batch) ∷ wr.repo.given)
  unfolding persist recording
  persist_gives a m batch wr w =
      let l = map (λ (x : ConsumedMessage). x.log_record) (m ∷ batch) in
      elim (Option-cases (repository.save_batch l wr.repo.repo w).2) [
        | inl h ↦ (ground arith, ground arith)
        | inr (e, h) ↦ (ground arith, ground arith)
      ]

-- What an append does: the batch is full and drained, or there is room left.
append_pending_cases :
    {R : Type 0} (msg : ConsumedMessage) (wr : Writer R)
    → let all = wr.pending ++ msg ∷ [] in
      let r = append_pending msg wr in
      (settings r.0 ≡ ([], wr.ctx_done, wr.flush_size)) × (r.0.repo ≡ wr.repo) × (r.1 ≡ some all)
      ⊎ (settings r.0 ≡ (all, wr.ctx_done, wr.flush_size))
        × (r.0.repo ≡ wr.repo)
        × (r.1 ≡ none)
        × (pos (length all) <ℤ wr.flush_size)
unfolding append_pending
append_pending_cases msg wr =
    let all = wr.pending ++ msg ∷ [] in
    elim (Bool-cases (leb_ℤ wr.flush_size (pos (length all)))) [
      | inl full ↦ inl (ground arith, ground arith, ground arith)
      | inr room ↦ inr (ground arith, ground arith, ground arith, ground arith)
    ]

-- The batch stays below its size.
abbrev pub IsSmall : {R : Type 0} → Writer R → Type 0
IsSmall wr = (pos 0 <ℤ wr.flush_size) × (pos (length wr.pending) <ℤ wr.flush_size)

drained-IsSmall : {R : Type 0} (s : Sink R) → IsSmall s.writer → IsSmall (drained s).writer
unfolding drained take_pending
drained-IsSmall s (positive, small) = (positive, positive)

module _ (f : LogRecord → ℕ) where
  -- A message weighs what its record weighs.
  abbrev pub of_message : ConsumedMessage → ℕ
  of_message m = f m.log_record

  -- What is pending, drained and given to the repository.
  abbrev held : {R : Type 0} → Sink (Recorded R) → ℕ
  held s =
      weigh of_message s.writer.pending
      + weigh (weigh of_message) s.batches
      + weigh (weigh f) s.writer.repo.given

  held-persisted :
      {R : Type 0} (repository : RepositoryOps R) (a : DlqAnswers)
      (before : List (List ConsumedMessage)) (batch : List ConsumedMessage)
      (after : List (List ConsumedMessage)) (s : Sink (Recorded R))
      → s.batches ≡ before ++ batch ∷ after
      → let t = persisted (recording repository) a batch (before ++ after) s in
        (held t ≡ held s) × (settings t.writer ≡ settings s.writer)
  unfolding persisted persist
  held-persisted repository a before [] after s at_hand = (
    omega (
      arith,
      ap (weigh (weigh of_message)) at_hand,
      weigh-middle (weigh of_message) before [] after,
      weigh-nil of_message,
    ),
    refl,
  )
  held-persisted repository a before (m ∷ batch) after s at_hand =
      let (same, given) = persist_gives repository a m batch s.writer s.world in
      let l = map (λ (x : ConsumedMessage). x.log_record) (m ∷ batch) in
      (
        omega (
          arith,
          ap (λ x. weigh of_message x.0) same,
          ap (weigh (weigh f)) given,
          weigh-cons (weigh f) l s.writer.repo.given,
          weigh-map f (λ (x : ConsumedMessage). x.log_record) (m ∷ batch),
          ap (weigh (weigh of_message)) at_hand,
          weigh-middle (weigh of_message) before (m ∷ batch) after,
        ),
        same,
      )

  held-drained : {R : Type 0} (s : Sink (Recorded R)) → held (drained s) ≡ held s
  unfolding drained take_pending
  held-drained s =
      omega (arith, weigh-cons (weigh of_message) s.writer.pending s.batches, weigh-nil of_message)

  held-appended :
      {R : Type 0} (msg : ConsumedMessage) (rest : List ConsumedMessage) (s : Sink (Recorded R))
      → IsSmall s.writer
      → let t = appended msg rest s in (held t ≡ of_message msg + held s) × IsSmall t.writer
  unfolding appended
  held-appended msg rest s (positive, small) =
      let all = s.writer.pending ++ msg ∷ [] in
      let sum = weigh-append of_message s.writer.pending (msg ∷ []) in
      let one = weigh-cons of_message msg [] in
      elim (append_pending_cases msg s.writer) [
        | inl (parts, repo, full) ↦ (
          omega (
            arith,
            ap (λ x. weigh of_message x.0) parts,
            ap (λ x. weigh (weigh f) x.given) repo,
            ap (λ b. weigh (weigh of_message) (with_batch b s.batches)) full,
            weigh-cons (weigh of_message) all s.batches,
            sum,
            one,
            weigh-nil of_message,
          ),
          ground (arith, ap (λ x. x.2) parts, ap (λ x. x.0) parts),
        )
        | inr (parts, repo, more, room) ↦ (
          omega (
            arith,
            ap (λ x. weigh of_message x.0) parts,
            ap (λ x. weigh (weigh f) x.given) repo,
            ap (λ b. weigh (weigh of_message) (with_batch b s.batches)) more,
            sum,
            one,
            weigh-nil of_message,
          ),
          ground (arith, ap (λ x. x.2) parts, ap (λ x. x.0) parts),
        )
      ]

  module _ {R : Type 0} (repository : RepositoryOps R) where
    Step-held :
        {s t : Sink (Recorded R)} (step : Step (recording repository) s t)
        → IsSmall s.writer
        → (held t ≡ weigh of_message (added_at (recording repository) step) + held s)
          × IsSmall t.writer
    Step-held {s} (enter msg live e) v = rw e (omega (arith, weigh-nil of_message), v)
    Step-held {s} (append before msg after at_hand e) v =
        let (more, small) = held-appended msg (before ++ after) s v in
        rw e (omega (arith, more, weigh-cons of_message msg [], weigh-nil of_message), small)
    Step-held {s} (tick live e) v =
        rw e (omega (arith, held-drained s, weigh-nil of_message), drained-IsSmall s v)
    Step-held {s} (save a before batch after at_hand e) v =
        let (same, kept) = held-persisted repository a before batch after s at_hand in
        rw e (
          omega (arith, same, weigh-nil of_message),
          ground (arith, ap (λ x. x.2) kept, ap (λ x. x.0) kept),
        )
    Step-held {s} (cancel e) v = rw e (omega (arith, weigh-nil of_message), v)
    Step-held {s} (sweep dead live e) v =
        rw e (omega (arith, held-drained s, weigh-nil of_message), drained-IsSmall s v)

    Reach-held :
        {s t : Sink (Recorded R)} (r : Reach (recording repository) s t)
        → IsSmall s.writer
        → (held t ≡ weigh of_message (added (recording repository) r) + held s) × IsSmall t.writer
    Reach-held here v = (omega (arith, weigh-nil of_message), v)
    Reach-held (next r step) v =
        let (sum, small) = Reach-held r v in
        let (more, small') = Step-held step small in
        (
          omega (
            arith,
            sum,
            more,
            weigh-append of_message (added_at (recording repository) step)
                (added (recording repository) r),
          ),
          small',
        )

    -- A writer made with any configuration, through any steps of the calls of Add, the flush loop, Close
    -- and the batches that are persisted, whatever the repository and the file system answer: every
    -- record whose message was appended is pending, in a batch that is not persisted yet, or was given
    -- to the repository, counted as often as it was appended, and nothing else was given to it (the
    -- equation holds for every weight `f` of records). The pending batch is smaller than the batch size.
    pub sink_conserves :
        (repo : R) (cfg : ConsumerBatchConfig) (w : World) {t : Sink (Recorded R)}
        → (r : Reach (recording repository) (idle (new_writer (unrecorded repo) cfg) w) t)
        → (weigh of_message (added (recording repository) r)
            ≡ weigh of_message t.writer.pending
              + weigh (weigh of_message) t.batches
              + weigh (weigh f) t.writer.repo.given)
          × (pos (length t.writer.pending) <ℤ t.writer.flush_size)
    unfolding idle new_writer
    sink_conserves repo cfg w r =
        let (sum, small) = Reach-held r (ground arith, ground arith) in
        let nothing : weigh of_message [] + weigh (weigh of_message) [] + weigh (weigh f) [] ≡ 0 =
          omega (arith, weigh-nil of_message, weigh-nil (weigh of_message), weigh-nil (weigh f)) in
        let begins : held (idle (new_writer (unrecorded repo) cfg) w) ≡ 0 = nothing in
        (omega (arith, sum, begins), small.1)
