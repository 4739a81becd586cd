-- ===== src/Queue/Connect.antt =====
-- When CheckConnectivity of internal/queue/kafka_queue.go finds a broker.
use log_forge.Prelude.{
  ◌≡◌, ◌≢◌, ◌↔◌, inl, inr, refl, ap, ◌∙◌, Option, none, some, List, [], ◌∷◌, ◌++◌, All, arith, map,
  Option-cases,
}
use log_forge.Text.{Text}
use log_forge.Errors.{Err}
use log_forge.World.{World}
use log_forge.Queue.{KafkaQueue, dial_brokers, check_connectivity}

module _ (answers : Text → Option Err × Option Err) where
  -- The context is not done, and the broker refuses or accepts the connection.
  abbrev pub Refuses : Text → Type 0
  Refuses broker = ((answers broker).0 ≡ none) × ((answers broker).1 ≢ none)

  abbrev pub Accepts : Text → Type 0
  Accepts broker = ((answers broker).0 ≡ none) × ((answers broker).1 ≡ none)

  -- The first broker that does not refuse accepts.
  abbrev pub Finds : List Text → Type 0
  Finds brokers =
      (before : List Text) × (broker : Text) × (after : List Text) × (brokers
        ≡ before ++ broker ∷ after)
      × All Refuses before
      × Accepts broker

  dial_stopped :
      (b : Text) (l : List Text) (last : Option Err) (q : KafkaQueue) (w : World) (e : Err)
      → (answers b).0 ≡ some e
      → (dial_brokers (map answers (b ∷ l)) last q w).2 ≡ some e
  unfolding dial_brokers
  dial_stopped b l last q w e h = ground arith

  dial_refused :
      (b : Text) (l : List Text) (last : Option Err) (q : KafkaQueue) (w : World) (e : Err)
      → (answers b).0 ≡ none
      → (answers b).1 ≡ some e
      → dial_brokers (map answers (b ∷ l)) last q w ≡ dial_brokers (map answers l) (some e) q w
  unfolding dial_brokers
  dial_refused b l last q w e h g = ground arith

  dial_accepted :
      (b : Text) (l : List Text) (last : Option Err) (q : KafkaQueue) (w : World)
      → Accepts b
      → (dial_brokers (map answers (b ∷ l)) last q w).2 ≡ none
  unfolding dial_brokers
  dial_accepted b l last q w (h, g) = ground arith

  dial_brokers-Finds :
      (l : List Text) (last : Option Err) (q : KafkaQueue) (w : World)
      → (dial_brokers (map answers l) last q w).2 ≡ none
      → Finds l
  unfolding dial_brokers
  dial_brokers-Finds [] none q w h = ground arith
  dial_brokers-Finds [] (some e) q w h = ground arith
  dial_brokers-Finds (b ∷ l) last q w h = elim (Option-cases (answers b).0) [
    | inr (e, stop) ↦ elim (some_not_none e (cc (dial_stopped b l last q w e stop, h))) [ ]
    | inl alive ↦ elim (Option-cases (answers b).1) [
      | inl ok ↦ ([], b, l, refl, tt, (alive, ok))
      | inr (e, refused) ↦
          let same = dial_refused b l last q w e alive refused in
          let (before, c, after, split, others, found) =
            dial_brokers-Finds l (some e) q w (cc (same, h)) in
          (
            b ∷ before,
            c,
            after,
            ap (λ (t : List Text). b ∷ t) split,
            ((alive, λ n. cc (refused, n)), others),
            found,
          )
    ]
  ]
    where
      some_not_none : (e : Err) → some e ≢ none
      some_not_none e h = ground arith

  dial_reaches :
      (before : List Text) (b : Text) (after : List Text) (last : Option Err) (q : KafkaQueue)
      (w : World)
      → All Refuses before
      → Accepts b
      → (dial_brokers (map answers (before ++ b ∷ after)) last q w).2 ≡ none
  dial_reaches [] b after last q w others found = dial_accepted b after last q w found
  dial_reaches (x ∷ before) b after last q w ((alive, refused), others) found =
      elim (Option-cases (answers x).1) [
        | inl ok ↦ absurd (refused ok)
        | inr (e, h) ↦
            let later = dial_reaches before b after (some e) q w others found in
            rw (dial_refused x (before ++ b ∷ after) last q w e alive h) later
      ]

  no_broker : (before : List Text) (b : Text) (after : List Text) → [] ≢ before ++ b ∷ after
  no_broker [] b after e = cc
  no_broker (x ∷ before) b after e = cc

  check_some :
      (q : KafkaQueue) (w : World) (b : Text) (l : List Text)
      → q.brokers ≡ b ∷ l
      → check_connectivity answers q w ≡ dial_brokers (map answers (b ∷ l)) none q w
  unfolding check_connectivity
  check_some q w b l h = ground arith

  check_none :
      (q : KafkaQueue) (w : World) → q.brokers ≡ [] → (check_connectivity answers q w).2 ≢ none
  unfolding check_connectivity
  check_none q w h e = ground arith

  check_brokers :
      (l : List Text) (q : KafkaQueue) (w : World)
      → q.brokers ≡ l
      → ((check_connectivity answers q w).2 ≡ none) ↔ Finds l
  check_brokers [] q w h = (
    (λ e. absurd (check_none q w h e)),
    λ (before, b, after, split, others, found). absurd (no_broker before b after split),
  )
  check_brokers (x ∷ l) q w h = rw (check_some q w x l h) (
    (λ e. dial_brokers-Finds (x ∷ l) none q w e),
    λ (before, b, after, split, others, found).
        ap (λ (t : List Text). (dial_brokers (map answers t) none q w).2) split
        ∙ dial_reaches before b after none q w others found,
  )

  -- CheckConnectivity returns no error exactly when some configured broker accepts a connection,
  -- each one before it refused, and the context was not done before any of these dials.
  pub check_connectivity_iff :
      (q : KafkaQueue) (w : World) → ((check_connectivity answers q w).2 ≡ none) ↔ Finds q.brokers
  check_connectivity_iff q w = check_brokers q.brokers q w refl
