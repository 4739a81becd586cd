-- ===== src/Http/Replies.antt =====
-- Which reply the handler of internal/http/handler.go gives, and what it leaves alone.
use log_forge.Prelude.{
  ℕ, ◌≡◌, ◌↔◌, ◌⊎◌, inl, inr, refl, Bool, true, false, Option, none, some, List, arith,
  Option-cases, Bool-cases,
}
use log_forge.Text.{codes, text_eq}
use log_forge.Errors.{Err}
use log_forge.Errors.Cases.{Result-cases}
use log_forge.Model.{LogRecord}
use log_forge.World.{World}
use log_forge.Producer.{Return, ok, fail, panic}
use log_forge.Http.{
  Reply, respond, abort, Result, done, failed, Request, RowTime, Handler, Process, authorize,
  decode_records, header_get, reply_invalid, reply_failed, reply_processed, timeout_of, handle_logs,
}

-- The status of a reply.
abbrev pub status_of : Reply → Option ℕ
status_of (respond r) = some r.status
status_of abort = none

abbrev pub retries : Reply → Bool
retries (respond r) = r.retry_after
retries abort = false

invalid_status :
    (e : Err)
    → ((status_of (reply_invalid e) ≡ some 415)
        ⊎ ((status_of (reply_invalid e) ≡ some 413) ⊎ (status_of (reply_invalid e) ≡ some 400)))
      × (retries (reply_invalid e) ≡ false)
unfolding reply_invalid
invalid_status e = ground arith

failed_status :
    (now : ℕ) (e : Err) (h : Handler) (w : World)
    → let q = reply_failed now e h w in
      ((status_of q.2 ≡ some 500) × (retries q.2 ≡ false))
      ⊎ (((status_of q.2 ≡ some 429) ⊎ (status_of q.2 ≡ some 503)) × (retries q.2 ≡ true))
unfolding reply_failed
failed_status now e h w = ground arith

processed_ok :
    (now : ℕ) (r : Return) (h : Handler) (w : World)
    → (status_of (reply_processed now r h w).2 ≡ some 202) ↔ (r ≡ ok)
unfolding reply_processed
processed_ok now ok h w = (λ e. refl, λ e. refl)
processed_ok now (fail e) h w = (λ s. ground (arith, failed_status now e h w), λ s. cc)
processed_ok now panic h w = (λ e. cc, λ e. cc)

module _ {I : Type 0} (process : Process I) (parse : RowTime) where
  -- The decoded records of a request, by its Content-Type.
  abbrev records_of : Request → Result (List LogRecord)
  records_of r = decode_records parse (header_get (codes "Content-Type") r.headers) r

  -- What the handler asks of a request before the service is called, with the decoded records.
  abbrev pub Passes : Request → Handler → List LogRecord → Type 0
  Passes r h records =
      (text_eq r.method (codes "POST") ≡ true)
      × (authorize h r ≡ true)
      × (records_of r ≡ done records)

  -- The ways through the handler.
  data Way (r : Request) (h : Handler) (ingestion : Option I) : Type 0 where
    wrong_method : text_eq r.method (codes "POST") ≡ false → Way r h ingestion
    denied : text_eq r.method (codes "POST") ≡ true → authorize h r ≡ false → Way r h ingestion
    absent :
        text_eq r.method (codes "POST") ≡ true
        → authorize h r ≡ true
        → ingestion ≡ none
        → Way r h ingestion
    invalid :
        (i : I) (e : Err)
        → text_eq r.method (codes "POST") ≡ true
        → authorize h r ≡ true
        → ingestion ≡ some i
        → records_of r ≡ failed e
        → Way r h ingestion
    processed :
        (i : I) (records : List LogRecord)
        → ingestion ≡ some i
        → Passes r h records
        → Way r h ingestion

  way : (r : Request) (h : Handler) (ingestion : Option I) → Way r h ingestion
  way r h ingestion = elim (Bool-cases (text_eq r.method (codes "POST"))) [
    | inr other ↦ wrong_method other
    | inl post ↦ elim (Bool-cases (authorize h r)) [
      | inr refused ↦ denied post refused
      | inl auth ↦ elim (Option-cases ingestion) [
        | inl gone ↦ absent post auth gone
        | inr (i, here) ↦ elim (Result-cases (records_of r)) [
          | inr (e, bad) ↦ invalid i e post auth here bad
          | inl (records, decoded) ↦ processed i records here (post, auth, decoded)
        ]
      ]
    ]
  ]

  -- What each way returns: the handler, the service and the reply.
  abbrev Outcome :
      {r : Request} {h : Handler} {ingestion : Option I}
      → ℕ
      → World
      → Handler × Option I × World × Reply
      → Way r h ingestion
      → Type 0
  Outcome {h = h} {ingestion = s} now w q (wrong_method _) =
      (q.0 ≡ h) × (q.1 ≡ s) × (status_of q.3 ≡ some 405) × (retries q.3 ≡ false)
  Outcome {h = h} {ingestion = s} now w q (denied _ _) =
      (q.0 ≡ h) × (q.1 ≡ s) × (status_of q.3 ≡ some 401) × (retries q.3 ≡ false)
  Outcome {h = h} {ingestion = s} now w q (absent _ _ _) =
      (q.0 ≡ h) × (q.1 ≡ s) × (status_of q.3 ≡ some 503) × (retries q.3 ≡ true)
  Outcome {h = h} {ingestion = s} now w q (invalid i e _ _ _ _) =
      (q.0 ≡ h) × (q.1 ≡ s) × (q.3 ≡ reply_invalid e)
  Outcome {h = h} {ingestion = s} now w q (processed i records _ _) =
      let (i', w', result) = process (timeout_of h) records i w in
      q.3 ≡ (reply_processed now result h w').2

  outcome :
      (now : ℕ) (r : Request) (h : Handler) (ingestion : Option I) (w : World)
      (by_way : Way r h ingestion)
      → Outcome now w (handle_logs process parse now r h ingestion w) by_way
  unfolding handle_logs
  outcome now r h s w (wrong_method a) = ground arith
  outcome now r h s w (denied a b) = ground arith
  outcome now r h s w (absent a b c) = ground arith
  outcome now r h s w (invalid i e a b c d) = ground arith
  outcome now r h s w (processed i records here (a, b, c)) = ground arith

  -- What a 202 stands for.
  abbrev pub Accepted : Request → Handler → Option I → World → Type 0
  Accepted r h ingestion w =
      (i : I) × (records : List LogRecord) × (ingestion ≡ some i)
      × Passes r h records
      × ((process (timeout_of h) records i w).2 ≡ ok)

  accepted :
      (now : ℕ) (r : Request) (h : Handler) (ingestion : Option I) (w : World)
      → Way r h ingestion
      → status_of (handle_logs process parse now r h ingestion w).3 ≡ some 202
      → Accepted r h ingestion w
  accepted now r h s w (wrong_method a) e = ground (arith, (outcome now r h s w (wrong_method a)).2)
  accepted now r h s w (denied a b) e = ground (arith, (outcome now r h s w (denied a b)).2)
  accepted now r h s w (absent a b c) e = ground (arith, (outcome now r h s w (absent a b c)).2)
  accepted now r h s w (invalid i x a b c d) e =
      let same = (outcome now r h s w (invalid i x a b c d)).2 in
      ground (arith, rw same at e, (invalid_status x).0)
  accepted now r h s w (processed i records here pass) e =
      let same = outcome now r h s w (processed i records here pass) in
      let q = process (timeout_of h) records i w in
      (i, records, here, pass, (processed_ok now q.2 h q.1).0 (rw same at e))

-- A request is answered by status 202 exactly when its method is POST, it is authorized, there is a
-- service, its body decodes to some records, and ProcessBatch returns no error for these records.
pub handle_logs_accepts_iff :
    {I : Type 0} (process : Process I) (parse : RowTime) (now : ℕ) (r : Request) (h : Handler)
    (ingestion : Option I) (w : World)
    → (status_of (handle_logs process parse now r h ingestion w).3 ≡ some 202)
      ↔ Accepted process parse r h ingestion w
handle_logs_accepts_iff process parse now r h s w =
    (accepted process parse now r h s w (way process parse r h s), sound)
  where
    sound :
        Accepted process parse r h s w
        → status_of (handle_logs process parse now r h s w).3 ≡ some 202
    sound (i, records, here, pass, success) =
        let same = outcome process parse now r h s w (processed i records here pass) in
        let q = process (timeout_of h) records i w in
        rw same ((processed_ok now q.2 h q.1).1 success)

retries_failed :
    (now : ℕ) (r : Return) (h : Handler) (w : World)
    → let reply = (reply_processed now r h w).2 in
      (retries reply ≡ true) ↔ ((status_of reply ≡ some 429) ⊎ (status_of reply ≡ some 503))
unfolding reply_processed
retries_failed now ok h w = ground arith
retries_failed now (fail e) h w = ground (arith, failed_status now e h w)
retries_failed now panic h w = ground arith

-- A reply asks the client to come back, by Retry-After, exactly when its status is 429 or 503.
pub handle_logs_retry_iff :
    {I : Type 0} (process : Process I) (parse : RowTime) (now : ℕ) (r : Request) (h : Handler)
    (ingestion : Option I) (w : World)
    → let reply = (handle_logs process parse now r h ingestion w).3 in
      (retries reply ≡ true) ↔ ((status_of reply ≡ some 429) ⊎ (status_of reply ≡ some 503))
handle_logs_retry_iff process parse now r h s w = go (way process parse r h s)
  where
    go :
        Way process parse r h s
        → let reply = (handle_logs process parse now r h s w).3 in
          (retries reply ≡ true) ↔ ((status_of reply ≡ some 429) ⊎ (status_of reply ≡ some 503))
    go (wrong_method a) = ground (arith, outcome process parse now r h s w (wrong_method a))
    go (denied a b) = ground (arith, outcome process parse now r h s w (denied a b))
    go (absent a b c) = ground (arith, outcome process parse now r h s w (absent a b c))
    go (invalid i x a b c d) =
        rw ((outcome process parse now r h s w (invalid i x a b c d)).2)
          (ground (arith, invalid_status x))
    go (processed i records here pass) =
        let q = process (timeout_of h) records i w in
        rw (outcome process parse now r h s w (processed i records here pass))
          (retries_failed now q.2 h q.1)
