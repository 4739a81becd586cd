-- ===== src/Http.antt =====
-- internal/http/handler.go: the handler of POST /logs. Package net/http hands over the request, and
-- packages encoding/json, encoding/csv and time the results of their decoders, as fields of the
-- request; what the handler does with them is here. The ingestion service is reached through one
-- operation, which service/ingestion.go fills.
mod Decode
mod Auth
pub mod Validate
pub mod Replies
pub mod Keys
unfoldable pub use Decode.{decode_json, decode_csv, decode_records, validate, validate_record}
pub use Decode.{Result, done, failed, Request, RowTime}
pub use Auth.{Handler, default_auth_header_name}
unfoldable pub use Auth.{
  new_handler, with_request_timeout, with_api_key_auth, allowed_keys, has_key, header_get,
  canonical_header_key, authorize,
}
use log_forge.Prelude.{
  ℕ, ◌+◌, ◌*◌, Bool, true, false, not, ◌||◌, Option, none, some, List, if◌then◌else◌, ltb,
}
use log_forge.Prelude.Int.{ℤ, is_pos}
use log_forge.Text.{Text, codes, text_eq}
use log_forge.Errors.{
  Err, is, is_max_bytes, text_of, unsupported_content_type, queue_full, producer_not_started,
  producer_stopped, producer_circuit_open, ingestion_stopped, producer_not_configured,
  log_store_not_configured, deadline_exceeded, canceled,
}
use log_forge.Model.{LogRecord}
use log_forge.World.{World, warn, error, log_line, inc_invalid_requests}
use log_forge.Producer.{Return, ok, fail, panic}

pub record Response : Type 0 where
  pub status : ℕ
  pub body : Text
  -- Whether the headers `Allow: POST` and `Retry-After: 1` are set.
  pub allow : Bool
  pub retry_after : Bool

-- A handler that panics gives no response of its own.
pub data Reply : Type 0 where
  respond : Response → Reply
  abort : Reply

-- `http.Error` with no header set before, with `Allow`, and with `Retry-After`.
abbrev plain : ℕ → Text → Reply
plain status body =
    respond (record { status = status; body = body; allow = false; retry_after = false })

abbrev try_again : ℕ → Text → Reply
try_again status body =
    respond (record { status = status; body = body; allow = false; retry_after = true })

-- The reply to a body that could not be decoded.
unfoldable pub reply_invalid : Err → Reply
unfolding is is_max_bytes text_of
reply_invalid e =
    if is e unsupported_content_type
    then plain 415 (text_of e)
    else if is_max_bytes e
    then plain 413 (codes "request body too large")
    else plain 400 (text_of e)

-- The errors that the handler answers by "service unavailable".
unfoldable pub is_unavailable : Err → Bool
unfolding is
is_unavailable e =
    is e producer_not_started
    || is e producer_stopped
    || is e producer_circuit_open
    || is e ingestion_stopped
    || is e producer_not_configured
    || is e log_store_not_configured
    || is e deadline_exceeded
    || is e canceled

-- `logTransientProcessError` at the clock reading `now`, with no concurrent call in between.
unfoldable pub log_transient_process_error : ℕ → Handler → World → Handler × World
unfolding log_line
log_transient_process_error now h w =
    if ltb now (h.last_transient_log_ns + 5 * 1000000000) then (h, w) else (
      record h { last_transient_log_ns = now },
      log_line warn "transient /logs processing issue" w,
    )

-- The reply to an error of ProcessBatch, and its logging.
unfoldable pub reply_failed : ℕ → Err → Handler → World → Handler × World × Reply
unfolding log_transient_process_error is_unavailable log_line is
reply_failed now e h w =
    if is e queue_full
    then (let (h', w') = log_transient_process_error now h w in
        (h', w', try_again 429 (codes "queue full")))
    else if is_unavailable e
    then (let (h', w') = log_transient_process_error now h w in
        (h', w', try_again 503 (codes "service unavailable")))
    else (h, log_line error "failed to process logs" w, plain 500 (codes "failed to process logs"))

-- What follows ProcessBatch.
unfoldable pub reply_processed : ℕ → Return → Handler → World → Handler × World × Reply
unfolding reply_failed
reply_processed now ok h w = (h, w, plain 202 (codes ""))
reply_processed now (fail e) h w = reply_failed now e h w
reply_processed now panic h w = (h, w, abort)

-- `IngestionService.ProcessBatch` over the service's state `I`, with the timeout that the handler
-- puts on the request's context, if any.
abbrev pub Process : Type 0 → Type 0
Process I = Option ℤ → List LogRecord → I → World → I × World × Return

-- The timeout of `ingestCtx`.
abbrev pub timeout_of : Handler → Option ℤ
timeout_of h = if is_pos h.request_timeout then some h.request_timeout else none

-- `handleLogs`; `now` is the clock reading of its logging.
module _ {I : Type 0} (process : Process I) (parse : RowTime) where
  unfoldable pub handle_logs :
      ℕ → Request → Handler → Option I → World → Handler × Option I × World × Reply
  handle_logs now r h ingestion w =
      if not (text_eq r.method (codes "POST"))
      then (
        h,
        ingestion,
        w,
        respond (record {
          status = 405;
          body = codes "method not allowed";
          allow = true;
          retry_after = false;
        }),
      )
      else if not (authorize h r)
      then (h, ingestion, w, plain 401 (codes "unauthorized"))
      else elim ingestion [
        | none ↦ (h, none, w, try_again 503 (codes "service unavailable"))
        | some i ↦ elim (decode_records parse (header_get (codes "Content-Type") r.headers) r) [
          | failed e ↦ (h, some i, inc_invalid_requests w, reply_invalid e)
          | done records ↦
              let (i', w', result) = process (timeout_of h) records i w in
              let (h', w'', reply) = reply_processed now result h w' in (h', some i', w'', reply)
        ]
      ]
