-- ===== src/Tests/HttpRuns.antt =====
-- Requests to the handler of internal/http/handler.go.
use log_forge.Prelude.{◌≡◌, ◌≢◌, ◌⊎◌, ◌↔◌, refl, true, false, All, some, none, [], ◌∷◌}
use log_forge.Text.{codes, trim_space, is_blank}
use log_forge.Errors.{done, failed, message}
use log_forge.Http.{
  Handler, Request, Process, RowTime, new_handler, with_api_key_auth, authorize, validate,
  handle_logs, decode_records, header_get, canonical_header_key, has_key, allowed_keys,
  reply_processed, validate_record,
}
use log_forge.Http.Validate.{is_done, IsComplete, normalize_all, validate_takes_iff}
use log_forge.Http.Replies.{
  status_of, retries, Accepted, handle_logs_accepts_iff, handle_logs_retry_iff,
}
use log_forge.Http.Keys.{presented, Among, authorize_iff}
use log_forge.Ingestion.{new_ingestion, process_batch}
use log_forge.Ingestion.Backends.{producer_service}
use log_forge.Tests.Samples.{empty_world, one_batch, refusing, memory}
use log_forge.Tests.IngestionRuns.{Service, direct}

-- The service as the handler reaches it.
abbrev process : Process Service
process timeout l i w = process_batch memory (producer_service 50 none refusing) 50 l i w

abbrev no_time : RowTime
no_time text = failed (message (codes "no time"))

abbrev with_key : Handler
with_key = with_api_key_auth true (codes "X-API-Key") (codes " secret " ∷ []) new_handler

abbrev post : Request
post = record {
  method = codes "POST";
  headers =
      (codes "Content-Type", codes "application/json") ∷ (codes "X-Api-Key", codes "secret ") ∷ [];
  json_records = done one_batch;
  json_ends = true;
  csv_rows = done [];
}

validate_takes_iff_example :
    ((is_done (validate one_batch) ≡ true) ↔ ((one_batch ≢ []) × All IsComplete one_batch))
    × (is_done (validate one_batch) ≡ true → validate one_batch ≡ done (normalize_all one_batch))
validate_takes_iff_example = validate_takes_iff one_batch

batch_taken : validate one_batch ≡ done (normalize_all one_batch)
unfolding is_blank
batch_taken =
    let taken = validate_takes_iff one_batch in
    taken.1 (taken.0.1 ((λ e. cc), ((refl, refl, refl), tt)))

authorize_iff_example : (authorize with_key post ≡ true) ↔ (
    (true ≡ false)
    ⊎ ((presented with_key post ≢ []) × Among (presented with_key post) (codes " secret " ∷ [])))
authorize_iff_example =
    authorize_iff true (codes "X-API-Key") (codes " secret " ∷ []) new_handler post

-- The configured name and the key are compared after trimming, and header names in canonical form.
key_accepted : authorize with_key post ≡ true
unfolding authorize with_api_key_auth new_handler trim_space header_get canonical_header_key has_key
    allowed_keys
key_accepted = refl

handle_logs_accepts_iff_example :
    (status_of (handle_logs process no_time 50 post with_key (some direct) empty_world).3
      ≡ some 202)
    ↔ Accepted process no_time post with_key (some direct) empty_world
handle_logs_accepts_iff_example =
    handle_logs_accepts_iff process no_time 50 post with_key (some direct) empty_world

accepted_post :
    status_of (handle_logs process no_time 50 post with_key (some direct) empty_world).3 ≡ some 202
unfolding handle_logs authorize with_api_key_auth new_handler process_batch new_ingestion
    decode_records header_get trim_space canonical_header_key has_key allowed_keys reply_processed
    validate_record is_blank
accepted_post = refl

handle_logs_retry_iff_example :
    let reply = (handle_logs process no_time 50 post with_key (some direct) empty_world).3 in
    (retries reply ≡ true) ↔ ((status_of reply ≡ some 429) ⊎ (status_of reply ≡ some 503))
handle_logs_retry_iff_example =
    handle_logs_retry_iff process no_time 50 post with_key (some direct) empty_world
