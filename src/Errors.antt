-- ===== src/Errors.antt =====
-- Go's `error` values as the program makes and inspects them: the sentinels of service/producer.go,
-- service/ingestion.go and internal/http/handler.go and the two of package context, wrapping by
-- `%w`, and the errors of other packages (a network error, a body over its limit, any other text).
pub mod Cases
use log_forge.Prelude.{Bool, true, false, ◌++◌}
use log_forge.Text.{Text, codes}

-- The package-level error variables.
pub data Sentinel : Type 0 where
  producer_stopped producer_not_started queue_full producer_circuit_open : Sentinel
  ingestion_stopped producer_not_configured log_store_not_configured : Sentinel
  unsupported_content_type : Sentinel
  deadline_exceeded canceled : Sentinel

pub data Err : Type 0 where
  sentinel : Sentinel → Err
  -- A `net.Error`, with its `Timeout()`.
  net : Bool → Text → Err
  -- `*http.MaxBytesError`.
  max_bytes : Err
  -- Any other error, by its text.
  message : Text → Err
  -- `fmt.Errorf("...%w", err)`.
  wrap : Text → Err → Err
  -- `fmt.Errorf("%w: %s", err, text)`.
  annotate : Err → Text → Err

-- `==` on the error variables.
unfoldable pub same : Sentinel → Sentinel → Bool
same producer_stopped producer_stopped = true
same producer_not_started producer_not_started = true
same queue_full queue_full = true
same producer_circuit_open producer_circuit_open = true
same ingestion_stopped ingestion_stopped = true
same producer_not_configured producer_not_configured = true
same log_store_not_configured log_store_not_configured = true
same unsupported_content_type unsupported_content_type = true
same deadline_exceeded deadline_exceeded = true
same canceled canceled = true
same _ _ = false

-- `errors.Is(err, target)`: the chain of wrapped errors is searched.
unfoldable pub is : Err → Sentinel → Bool
unfolding same
is (sentinel s) t = same s t
is (wrap _ e) t = is e t
is (annotate e _) t = is e t
is _ _ = false

-- `errors.As(err, &maxBytesErr)`.
unfoldable pub is_max_bytes : Err → Bool
is_max_bytes max_bytes = true
is_max_bytes (wrap _ e) = is_max_bytes e
is_max_bytes (annotate e _) = is_max_bytes e
is_max_bytes _ = false

-- `errors.As(err, &netErr) && netErr.Timeout()`: the first `net.Error` of the chain decides.
-- `context.DeadlineExceeded` is one, and its `Timeout()` is true.
unfoldable pub is_net_timeout : Err → Bool
is_net_timeout (net timeout _) = timeout
is_net_timeout (sentinel deadline_exceeded) = true
is_net_timeout (wrap _ e) = is_net_timeout e
is_net_timeout (annotate e _) = is_net_timeout e
is_net_timeout _ = false

-- `err.Error()`. A wrapped error's text stands behind that of the wrapping.
unfoldable pub text_of : Err → Text
text_of (sentinel producer_stopped) = codes "producer stopped"
text_of (sentinel producer_not_started) = codes "producer not started"
text_of (sentinel queue_full) = codes "producer queue full"
text_of (sentinel producer_circuit_open) = codes "producer circuit open"
text_of (sentinel ingestion_stopped) = codes "ingestion service stopped"
text_of (sentinel producer_not_configured) = codes "producer not configured"
text_of (sentinel log_store_not_configured) = codes "log store not configured"
text_of (sentinel unsupported_content_type) = codes "unsupported content-type"
text_of (sentinel deadline_exceeded) = codes "context deadline exceeded"
text_of (sentinel canceled) = codes "context canceled"
text_of (net _ msg) = msg
text_of max_bytes = codes "http: request body too large"
text_of (message msg) = msg
text_of (wrap prefix e) = prefix ++ text_of e
text_of (annotate e t) = text_of e ++ (codes ": " ++ t)

-- A value or an error.
pub data Result (A : Type 0) : Type 0 where
  done : A → Result A
  failed : Err → Result A
