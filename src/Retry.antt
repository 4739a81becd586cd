-- ===== src/Retry.antt =====
-- util/retry.go: waiting between attempts, jitter, and the next delay. A `time.Duration` is an
-- int64 number of nanoseconds; sums and products wrap as Go's do.
pub mod Bounds
use log_forge.Prelude.{
  ℕ, ◌+◌, ◌*◌, ◌/◌, Bool, true, false, ◌||◌, Option, some, none, is_none, if◌then◌else◌,
}
use log_forge.Prelude.Int.{ℤ, pos, negsuc, ◌+ℤ◌, ◌-ℤ◌, ltb_ℤ, is_nonpos, pos_part, wrap_64}
use log_forge.Errors.{Err}

-- `time.Millisecond`.
abbrev pub millisecond : ℕ
millisecond = 1000000

-- `WaitForRetry`. `ctx_err` is `ctx.Err()` at the call, and `fires_first` says which of the two
-- channels of the `select` is received from: the timer's, or the context's. The result comes with the
-- duration of the timer, 0 where there is none.
unfoldable pub wait_for_retry : Option Err → Bool → ℤ → ℤ × Bool
wait_for_retry ctx_err fires_first d =
    if is_nonpos d then (pos 0, is_none ctx_err) else (d, fires_first)

-- `JitterRetryDelay`. The generator, where there is one, answers `Int63n n` by `rng n`.
unfoldable pub jitter_retry_delay : ℤ → Option (ℕ → ℕ) → ℤ
jitter_retry_delay base none = base
jitter_retry_delay base (some rng) =
    if is_nonpos base
    then base
    else (let max_jitter = pos_part base / 5 in
        if is_nonpos (pos max_jitter)
        then base
        else wrap_64 (base +ℤ (pos (rng (max_jitter * 2 + 1)) -ℤ pos max_jitter)))

-- `NextRetryDelay`.
unfoldable pub next_retry_delay : ℤ → ℤ → ℤ → ℤ
next_retry_delay current lo hi =
    let lo' = if is_nonpos lo then pos millisecond else lo in
    let hi' = if ltb_ℤ hi lo' then lo' else hi in
    if is_nonpos current
    then lo'
    else (let next = wrap_64 (current +ℤ current) in
        if ltb_ℤ hi' next || ltb_ℤ next current then hi' else next)
