-- ===== src/Model.antt =====
-- model/model.go: log records and consumed messages. A `time.Time` is an instant, in nanoseconds
-- since a fixed origin, with the offset of its zone in seconds.
use log_forge.Prelude.{ℕ, Bool, Option, ◌==◌}
use log_forge.Prelude.Int.{ℤ, pos}
use log_forge.Text.{Text}
use log_forge.Errors.{Err}

pub record Time : Type 0 where
  -- Nanoseconds since 1 March of the year -400, before every instant that RFC 3339 can write.
  pub instant : ℕ
  pub offset : ℤ

-- 1 January of the year 1 in UTC, the zero `time.Time`.
abbrev pub zero_instant : ℕ
zero_instant = 12649219200000000000

-- `t.IsZero()`.
abbrev pub is_zero_time : Time → Bool
is_zero_time t = t.instant == zero_instant

-- `t.UTC()`: the same instant in the zone UTC.
abbrev pub utc : Time → Time
utc t = record { instant = t.instant; offset = pos 0 }

pub record LogRecord : Type 0 where
  pub timestamp : Time
  pub path : Text
  pub user_agent : Text

-- A consumed message. `commit` is the closure that acknowledges it, as the answer that the broker
-- gives when it is called; it is absent where the source has a nil function.
pub record ConsumedMessage : Type 0 where
  pub log_record : LogRecord
  pub partition : ℕ
  pub offset : ℕ
  pub commit : Option (Option Err)
