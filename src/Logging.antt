-- ===== src/Logging.antt =====
-- pkg/logger/logger.go: the logger of a context. `new_json` is `slog.New` over
-- `slog.NewJSONHandler` on the standard output, which answers the address of a new logger.
use notification_system.Base.{ℕ, Option, some}
use notification_system.Values.{Key, logger_key, Value, logger_at, Values, with_value, value}

-- `slog.Level`, of which one is used.
pub data Level : Type 0 where
  level_info : Level

pub record Slog (W : Type 0) : Type 0 where
  pub new_json : Level → W → ℕ × W

abbrev pub context_logger_key : Key
context_logger_key = logger_key "logger"

unfoldable pub with_context : Values → ℕ → Values
with_context c l = with_value c context_logger_key (logger_at l)

module _ {W : Type 0} (slog : Slog W) where
  unfoldable pub new : W → ℕ × W
  new w = slog.new_json level_info w

  -- The assertion of the type `*slog.Logger` on what was found.
  unfoldable pub asserted : Option Value → W → ℕ × W
  asserted (some (logger_at l)) w = (l, w)
  asserted _ w = new w

  unfoldable pub from_context : Values → W → ℕ × W
  from_context c w = asserted (value c context_logger_key) w
