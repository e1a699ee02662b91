-- ===== src/Logging.antt =====
-- backend/internal/logging/logging.go: which handler of slog a logger has.
use evictor.Prelude.{ℕ, Bool, leb}
use evictor.Config.{Environment, production, development, Level, debug, info, warn, error}

pub data Format : Type 0 where
  json text : Format

-- `slog.Logger`, as far as `HandlerOptions` sets it up.
pub record Logger : Type 0 where
  pub format : Format
  pub level : Level

unfoldable pub new : Environment → Level → Logger
new production level = record { format = json; level = level }
new development level = record { format = text; level = level }

-- The order of slog's levels.
abbrev pub severity : Level → ℕ
severity debug = 0
severity info = 1
severity warn = 2
severity error = 3

-- A handler leaves out the records below its level.
unfoldable pub enabled : Logger → Level → Bool
enabled logger level = leb (severity logger.level) (severity level)
