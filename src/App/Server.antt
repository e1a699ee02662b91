-- ===== src/App/Server.antt =====
-- backend/internal/api/services/server.go: serving until the context is cancelled.
use evictor.Prelude.{Option, none, some}

pub data ServerError : Type 0 where
  server_closed serve_failed shutdown_failed : ServerError

-- What the goroutine of `server.Serve` and the context do, as the `select` sees them: the server
-- returns first, or the context is cancelled, `server.Shutdown` returns, and then the server.
pub data Course : Type 0 where
  returns : (result : Option ServerError) → Course
  cancelled : (shutdown : Option ServerError) → (result : Option ServerError) → Course

unfoldable pub unless_closed : Option ServerError → Option ServerError
unless_closed (some server_closed) = none
unless_closed err = err

unfoldable pub serve : Course → Option ServerError
unfolding unless_closed
serve (returns result) = unless_closed result
serve (cancelled (some err) result) = some err
serve (cancelled none result) = unless_closed result
