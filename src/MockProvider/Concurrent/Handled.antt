-- ===== src/MockProvider/Concurrent/Handled.antt =====
-- A handler that nobody interrupts.
use evictor.Prelude.{String, [], ◌∷◌, ◌++◌}
use evictor.MockProvider.Store.{Store}
use evictor.MockProvider.Handlers.{Request, get_endpoint, post_invoke}
use evictor.MockProvider.Concurrent.{Work, reading, invoking, Flight, World}

abbrev pub request : Work → String → Request
request reading id = get_endpoint id
request (invoking random) id = post_invoke id random

abbrev pub with_last : World → Store → Flight → World
with_last w s f = record w { store = s; flights = w.flights ++ f ∷ [] }
