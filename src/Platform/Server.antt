-- ===== src/Platform/Server.antt =====
-- internal/platform/httpx/server.go: the life of an HTTP server. Its calls of the server and of the
-- channel that the serving goroutine reports to are kept in the order in which they are made.
use uban_z.Prelude.{ℕ, List, [], ◌∷◌, ◌++◌, Option, none, some, if◌then◌else◌, ◌≡◌, refl}
use uban_z.Booking.Domain.{Error, other, errors_is}

-- http.ErrServerClosed.
abbrev pub server_closed : Error
server_closed = other "http: Server closed"

pub data Call : Type 0 where
  starts_serving : Call
  shuts_down : ℕ → Call
  closes : Call
  waits_for_serving : Call

-- What the `select` meets: `serve` has returned, or the context is cancelled.
pub data Wake : Type 0 where
  served : Option Error → Wake
  cancelled : Wake

-- `if errors.Is(err, http.ErrServerClosed) { return nil }; return err`.
abbrev serve_result : Option Error → Option Error
serve_result none = none
serve_result (some e) = if errors_is e server_closed then none else some e

abbrev close_if : Option Error → List Call
close_if none = []
close_if (some e) = closes ∷ []

abbrev after_wake : ℕ → Option Error → Wake → Option Error × List Call
after_wake timeout shutdown_error (served result) = (serve_result result, [])
after_wake timeout shutdown_error cancelled =
    (shutdown_error, shuts_down timeout ∷ (close_if shutdown_error ++ waits_for_serving ∷ []))

abbrev starting : Option Error × List Call → Option Error × List Call
starting r = (r.0, starts_serving ∷ r.1)

-- The context's error at first, the shutdown's timeout, what `Shutdown` answers, and what happens
-- first once the server runs.
unfoldable pub serve_until_canceled :
    Option Error → ℕ → Option Error → Wake → Option Error × List Call
serve_until_canceled (some e) timeout shutdown_error wake = (some e, [])
serve_until_canceled none timeout shutdown_error wake =
    starting (after_wake timeout shutdown_error wake)

-- A server is not started under a context that has ended, and one that is cancelled is waited for.
pub serve_until_canceled-waits :
    (timeout : ℕ) (shutdown_error : Option Error)
    → (calls : List Call) × (serve_until_canceled none timeout shutdown_error cancelled
        ≡ (shutdown_error, (starts_serving ∷ shuts_down timeout ∷ calls) ++ waits_for_serving ∷ []))
unfolding serve_until_canceled
serve_until_canceled-waits timeout none = ([], refl)
serve_until_canceled-waits timeout (some e) = (closes ∷ [], refl)
